-- ===== src/Tests/Health.antt =====
-- The theorems on the health check of a service, at concrete annotations.
use cloud_provider_tencent.Base.{
  ◌≡◌, refl, none, some, [], ◌∷◌, pos, negsuc, string_beq, get, arith,
}
use cloud_provider_tencent.Go.Strings.{bytes}
use cloud_provider_tencent.Go.Strconv.{parse_int, format_int}
use cloud_provider_tencent.Sdk.{Service}
use cloud_provider_tencent.LoadBalancer.Annotations.{
  build_health_check, service_annotation_load_balancer_health_check_timeout,
  service_annotation_load_balancer_health_check_health_num,
}
use cloud_provider_tencent.LoadBalancer.Annotations.Health.{build_health_check-format_int}
use cloud_provider_tencent.Tests.Data.{web}

abbrev annotated : Service
annotated = record web {
  annotations =
      (service_annotation_load_balancer_health_check_timeout, bytes "30")
      ∷ (service_annotation_load_balancer_health_check_health_num, bytes "-7")
      ∷ [];
}

build_health_check-format_int_example : build_health_check annotated ≡ record {
  health_switch = pos 1;
  source_ip_type = pos 1;
  time_out = pos 30;
  interval_time = pos 5;
  health_num = negsuc 6;
  un_health_num = pos 3;
}
unfolding get string_beq bytes format_int
build_health_check-format_int_example =
    build_health_check-format_int annotated none (some (pos 30)) none (some (negsuc 6)) none refl
      (refl, omega arith) refl (refl, omega arith) refl

-- A number that is too large, one that is too small, and no number at all.
too_large : (parse_int (bytes "9223372036854775808")).0 ≡ pos 9223372036854775807
unfolding parse_int bytes
too_large = refl

too_small : (parse_int (bytes "-9223372036854775809")).0 ≡ negsuc 9223372036854775807
unfolding parse_int bytes
too_small = refl

no_number : (parse_int (bytes "ten")).0 ≡ pos 0
unfolding parse_int bytes
no_number = refl
