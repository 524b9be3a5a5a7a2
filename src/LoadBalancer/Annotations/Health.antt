-- ===== src/LoadBalancer/Annotations/Health.antt =====
-- pkg/tencentcloud/tencentcloud_loadbalancer.go: the health check that buildHealthCheck reads off the
-- annotations of a service.
use cloud_provider_tencent.Base.{◌≡◌, refl, Option, none, some, String, string_eq, ℤ, pos, get}
use cloud_provider_tencent.Go.Strconv.{format_int}
use cloud_provider_tencent.Go.Strconv.Decimal.{IsInt64, parse_int-format_int}
use cloud_provider_tencent.Sdk.{Service}
use cloud_provider_tencent.LoadBalancer.Annotations.{
  int_annotation_or, build_health_check, service_annotation_load_balancer_health_check_switch,
  service_annotation_load_balancer_health_check_timeout,
  service_annotation_load_balancer_health_check_interval_time,
  service_annotation_load_balancer_health_check_health_num,
  service_annotation_load_balancer_health_check_un_health_num,
}

-- The annotation is missing, or is the decimal form of an int64.
abbrev pub Says : Service → String → Option ℤ → Type 0
Says service key none = get key service.annotations ≡ none
Says service key (some i) = (get key service.annotations ≡ some (format_int i)) × IsInt64 i

abbrev pub or_default : Option ℤ → ℤ → ℤ
or_default none default = default
or_default (some i) default = i

int_annotation_or-Says :
    (service : Service) (key : String) (o : Option ℤ) (default : ℤ)
    → Says service key o
    → int_annotation_or service key default ≡ or_default o default
unfolding int_annotation_or
int_annotation_or-Says service key none default e = rw (e, int_annotation_or) refl
int_annotation_or-Says service key (some i) default (e, fits) =
    rw (e, int_annotation_or) (rw (parse_int-format_int i fits) refl)

-- For a service whose five annotations of the health check are each missing or the decimal form of
-- an int64: buildHealthCheck gives these numbers, with 1, 2, 5, 3 and 3 in place of the missing
-- ones. For the switch README.md documents the default 0, and the code has 1.
pub build_health_check-format_int :
    (service : Service) (switch timeout interval healthy unhealthy : Option ℤ)
    → Says service service_annotation_load_balancer_health_check_switch switch
    → Says service service_annotation_load_balancer_health_check_timeout timeout
    → Says service service_annotation_load_balancer_health_check_interval_time interval
    → Says service service_annotation_load_balancer_health_check_health_num healthy
    → Says service service_annotation_load_balancer_health_check_un_health_num unhealthy
    → build_health_check service ≡ record {
      health_switch = or_default switch (pos 1);
      source_ip_type = pos 1;
      time_out = or_default timeout (pos 2);
      interval_time = or_default interval (pos 5);
      health_num = or_default healthy (pos 3);
      un_health_num = or_default unhealthy (pos 3);
    }
unfolding build_health_check
build_health_check-format_int service switch timeout interval healthy unhealthy a b c d e =
    rw
      (
        int_annotation_or-Says service _ switch (pos 1) a,
        int_annotation_or-Says service _ timeout (pos 2) b,
        int_annotation_or-Says service _ interval (pos 5) c,
        int_annotation_or-Says service _ healthy (pos 3) d,
        int_annotation_or-Says service _ unhealthy (pos 3) e,
      )
      refl
