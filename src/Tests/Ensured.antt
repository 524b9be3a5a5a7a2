-- ===== src/Tests/Ensured.antt =====
-- EnsureLoadBalancer and UpdateLoadBalancer, at the service of `Data`.
use cloud_provider_tencent.Base.{◌≡◌, refl, ap, List, get, string_beq}
use cloud_provider_tencent.Go.Strings.{bytes}
use cloud_provider_tencent.Go.Exec.{Outcome, ok}
use cloud_provider_tencent.Sdk.{Listener}
use cloud_provider_tencent.Cache
use cloud_provider_tencent.LoadBalancer.Annotations.{desired_type}
use cloud_provider_tencent.LoadBalancer.Lookup.{full_name, get_load_balancer}
use cloud_provider_tencent.LoadBalancer.Instance.Matching.{
  name_of, ensure_load_balancer_instance_matching,
}
use cloud_provider_tencent.LoadBalancer.Instance.Stale.{get_load_balancer-Cached}
use cloud_provider_tencent.LoadBalancer.Service.{update_load_balancer}
use cloud_provider_tencent.LoadBalancer.Service.Footprint.{KeptByUpdate, update_load_balancer-Keeps}
use cloud_provider_tencent.LoadBalancer.Service.Ensured.{after_instance}
use cloud_provider_tencent.Tests.Fake.{Fake}
use cloud_provider_tencent.Tests.Data.{settings, web, nodes, balancer, listeners, start}
use cloud_provider_tencent.Tests.Listeners.{prompt, uid_long}

listeners-KeptByUpdate : (ls : List Listener) → KeptByUpdate prompt (λ w. w.listeners ≡ ls)
listeners-KeptByUpdate ls = record {
  describe_instances = λ r w h. h;
  describe_load_balancers = λ r w h. h;
  describe_targets = λ r w h. h;
  register_targets = λ r w h. h;
  deregister_targets = λ r w h. h;
  describe_task_status = λ r w h. h;
  store_add = λ r w h. h;
  store_get_by_key = λ r w h. h;
  sleep = λ w h. h;
}

update_load_balancer-Keeps_example :
    (update_load_balancer prompt settings web nodes start).1.listeners ≡ listeners
update_load_balancer-Keeps_example =
    update_load_balancer-Keeps prompt settings (λ w. w.listeners ≡ listeners) web nodes start
      (listeners-KeptByUpdate listeners) refl

pub found_start :
    get_load_balancer prompt settings (name_of prompt settings web) web start ≡ (ok balancer, start)
unfolding string_beq bytes full_name
found_start =
    get_load_balancer-Cached prompt settings (name_of prompt settings web) balancer web start refl

pub after_start : after_instance prompt settings web nodes start ≡ start
unfolding desired_type string_beq get bytes
after_start =
    ap (λ (p : Outcome (Unit {0}) × Fake). p.1)
      (ensure_load_balancer_instance_matching prompt settings web start start balancer uid_long
        found_start (refl, refl))
