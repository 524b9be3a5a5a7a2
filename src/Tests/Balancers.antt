-- ===== src/Tests/Balancers.antt =====
-- The theorems on load balancers, at the service of `Data`.
use cloud_provider_tencent.Base.{
  ℕ, zero, suc, ◌↔◌, ap, int_beq, string_beq, ◌≡◌, ◌≤◌, ◌<◌, refl, ◌⊎◌, false, none, [], ◌∷◌, ◌++◌,
  String, pos, length, take, get, arith,
}
use cloud_provider_tencent.Go.Strings.{bytes}
use cloud_provider_tencent.Go.Exec.{ok, err, value, pure, attempt, ◌>>=◌}
use cloud_provider_tencent.Sdk.{reply}
use cloud_provider_tencent.Sdk.Env.{call}
use cloud_provider_tencent.Cache
use cloud_provider_tencent.LoadBalancer.Lookup.{
  full_name, shorten, as_load_balancer, get_load_balancer_name, get_load_balancer,
}
use cloud_provider_tencent.LoadBalancer.Name.{get_load_balancer_name-le}
use cloud_provider_tencent.LoadBalancer.Annotations.{public, desired_type}
use cloud_provider_tencent.LoadBalancer.Task.{
  timed_out, get_tencent_cloud_api_task_status, on_status, wait_rounds, wait_api_task_done,
}
use cloud_provider_tencent.LoadBalancer.Task.Polling.{
  after, wait_api_task_done_finished, wait_api_task_done-timed_out,
}
use cloud_provider_tencent.LoadBalancer.Backends.{backends_to_delete, backends_to_add}
use cloud_provider_tencent.LoadBalancer.Backends.Reconcile as Backends
use cloud_provider_tencent.LoadBalancer.Backends.Reconcile.{target_eq}
use cloud_provider_tencent.LoadBalancer.Instance.{
  need_recreate, ensure_load_balancer_instance, after_delete, delete_found, delete_load_balancer,
}
use cloud_provider_tencent.LoadBalancer.Instance.Matching.{
  name_of, Matches, need_recreate_iff, ensure_load_balancer_instance_matching,
}
use cloud_provider_tencent.LoadBalancer.Instance.Stale.{
  Unexpired, get_load_balancer-Cached, delete_load_balancer_stale,
}
use cloud_provider_tencent.Tests.Fake.{Fake, fake}
use cloud_provider_tencent.Tests.Data.{
  settings, one, two, http, web, balancer, target, world, cached_world,
}

uid_long : 8 ≤ length web.uid
unfolding bytes
uid_long = omega arith

reconciled_idem_example :
    let targets = Backends.reconciled http (one ∷ two ∷ []) (target (bytes "i3") (pos 3080) ∷ []) in
    (backends_to_delete http (one ∷ two ∷ []) targets ≡ [])
    × (backends_to_add http (one ∷ two ∷ []) targets ≡ [])
reconciled_idem_example =
    Backends.reconciled_idem http (one ∷ two ∷ []) (target (bytes "i3") (pos 3080) ∷ [])

wait_api_task_done_finished_example :
    wait_api_task_done fake (bytes "task") (world (pos 1)) ≡ (ok tt, world (pos 1))
unfolding int_beq
wait_api_task_done_finished_example =
    wait_api_task_done_finished fake (bytes "task") 0 (world (pos 1)) (omega arith)
      (λ i lt. absurd (omega arith)) (λ e. cc)

after_same : (k : ℕ) (w : Fake) → after fake (bytes "task") k w ≡ w
after_same zero w = refl
after_same (suc k) w = after_same k w

wait_api_task_done-timed_out_example :
    wait_api_task_done fake (bytes "task") (world (pos 2))
    ≡ (err (timed_out (bytes "task")), after fake (bytes "task") 30 (world (pos 2)))
wait_api_task_done-timed_out_example =
    wait_api_task_done-timed_out fake (bytes "task") (world (pos 2))
      (λ i lt. ap (λ (w : Fake). reply w.status) (after_same i (world (pos 2))))

need_recreate_iff_example :
    (need_recreate settings balancer public none ≡ value false)
    ↔ Matches settings balancer public none
need_recreate_iff_example = need_recreate_iff settings balancer public none

get_load_balancer_name-le_example :
    (name : String) × (get_load_balancer_name fake settings web (world (pos 0))
      ≡ (ok name, world (pos 0)))
    × (length name ≤ 60)
    × (((length (full_name settings web) ≤ 60) × (name ≡ full_name settings web))
        ⊎ ((60 < length (full_name settings web))
            × (name ≡ take 50 (full_name settings web) ++ (bytes "_" ++ take 8 web.uid))))
get_load_balancer_name-le_example =
    get_load_balancer_name-le fake settings web (world (pos 0)) uid_long

ensure_load_balancer_instance_matching_example :
    ensure_load_balancer_instance fake settings web cached_world ≡ (ok tt, cached_world)
unfolding desired_type string_beq get bytes
ensure_load_balancer_instance_matching_example =
    ensure_load_balancer_instance_matching fake settings web cached_world cached_world balancer
      uid_long
      (get_load_balancer-Cached fake settings (name_of fake settings web) balancer web cached_world
        refl)
      (refl, refl)

unexpired : (name : String) → Unexpired fake name balancer
unexpired name = record {
  across_get = λ w h. h;
  across_delete = λ ids w h. h;
  across_status = λ task w h. h;
  across_sleep = λ w h. h;
}

-- The balancer is gone from the service, and the next search still returns it.
deleted : (delete_load_balancer fake settings web cached_world).0 ≡ ok tt
unfolding delete_load_balancer get_load_balancer_name shorten full_name bytes get_load_balancer
    Cache.get as_load_balancer attempt delete_found call wait_api_task_done wait_rounds
    get_tencent_cloud_api_task_status on_status pure int_beq after_delete ◌>>=◌
deleted = refl

delete_load_balancer_stale_example :
    (get_load_balancer fake settings
      (name_of fake settings web)
      web
      (delete_load_balancer fake settings web cached_world).1).0
    ≡ ok balancer
delete_load_balancer_stale_example =
    delete_load_balancer_stale fake settings (name_of fake settings web) balancer web cached_world
      refl uid_long (unexpired (name_of fake settings web)) refl deleted
