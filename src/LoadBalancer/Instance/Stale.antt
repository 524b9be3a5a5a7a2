-- ===== src/LoadBalancer/Instance/Stale.antt =====
-- pkg/tencentcloud/tencentcloud_loadbalancer.go: what deleteLoadBalancer leaves in the cache.
use cloud_provider_tencent.Go.Exec.Inversion.{same_outcome}
use cloud_provider_tencent.Base.{
  ◌≤◌, ◌≡◌, ◌∙◌, refl, sym, subst, some, List, ◌∷◌, [], ◌++◌, String, length,
}
use cloud_provider_tencent.Go.Exec.{
  Outcome, ok, err, panic, value, attempt, returned, continue, ◌>>=◌,
}
use cloud_provider_tencent.Go.Exec.Ensures.{Ensures, Post}
use cloud_provider_tencent.Sdk.{LoadBalancer, Service, load_balancer_value, Answer, reply, fail}
use cloud_provider_tencent.Sdk.Env.{Env, call, outcome}
use cloud_provider_tencent.Cache
use cloud_provider_tencent.Cloud.{TxCloudConfig}
use cloud_provider_tencent.LoadBalancer.Lookup.{
  cache_name_pre_clb, full_name, get_load_balancer_name, get_load_balancer, as_load_balancer,
}
use cloud_provider_tencent.LoadBalancer.Name.{shorten_ok}
use cloud_provider_tencent.LoadBalancer.Task.{
  get_tencent_cloud_api_task_status, sleep, wait_api_task_done,
}
use cloud_provider_tencent.LoadBalancer.Task.Polling.{wait_api_task_done-Ensures}
use cloud_provider_tencent.LoadBalancer.Instance.{after_delete, delete_found, delete_load_balancer}
use cloud_provider_tencent.LoadBalancer.Instance.Matching.{name_of}

-- The store answers with the balancer under the name.
abbrev pub Cached : (E : Env) → String → LoadBalancer → E.World → Type 0
Cached E name lb w =
    (E.store_get_by_key (cache_name_pre_clb ++ name) w).0
    ≡ reply (some (record { key = cache_name_pre_clb ++ name; value = load_balancer_value lb }))

-- The time to live of the entry does not run out while the calls of a deletion are made.
pub record Unexpired (E : Env) (name : String) (lb : LoadBalancer) : Type 0 where
  pub across_get :
      (w : E.World)
      → Cached E name lb w
      → Cached E name lb (E.store_get_by_key (cache_name_pre_clb ++ name) w).1
  pub across_delete :
      (ids : List String) (w : E.World)
      → Cached E name lb w
      → Cached E name lb (E.delete_load_balancer ids w).1
  pub across_status :
      (task : String) (w : E.World)
      → Cached E name lb w
      → Cached E name lb (E.describe_task_status task w).1
  pub across_sleep : (w : E.World) → Cached E name lb w → Cached E name lb (E.sleep w)

module _ (E : Env) (tx_config : TxCloudConfig) (name : String) (lb : LoadBalancer) where
  -- A cached balancer is what the search finds, with no call to the service.
  pub get_load_balancer-Cached :
      (service : Service) (w : E.World)
      → Cached E name lb w
      → get_load_balancer E tx_config name service w
        ≡ (ok lb, (E.store_get_by_key (cache_name_pre_clb ++ name) w).1)
  unfolding get_load_balancer Cache.get as_load_balancer ◌>>=◌
  get_load_balancer-Cached service w h = rw h refl

  call-Post : {A : Type 0} (a : Answer A) → Post (λ _. Unit {0}) (outcome a)
  call-Post (reply a) = tt
  call-Post (fail e) = tt

  module _ (U : Unexpired E name lb) where
    pub wait-Cached :
        (task : String) → Ensures (Cached E name lb) (λ _. Unit {0}) (wait_api_task_done E task)
    unfolding get_tencent_cloud_api_task_status sleep
    wait-Cached task =
        wait_api_task_done-Ensures E task
          (record { at = λ w h. (U.across_status task w h, call-Post _) })
          (record { at = λ w h. (U.across_sleep w h, tt) })

    after_delete-Cached :
        (r : Outcome (Unit {0})) (w : E.World)
        → Cached E name lb w
        → (continue (returned r w).0 (after_delete E tx_config name) (returned r w).1).0 ≡ ok tt
        → Cached E name lb
            (continue (returned r w).0 (after_delete E tx_config name) (returned r w).1).1
    unfolding after_delete Cache.delete ◌>>=◌
    after_delete-Cached (ok _) w h k = h
    after_delete-Cached (err e) w h k = cc
    after_delete-Cached panic w h k = cc

    started-Cached :
        (a : Answer String) (w : E.World)
        → Cached E name lb w
        → (continue
            (outcome a)
            (λ id. attempt (wait_api_task_done E id) >>= after_delete E tx_config name)
            w).0
          ≡ ok tt
        → Cached E name lb
            (continue
              (outcome a)
              (λ id. attempt (wait_api_task_done E id) >>= after_delete E tx_config name)
              w).1
    unfolding ◌>>=◌
    started-Cached (fail e) w h k = cc
    started-Cached (reply id) w h k =
        after_delete-Cached (wait_api_task_done E id w).0 _ ((wait-Cached id).at w h).0 k

    found-Cached :
        (w : E.World)
        → Cached E name lb w
        → (delete_found E tx_config name (value lb) w).0 ≡ ok tt
        → Cached E name lb (delete_found E tx_config name (value lb) w).1
    unfolding delete_found ◌>>=◌ call
    found-Cached w h k = started-Cached _ _ (U.across_delete (lb.load_balancer_id ∷ []) w h) k

  delete_load_balancer-Cached :
      (service : Service) (w : E.World)
      → name ≡ name_of E tx_config service
      → 8 ≤ length service.uid
      → Cached E name lb w
      → delete_load_balancer E tx_config service w
        ≡ delete_found E tx_config name
            (value lb)
            (E.store_get_by_key (cache_name_pre_clb ++ name) w).1
  unfolding delete_load_balancer get_load_balancer_name attempt ◌>>=◌
  delete_load_balancer-Cached service w named uid h =
      rw (shorten_ok (full_name tx_config service) service.uid w uid)
        (rw (← named) (rw (get_load_balancer-Cached service w h) refl))

  pub deleted-Cached :
      (service : Service) (w : E.World)
      → name ≡ name_of E tx_config service
      → 8 ≤ length service.uid
      → Unexpired E name lb
      → Cached E name lb w
      → (delete_load_balancer E tx_config service w).0 ≡ ok tt
      → Cached E name lb (delete_load_balancer E tx_config service w).1
  deleted-Cached service w named uid U h k =
      let e = delete_load_balancer-Cached service w named uid h in
      subst (λ (p : Outcome (Unit {0}) × E.World). Cached E name lb p.1) (sym e)
        (found-Cached U _ (U.across_get w h) (sym (same_outcome e) ∙ k))

  -- If the uid of the service has eight bytes, its balancer is cached and the entry does not expire
  -- meanwhile: a deletion that succeeds leaves the entry, and the next search for the balancer
  -- returns the deleted one.
  pub delete_load_balancer_stale :
      (service : Service) (w : E.World)
      → name ≡ name_of E tx_config service
      → 8 ≤ length service.uid
      → Unexpired E name lb
      → Cached E name lb w
      → (delete_load_balancer E tx_config service w).0 ≡ ok tt
      → (get_load_balancer E tx_config name service
          (delete_load_balancer E tx_config service w).1).0
        ≡ ok lb
  delete_load_balancer_stale service w named uid U h k =
      same_outcome (get_load_balancer-Cached service _ (deleted-Cached service w named uid U h k))
