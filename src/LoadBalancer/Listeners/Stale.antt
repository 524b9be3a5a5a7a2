-- ===== src/LoadBalancer/Listeners/Stale.antt =====
-- pkg/tencentcloud/tencentcloud_loadbalancer.go: what ensureLoadBalancerListeners does when the cache
-- still has the list of an earlier run.
use cloud_provider_tencent.Go.Exec.Inversion.{same_outcome}
use cloud_provider_tencent.Base.{
  ◌≡◌, ◌≤◌, ◌∙◌, subst, sym, some, none, List, [], ◌∷◌, ◌++◌, String, length, All,
}
use cloud_provider_tencent.Go.Exec.{Outcome, ok, ◌>>=◌}
use cloud_provider_tencent.Go.Exec.Leads.{Leads, Leads-Ensures, Leads-bind, Leads-for_each}
use cloud_provider_tencent.Sdk.{
  Listener, Service, LoadBalancer, CacheValue, load_balancer_value, listeners_value, Answer, reply,
}
use cloud_provider_tencent.Sdk.Env.{Env, TencentCloudCacheEntry, call}
use cloud_provider_tencent.Cloud.{TxCloudConfig}
use cloud_provider_tencent.LoadBalancer.Lookup.{cache_name_pre_clb}
use cloud_provider_tencent.Coherence.Keys.{clb-ne-clb_listener}
use cloud_provider_tencent.LoadBalancer.Task.{
  wait_api_task_done, get_tencent_cloud_api_task_status, sleep,
}
use cloud_provider_tencent.LoadBalancer.Task.Polling.{wait_api_task_done-Ensures}
use cloud_provider_tencent.LoadBalancer.Task.Requests.{settles}
use cloud_provider_tencent.LoadBalancer.Instance.Matching.{name_of}
use cloud_provider_tencent.LoadBalancer.Instance.Stale.{get_load_balancer-Cached}
use cloud_provider_tencent.LoadBalancer.Listeners.{
  create_listener, delete_listener, ensure_load_balancer_listeners, reconcile,
}
use cloud_provider_tencent.LoadBalancer.Listeners.Method.{
  listeners_key, after_miss, ensure_load_balancer_listeners_found, get_load_balancer_listeners_miss,
  get_load_balancer_listeners_hit,
}

-- The store answers with the value under the key.
abbrev pub Answers : (E : Env) → String → CacheValue → E.World → Type 0
Answers E key value w =
    (E.store_get_by_key key w).0 ≡ reply (some (record { key = key; value = value }))

-- The world once the store was asked for a balancer.
abbrev pub asked : (E : Env) → String → E.World → E.World
asked E name w = (E.store_get_by_key (cache_name_pre_clb ++ name) w).1

-- The call keeps the entries of the store.
abbrev pub KeepsEntries : (E : Env) {R A : Type 0} → (R → E.World → Answer A × E.World) → Type 0
KeepsEntries E {R} c =
    (r : R) (w : E.World) (key : String) (value : CacheValue)
    → Answers E key value w
    → Answers E key value (c r w).1

-- No entry expires while the method runs, and the store answers with what was added last.
pub record Lasting (E : Env) : Type 0 where
  pub added :
      (item : TencentCloudCacheEntry) (w : E.World)
      → Answers E item.key item.value (E.store_add item w).1
  pub added_other :
      (item : TencentCloudCacheEntry) (w : E.World) (key : String) (value : CacheValue)
      → ¬ (key ≡ item.key)
      → Answers E key value w
      → Answers E key value (E.store_add item w).1
  pub get_by_key_keeps : KeepsEntries E E.store_get_by_key
  pub describe_listeners_keeps : KeepsEntries E E.describe_listeners
  pub create_listener_keeps : KeepsEntries E E.create_listener
  pub delete_listener_keeps : KeepsEntries E E.delete_listener
  pub describe_task_status_keeps : KeepsEntries E E.describe_task_status
  pub sleep_keeps :
      (w : E.World) (key : String) (value : CacheValue)
      → Answers E key value w
      → Answers E key value (E.sleep w)

module _ (E : Env) (tx_config : TxCloudConfig) (K : Lasting E) (service : Service)
    (lb : LoadBalancer) (ls : List Listener) where
  abbrev balancer_key : String
  balancer_key = cache_name_pre_clb ++ name_of E tx_config service

  -- Both the balancer and the list are cached.
  record BothCached (w : E.World) : Type 0 where
    balancer : Answers E balancer_key (load_balancer_value lb) w
    listeners : Answers E (listeners_key lb) (listeners_value ls) w

  kept :
      {R A : Type 0} (c : R → E.World → Answer A × E.World) (r : R) (w : E.World)
      → KeepsEntries E c
      → BothCached w
      → BothCached (c r w).1
  kept c r w k h = record { balancer = k r w _ _ h.balancer; listeners = k r w _ _ h.listeners }

  kept_request :
      {R : Type 0} (c : R → E.World → Answer String × E.World) (r : R)
      → KeepsEntries E c
      → Leads BothCached BothCached (call (c r) >>= wait_api_task_done E)
  unfolding call get_tencent_cloud_api_task_status sleep
  kept_request c r k =
      Leads-bind {J = BothCached} _ _ (record { at = λ w h a e. kept c r w k h })
        (λ task. Leads-Ensures _ (
          wait_api_task_done-Ensures E task
            (record {
              at = λ w h.
                  (kept E.describe_task_status task w K.describe_task_status_keeps h, settles _);
            })
            (record {
              at = λ w h. (
                record {
                  balancer = K.sleep_keeps w _ _ h.balancer;
                  listeners = K.sleep_keeps w _ _ h.listeners;
                },
                tt,
              );
            })))

  reconcile-BothCached :
      (ks : List Listener) → Leads BothCached BothCached (reconcile E tx_config service lb ks)
  unfolding reconcile create_listener delete_listener
  reconcile-BothCached ks =
      Leads-bind {J = BothCached} _ _
        (Leads-for_each _ (λ _. Unit {0})
          (λ r _. kept_request E.create_listener r K.create_listener_keeps) _ (anything _))
        (λ _.
          Leads-for_each _ (λ _. Unit {0})
            (λ r _. kept_request E.delete_listener r K.delete_listener_keeps) _ (anything _))
    where
      anything : {A : Type 0} (xs : List A) → All (λ _. Unit {0}) xs
      anything [] = tt
      anything (x ∷ xs) = (tt, anything xs)

  -- A run over a cached balancer and a cached list.
  ran_cached :
      (w : E.World)
      → 8 ≤ length service.uid
      → BothCached w
      → (v : E.World) × (ensure_load_balancer_listeners E tx_config service w
          ≡ reconcile E tx_config service lb ls v)
  ran_cached w uid h =
      let w1 = (E.store_get_by_key balancer_key w).1 in
      (
        (E.store_get_by_key (listeners_key lb) w1).1,
        ensure_load_balancer_listeners_found E tx_config service lb w w1 _ ls uid
            (get_load_balancer-Cached E tx_config (name_of E tx_config service) lb service w
              h.balancer)
            (get_load_balancer_listeners_hit E tx_config service lb w1 ls
              (K.get_by_key_keeps balancer_key w _ _ h.listeners)),
      )

  missed_once :
      (w1 : E.World)
      → Answers E balancer_key (load_balancer_value lb) w1
      → BothCached (after_miss E tx_config service lb ls w1)
  missed_once w1 h = record {
    balancer =
        K.added_other _ _ _ _
          (clb-ne-clb_listener (name_of E tx_config service) lb.load_balancer_id)
          (K.describe_listeners_keeps _ _ _ _ (K.get_by_key_keeps _ _ _ _ h));
    listeners = K.added _ _;
  }

-- For a service whose uid has eight bytes, while no entry of the cache expires: if the balancer is
-- cached and its listeners are not, and ensureLoadBalancerListeners returns with no error, then its
-- next run compares the ports with the same list as the first run, the one from before the
-- creations and deletions of that run, and so makes the requests for the same ports again.
pub ensure_load_balancer_listeners_stale :
    (E : Env) (tx_config : TxCloudConfig) (K : Lasting E) (service : Service) (lb : LoadBalancer)
    (ls : List Listener) (w : E.World)
    → 8 ≤ length service.uid
    → Answers E (cache_name_pre_clb ++ name_of E tx_config service) (load_balancer_value lb) w
    → (E.store_get_by_key (listeners_key lb) (asked E (name_of E tx_config service) w)).0
      ≡ reply none
    → (E.describe_listeners lb.load_balancer_id
        (E.store_get_by_key (listeners_key lb) (asked E (name_of E tx_config service) w)).1).0
      ≡ reply ls
    → (ensure_load_balancer_listeners E tx_config service w).0 ≡ ok tt
    → (v : E.World) × (ensure_load_balancer_listeners E tx_config service
          (ensure_load_balancer_listeners E tx_config service w).1
        ≡ reconcile E tx_config service lb ls v)
ensure_load_balancer_listeners_stale E tx_config K service lb ls w uid cached missed told ran =
    let w1 = (E.store_get_by_key (cache_name_pre_clb ++ name_of E tx_config service) w).1 in
    let run =
      ensure_load_balancer_listeners_found E tx_config service lb w w1 _ ls uid
        (get_load_balancer-Cached E tx_config (name_of E tx_config service) lb service w cached)
        (get_load_balancer_listeners_miss E tx_config service lb w1 ls missed told) in
    let done = same_outcome (sym run) ∙ ran in
    ran_cached E tx_config K service lb ls _ uid (
      subst (λ (p : Outcome (Unit {0}) × E.World). BothCached E tx_config K service lb ls p.1)
        (sym run)
        ((reconcile-BothCached E tx_config K service lb ls ls).at _
          (missed_once E tx_config K service lb ls w1 (K.get_by_key_keeps _ _ _ _ cached)) tt done))
