-- ===== src/LoadBalancer/Listeners/Method.antt =====
-- pkg/tencentcloud/tencentcloud_loadbalancer.go: ensureLoadBalancerListeners as a whole, behind the
-- searches through the cache.
use cloud_provider_tencent.Base.{
  ◌≡◌, ◌≤◌, ◌∙◌, refl, sym, subst, none, some, List, ◌++◌, String, length, All, Any,
}
use cloud_provider_tencent.Go.Exec.{ok, pure, ◌>>=◌}
use cloud_provider_tencent.Sdk.{Listener, Service, LoadBalancer, listeners_value, reply}
use cloud_provider_tencent.Sdk.Env.{Env, call}
use cloud_provider_tencent.Cache
use cloud_provider_tencent.Cloud.{TxCloudConfig}
use cloud_provider_tencent.LoadBalancer.Lookup.{
  cache_name_pre_clb_listener, full_name, get_load_balancer_name, get_load_balancer,
  get_load_balancer_listeners, as_listeners,
}
use cloud_provider_tencent.LoadBalancer.Name.{shorten_ok}
use cloud_provider_tencent.LoadBalancer.Instance.Matching.{name_of}
use cloud_provider_tencent.LoadBalancer.Listeners.{ensure_load_balancer_listeners, reconcile}
use cloud_provider_tencent.LoadBalancer.Listeners.Plan.{DistinctNames, DistinctIds, Serves}
use cloud_provider_tencent.LoadBalancer.Listeners.Laws.{ListenerLaws, listeners_of, NoneFailed}
use cloud_provider_tencent.LoadBalancer.Listeners.Effects.{reconcile-listeners_of}

abbrev pub listeners_key : LoadBalancer → String
listeners_key lb = cache_name_pre_clb_listener ++ lb.load_balancer_id

module _ (E : Env) (tx_config : TxCloudConfig) (service : Service) (lb : LoadBalancer) where
  -- The world in which the loops start where the listeners were not cached.
  abbrev pub after_miss : List Listener → E.World → E.World
  after_miss ls w =
      (E.store_add (record { key = listeners_key lb; value = listeners_value ls })
        (E.describe_listeners lb.load_balancer_id (E.store_get_by_key (listeners_key lb) w).1).1).1

  -- The method once the name, the balancer and its listeners are found.
  pub ensure_load_balancer_listeners_found :
      (w w1 w2 : E.World) (ls : List Listener)
      → 8 ≤ length service.uid
      → get_load_balancer E tx_config (name_of E tx_config service) service w ≡ (ok lb, w1)
      → get_load_balancer_listeners E tx_config lb.load_balancer_id w1 ≡ (ok ls, w2)
      → ensure_load_balancer_listeners E tx_config service w
        ≡ reconcile E tx_config service lb ls w2
  unfolding ensure_load_balancer_listeners get_load_balancer_name ◌>>=◌
  ensure_load_balancer_listeners_found w w1 w2 ls uid found listed =
      rw (shorten_ok (full_name tx_config service) service.uid w uid) (rw found (rw listed refl))

  pub get_load_balancer_listeners_miss :
      (w : E.World) (ls : List Listener)
      → (E.store_get_by_key (listeners_key lb) w).0 ≡ reply none
      → (E.describe_listeners lb.load_balancer_id (E.store_get_by_key (listeners_key lb) w).1).0
        ≡ reply ls
      → get_load_balancer_listeners E tx_config lb.load_balancer_id w ≡ (ok ls, after_miss ls w)
  unfolding get_load_balancer_listeners Cache.get Cache.set call pure ◌>>=◌
  get_load_balancer_listeners_miss w ls missed told = rw missed (rw told refl)

  pub get_load_balancer_listeners_hit :
      (w : E.World) (ls : List Listener)
      → (E.store_get_by_key (listeners_key lb) w).0
        ≡ reply (some (record { key = listeners_key lb; value = listeners_value ls }))
      → get_load_balancer_listeners E tx_config lb.load_balancer_id w
        ≡ (ok ls, (E.store_get_by_key (listeners_key lb) w).1)
  unfolding get_load_balancer_listeners Cache.get as_listeners pure ◌>>=◌
  get_load_balancer_listeners_hit w ls hit = rw hit refl

-- For a service of Tencent Cloud where accepted creations and deletions of listeners take effect
-- once their task succeeds, a service whose uid has eight bytes and whose ports have distinct
-- names, and a balancer that is found, whose listeners are not cached, are told truly by
-- DescribeListeners and have distinct ids: if ensureLoadBalancerListeners returns with no error and
-- no task answered that it failed, then every port has a listener with its number and protocol, and
-- every listener has the number and protocol of a port.
pub ensure_load_balancer_listeners-listeners_of :
    (E : Env) (tx_config : TxCloudConfig) (L : ListenerLaws E) (service : Service)
    (lb : LoadBalancer) (w w1 : E.World)
    → 8 ≤ length service.uid
    → DistinctNames service.ports
    → get_load_balancer E tx_config (name_of E tx_config service) service w ≡ (ok lb, w1)
    → (E.store_get_by_key (listeners_key lb) w1).0 ≡ reply none
    → (E.describe_listeners lb.load_balancer_id (E.store_get_by_key (listeners_key lb) w1).1).0
      ≡ reply (listeners_of L w1 lb.load_balancer_id)
    → DistinctIds (listeners_of L w1 lb.load_balancer_id)
    → (ensure_load_balancer_listeners E tx_config service w).0 ≡ ok tt
    → NoneFailed L (ensure_load_balancer_listeners E tx_config service w).1
    → let ls =
        listeners_of L
          (ensure_load_balancer_listeners E tx_config service w).1
          lb.load_balancer_id in
      All (λ p. Any (Serves p) ls) service.ports × All (λ l. Any (λ p. Serves p l) service.ports) ls
ensure_load_balancer_listeners-listeners_of E tx_config L service lb w w1 uid names found missed
      told distinct =
    let ls = listeners_of L w1 lb.load_balancer_id in
    let w3 = after_miss E tx_config service lb ls w1 in
    let run =
      ensure_load_balancer_listeners_found E tx_config service lb w w1 w3 ls uid found
        (get_load_balancer_listeners_miss E tx_config service lb w1 ls missed told) in
    let same : listeners_of L w3 lb.load_balancer_id ≡ ls =
      L.store_add_all _ _ _ ∙ L.describe_listeners_all _ _ _ ∙ L.store_get_by_key_all _ _ _ in
    rw run (
      subst
        (λ (xs : List Listener).
          (reconcile E tx_config service lb xs w3).0 ≡ ok tt
          → NoneFailed L (reconcile E tx_config service lb xs w3).1
          → All
              (λ p.
                Any (Serves p)
                  (listeners_of L (reconcile E tx_config service lb xs w3).1 lb.load_balancer_id))
              service.ports
            × All (λ l. Any (λ p. Serves p l) service.ports)
                (listeners_of L (reconcile E tx_config service lb xs w3).1 lb.load_balancer_id))
        same
        (reconcile-listeners_of E tx_config L service lb w3 names
          (subst DistinctIds (sym same) distinct)))
