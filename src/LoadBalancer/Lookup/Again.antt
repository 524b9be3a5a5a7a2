-- ===== src/LoadBalancer/Lookup/Again.antt =====
-- pkg/tencentcloud/tencentcloud_loadbalancer.go: what getLoadBalancer answers when it is asked again.
use cloud_provider_tencent.Base.{
  ◌≡◌, ◌∙◌, refl, sym, ap, subst, Option, none, some, List, [], ◌∷◌, ◌++◌, String,
}
use cloud_provider_tencent.Go.Exec.{Exec, Outcome, ok, pure, raise, panics, ◌>>=◌}
use cloud_provider_tencent.Go.Exec.Inversion.{bind-ok, same_outcome, ok_inj}
use cloud_provider_tencent.Sdk.{
  Service, LoadBalancer, CacheValue, instance_value, load_balancer_value, listeners_value, reply,
}
use cloud_provider_tencent.Sdk.Env.{Env, TencentCloudCacheEntry, call}
use cloud_provider_tencent.Cache
use cloud_provider_tencent.Cloud.{TxCloudConfig}
use cloud_provider_tencent.LoadBalancer.Annotations.{get_load_balancer_filter}
use cloud_provider_tencent.LoadBalancer.Lookup.{
  cache_name_pre_clb, as_load_balancer, only_one, get_load_balancer,
}

-- The store answers with the value under the key.
abbrev pub Remembers : (E : Env) → String → CacheValue → E.World → Type 0
Remembers E key value w =
    (item : TencentCloudCacheEntry) × ((E.store_get_by_key key w).0 ≡ reply (some item))
    × (value ≡ item.value)

-- No entry expires between two questions for it, or between its addition and a question.
pub record Lasts (E : Env) (key : String) : Type 0 where
  pub added :
      (value : CacheValue) (w : E.World)
      → Remembers E key value (E.store_add (record { key = key; value = value }) w).1
  pub again :
      (value : CacheValue) (w : E.World)
      → Remembers E key value w
      → Remembers E key value (E.store_get_by_key key w).1

module _ (E : Env) (tx_config : TxCloudConfig) (name : String) where
  abbrev key : String
  key = cache_name_pre_clb ++ name

  remembered :
      (service : Service) (lb : LoadBalancer) (w : E.World)
      → Remembers E key (load_balancer_value lb) w
      → get_load_balancer E tx_config name service w ≡ (ok lb, (E.store_get_by_key key w).1)
  unfolding get_load_balancer Cache.get as_load_balancer ◌>>=◌
  remembered service lb w (item, e, v) = rw e (rw (← v) refl)

  as_load_balancer-value :
      (v : CacheValue) (w w1 : E.World) (lb : LoadBalancer)
      → as_load_balancer v w ≡ (ok lb, w1)
      → (v ≡ load_balancer_value lb) × (w ≡ w1)
  unfolding as_load_balancer pure panics
  as_load_balancer-value (load_balancer_value lb') w w1 lb e = (cc, cc)
  as_load_balancer-value (instance_value i) w w1 lb e = absurd (cc)
  as_load_balancer-value (listeners_value ls) w w1 lb e = absurd (cc)

  only_one-added :
      (set : List LoadBalancer) (w w1 : E.World) (lb : LoadBalancer)
      → only_one E tx_config key set w ≡ (ok lb, w1)
      → (E.store_add (record { key = key; value = load_balancer_value lb }) w).1 ≡ w1
  unfolding only_one Cache.set raise pure ◌>>=◌
  only_one-added [] w w1 lb e = absurd (cc)
  only_one-added (lb' ∷ []) w w1 lb e =
      ap (λ b. (E.store_add (record { key = key; value = load_balancer_value b }) w).1)
        (sym (ok_inj (same_outcome e)))
      ∙ ap (λ (p : Outcome LoadBalancer × E.World). p.1) e
  only_one-added (_ ∷ _ ∷ _) w w1 lb e = absurd (cc)

  -- What is done with what the cache answered.
  abbrev go_on : Service → Option CacheValue → Exec E.World LoadBalancer
  go_on service none =
      call (
        E.describe_load_balancers
          (record { load_balancer_name = name; filters = get_load_balancer_filter service }))
      >>= only_one E tx_config key
  go_on service (some v) = as_load_balancer v

  go_on-Remembers :
      (service : Service) (lb : LoadBalancer) (o : Option CacheValue) (w w1 : E.World)
      → Lasts E key
      → (Cache.get E key w).0 ≡ ok o
      → go_on service o (E.store_get_by_key key w).1 ≡ (ok lb, w1)
      → Remembers E key (load_balancer_value lb) w1
  unfolding Cache.get
  go_on-Remembers service lb (some v) w w1 K got e =
      let (same, here) = as_load_balancer-value v _ w1 lb e in
      let (item, told, holds) = Cache.found-eq-some _ v (ok_inj got) in
      subst (Remembers E key (load_balancer_value lb)) here
        (K.again (load_balancer_value lb) w (item, told, sym same ∙ holds))
  go_on-Remembers service lb none w w1 K got e =
      let (set, _, run) =
        bind-ok
          (call (
            E.describe_load_balancers
              (record { load_balancer_name = name; filters = get_load_balancer_filter service })))
          (only_one E tx_config key) (E.store_get_by_key key w).1 lb (same_outcome e) in
      subst (Remembers E key (load_balancer_value lb)) (only_one-added set _ w1 lb (sym run ∙ e))
        (K.added (load_balancer_value lb) _)

  get_load_balancer-Remembers :
      (service : Service) (lb : LoadBalancer) (w w1 : E.World)
      → Lasts E key
      → get_load_balancer E tx_config name service w ≡ (ok lb, w1)
      → Remembers E key (load_balancer_value lb) w1
  unfolding get_load_balancer Cache.get
  get_load_balancer-Remembers service lb w w1 K e =
      let (o, got, run) =
        bind-ok (Cache.get E key) (go_on service) w lb (same_outcome (same_run ∙ e)) in
      go_on-Remembers service lb o w w1 K got (sym run ∙ same_run ∙ e)
    where
      same_run :
          (Cache.get E key >>= go_on service) w ≡ get_load_balancer E tx_config name service w
      same_run = refl

-- While the entry does not expire: once getLoadBalancer has returned a balancer for a name, it
-- returns the same balancer when it is asked for the name again, for whatever service, and makes no
-- call but the question to the cache.
pub get_load_balancer_again :
    (E : Env) (tx_config : TxCloudConfig) (name : String) (service other : Service)
    (lb : LoadBalancer) (w w1 : E.World)
    → Lasts E (cache_name_pre_clb ++ name)
    → get_load_balancer E tx_config name service w ≡ (ok lb, w1)
    → get_load_balancer E tx_config name other w1
      ≡ (ok lb, (E.store_get_by_key (cache_name_pre_clb ++ name) w1).1)
get_load_balancer_again E tx_config name service other lb w w1 K e =
    remembered E tx_config name other lb w1
      (get_load_balancer-Remembers E tx_config name service lb w w1 K e)
