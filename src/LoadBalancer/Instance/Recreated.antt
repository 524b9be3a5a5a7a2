-- ===== src/LoadBalancer/Instance/Recreated.antt =====
-- pkg/tencentcloud/tencentcloud_loadbalancer.go: ensureLoadBalancerInstance where the balancer that the
-- cache has does not match the service.
use cloud_provider_tencent.Base.{
  ◌≡◌, ◌≤◌, ◌∙◌, refl, sym, ap, subst, Bool, true, false, ◌++◌, String, length,
}
use cloud_provider_tencent.Go.Exec.{
  Outcome, ok, Result, value, error, rethrow, attempt, ◌>>=◌, ◌>>◌,
}
use cloud_provider_tencent.Go.Exec.Inversion.{bind-ok, same_outcome}
use cloud_provider_tencent.Go.Exec.Keeps.{Keeps, Keeps-Ensures, Keeps-bind}
use cloud_provider_tencent.Sdk.{LoadBalancer, Service, CreateLoadBalancerRequest}
use cloud_provider_tencent.Sdk.Env.{Env, call}
use cloud_provider_tencent.Cloud.{TxCloudConfig}
use cloud_provider_tencent.LoadBalancer.Annotations.{desired_type}
use cloud_provider_tencent.LoadBalancer.Lookup.{
  full_name, get_load_balancer_name, get_load_balancer, cache_name_pre_clb,
}
use cloud_provider_tencent.LoadBalancer.Lookup.Footprint.{name-Keeps}
use cloud_provider_tencent.LoadBalancer.Name.{shorten_ok}
use cloud_provider_tencent.LoadBalancer.Instance.{
  subnet_of, need_recreate, create_load_balancer, delete_load_balancer, recreate, ensure_found,
  ensure_load_balancer_instance,
}
use cloud_provider_tencent.LoadBalancer.Instance.Matching.{Matches, name_of, need_recreate_iff}
use cloud_provider_tencent.LoadBalancer.Instance.Stale.{
  Cached, Unexpired, get_load_balancer-Cached, wait-Cached, deleted-Cached,
}

-- The time to live of the entry does not run out while a balancer is created.
abbrev pub OutlastsCreation : (E : Env) → String → LoadBalancer → Type 0
OutlastsCreation E name lb =
    (r : CreateLoadBalancerRequest) (w : E.World)
    → Cached E name lb w
    → Cached E name lb (E.create_load_balancer r w).1

module _ (E : Env) (tx_config : TxCloudConfig) (service : Service) (lb : LoadBalancer)
    (U : Unexpired E (name_of E tx_config service) lb)
    (O : OutlastsCreation E (name_of E tx_config service) lb) where
  abbrev pub IsCached : E.World → Type 0
  IsCached w = Cached E (name_of E tx_config service) lb w

  -- What the run starts from, once the balancer came out of the cache.
  abbrev asked : E.World → E.World
  asked w = (E.store_get_by_key (cache_name_pre_clb ++ name_of E tx_config service) w).1

  rethrow-Keeps : {A : Type 0} (r : Result A) → Keeps IsCached (rethrow r)
  unfolding rethrow
  rethrow-Keeps (value a) = record { at = λ w h. h }
  rethrow-Keeps (error e) = record { at = λ w h. h }

  create-Keeps : Keeps IsCached (create_load_balancer E tx_config service)
  unfolding create_load_balancer call
  create-Keeps = Keeps-bind _ _ (name-Keeps E tx_config IsCached service) (λ name.
      Keeps-bind _ _ (rethrow-Keeps _) (λ r.
        Keeps-bind _ _ (record { at = λ w h. O r w h })
          (λ task.
            Keeps-Ensures _ (wait-Cached E tx_config (name_of E tx_config service) lb U task))))

  -- The method over a cached balancer.
  ensure_load_balancer_instance-Cached :
      (w : E.World)
      → 8 ≤ length service.uid
      → IsCached w
      → ensure_load_balancer_instance E tx_config service w
        ≡ (rethrow (need_recreate tx_config lb (desired_type service) (subnet_of service))
              >>= recreate E tx_config service)
            (asked w)
  unfolding ensure_load_balancer_instance ensure_found get_load_balancer_name attempt ◌>>=◌
  ensure_load_balancer_instance-Cached w uid h =
      rw (shorten_ok (full_name tx_config service) service.uid w uid) (
        rw (get_load_balancer-Cached E tx_config (name_of E tx_config service) lb service w h) refl)

  -- A balancer that does not match is replaced, or the run fails.
  replaced :
      (r : Result Bool) (w : E.World)
      → need_recreate tx_config lb (desired_type service) (subnet_of service) ≡ r
      → ¬ (Matches tx_config lb (desired_type service) (subnet_of service))
      → ((rethrow r >>= recreate E tx_config service) w).0 ≡ ok tt
      → r ≡ value true
  unfolding rethrow ◌>>=◌
  replaced (value true) w e other ran = refl
  replaced (value false) w e other ran =
      absurd
        (other ((need_recreate_iff tx_config lb (desired_type service) (subnet_of service)).0 e))
  replaced (error x) w e other ran = absurd (cc)

  -- After a run over a cached balancer that does not match, the entry is still there.
  recreated-Cached :
      (w : E.World)
      → 8 ≤ length service.uid
      → IsCached w
      → (recreate E tx_config service true w).0 ≡ ok tt
      → IsCached (recreate E tx_config service true w).1
  unfolding recreate
  recreated-Cached w uid h ran =
      let (_, deleted, run) =
        bind-ok (delete_load_balancer E tx_config service)
          (λ _. create_load_balancer E tx_config service) w tt ran in
      subst (λ (p : Outcome (Unit {0}) × E.World). IsCached p.1) (sym run)
        (create-Keeps.at _ (
          deleted-Cached E tx_config (name_of E tx_config service) lb service w refl uid U h
            deleted))

  -- A run over it deletes the balancer and creates one.
  recreates :
      (w : E.World)
      → 8 ≤ length service.uid
      → IsCached w
      → need_recreate tx_config lb (desired_type service) (subnet_of service) ≡ value true
      → ensure_load_balancer_instance E tx_config service w
        ≡ recreate E tx_config service true (asked w)
  unfolding rethrow ◌>>=◌
  recreates w uid h needed = ensure_load_balancer_instance-Cached w uid h ∙ rw needed refl

  ensure_load_balancer_instance-recreate :
      (w : E.World)
      → 8 ≤ length service.uid
      → ¬ (Matches tx_config lb (desired_type service) (subnet_of service))
      → IsCached w
      → (ensure_load_balancer_instance E tx_config service w).0 ≡ ok tt
      → (need_recreate tx_config lb (desired_type service) (subnet_of service) ≡ value true)
        × (ensure_load_balancer_instance E tx_config service w
            ≡ recreate E tx_config service true (asked w))
  ensure_load_balancer_instance-recreate w uid other h ran =
      let run = ensure_load_balancer_instance-Cached w uid h in
      let needed =
        replaced (need_recreate tx_config lb (desired_type service) (subnet_of service)) (asked w)
          refl other (same_outcome (sym run) ∙ ran) in
      (needed, recreates w uid h needed)

-- If the uid of the service has eight bytes, a balancer that does not match the service is cached and
-- the entry does not expire meanwhile: a run of ensureLoadBalancerInstance that returns with no error
-- leaves the entry of the balancer that it replaced. The next search returns that balancer, and the
-- next run deletes it and creates a balancer once more.
pub ensure_load_balancer_instance_stale :
    (E : Env) (tx_config : TxCloudConfig) (service : Service) (lb : LoadBalancer) (w : E.World)
    → Unexpired E (name_of E tx_config service) lb
    → OutlastsCreation E (name_of E tx_config service) lb
    → 8 ≤ length service.uid
    → ¬ (Matches tx_config lb (desired_type service) (subnet_of service))
    → Cached E (name_of E tx_config service) lb w
    → (ensure_load_balancer_instance E tx_config service w).0 ≡ ok tt
    → let v = (ensure_load_balancer_instance E tx_config service w).1 in
      ((get_load_balancer E tx_config (name_of E tx_config service) service v).0 ≡ ok lb)
      × (ensure_load_balancer_instance E tx_config service v
          ≡ (delete_load_balancer E tx_config service >> create_load_balancer E tx_config service)
              (get_load_balancer E tx_config (name_of E tx_config service) service v).1)
unfolding recreate
ensure_load_balancer_instance_stale E tx_config service lb w U O uid other h ran =
    let name = name_of E tx_config service in
    let (needed, run) =
      ensure_load_balancer_instance-recreate E tx_config service lb U O w uid other h ran in
    let still =
      subst (λ (p : Outcome (Unit {0}) × E.World). Cached E name lb p.1) (sym run)
        (recreated-Cached E tx_config service lb U O _ uid (U.across_get w h)
          (same_outcome (sym run) ∙ ran)) in
    let found = get_load_balancer-Cached E tx_config name lb service _ still in
    (
      same_outcome found,
      recreates E tx_config service lb U O _ uid still needed
          ∙ ap
              (λ (p : Outcome LoadBalancer × E.World).
                (delete_load_balancer E tx_config service
                    >> create_load_balancer E tx_config service)
                  p.1)
              (sym found),
    )
