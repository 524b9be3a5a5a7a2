-- ===== src/LoadBalancer/Instance/Created.antt =====
-- pkg/tencentcloud/tencentcloud_loadbalancer.go: ensureLoadBalancerInstance where no balancer is found,
-- and the search that follows.
use cloud_provider_tencent.Base.{
  ◌≡◌, ◌≤◌, ◌∙◌, refl, sym, ap, subst, inr, none, List, [], ◌∷◌, ◌++◌, length,
}
use cloud_provider_tencent.Go.Errors.{load_balancer_not_found, is_load_balancer_not_found}
use cloud_provider_tencent.Go.Exec.{
  Outcome, ok, err, Result, value, error, pure, rethrow, attempt, ◌>>=◌,
}
use cloud_provider_tencent.Go.Exec.Inversion.{bind-ok, same_outcome}
use cloud_provider_tencent.Sdk.{
  LoadBalancer, Service, CreateLoadBalancerRequest, DescribeLoadBalancersRequest, reply,
  load_balancer_value,
}
use cloud_provider_tencent.Sdk.Env.{Env, call}
use cloud_provider_tencent.Cache
use cloud_provider_tencent.Cloud.{TxCloudConfig}
use cloud_provider_tencent.LoadBalancer.Annotations.{desired_type}
use cloud_provider_tencent.LoadBalancer.Lookup.{
  full_name, get_load_balancer_name, get_load_balancer, only_one, cache_name_pre_clb,
}
use cloud_provider_tencent.LoadBalancer.Name.{shorten_ok}
use cloud_provider_tencent.LoadBalancer.Task.{wait_api_task_done}
use cloud_provider_tencent.LoadBalancer.Task.Requests.{outcome_ok}
use cloud_provider_tencent.LoadBalancer.Task.Effects.{Stands, Promised-wait, Stands-state_of}
use cloud_provider_tencent.LoadBalancer.Instance.{
  subnet_of, create_request, create_load_balancer, ensure_found, ensure_load_balancer_instance,
}
use cloud_provider_tencent.LoadBalancer.Instance.Matching.{
  Matches, name_of, ensure_load_balancer_instance_matching,
}
use cloud_provider_tencent.LoadBalancer.Instance.Laws.{BalancerLaws, found_by, NoneFailed}
use cloud_provider_tencent.LoadBalancer.Instance.Requested.{
  search_for, create_request-Selects, create_request-Matches,
}

module _ (E : Env) (tx_config : TxCloudConfig) (L : BalancerLaws E) (service : Service) where
  abbrev pub search : DescribeLoadBalancersRequest
  search = search_for (name_of E tx_config service) service

  -- What a creation adds to the search.
  abbrev WithOne : List LoadBalancer → List LoadBalancer → Type 0
  WithOne before after =
      (lb : LoadBalancer) × Matches tx_config lb (desired_type service) (subnet_of service)
      × (after ≡ before ++ (lb ∷ []))

  -- Unless a task has failed, the search has one balancer more.
  abbrev Added : E.World → E.World → Type 0
  Added w v = Stands E L.tasks search (WithOne (found_by L w search)) v

  request-Added :
      (r : CreateLoadBalancerRequest) (w : E.World)
      → create_request tx_config
          (name_of E tx_config service)
          service
          (desired_type service)
          (subnet_of service)
        ≡ value r
      → ((call (E.create_load_balancer r) >>= wait_api_task_done E) w).0 ≡ ok tt
      → Added w ((call (E.create_load_balancer r) >>= wait_api_task_done E) w).1
  unfolding call
  request-Added r w made ran =
      let (task, started, run) =
        bind-ok (call (E.create_load_balancer r)) (wait_api_task_done E) w tt ran in
      let name = name_of E tx_config service in
      let (lb, for_it, grown) = L.creates r w task search (outcome_ok _ task started) (
        create_request-Selects tx_config name service (desired_type service) (subnet_of service) r
          made) in
      let matches =
        create_request-Matches tx_config name service (desired_type service) (subnet_of service) r
          lb made for_it in
      subst (λ (p : Outcome (Unit {0}) × E.World). Added w p.1) (sym run)
        ((Promised-wait E L.tasks search task (WithOne (found_by L w search))).at _
          (record { at = inr (lb, matches, grown) }) tt (same_outcome (sym run) ∙ ran))

  rethrown-Added :
      (r : Result CreateLoadBalancerRequest) (w : E.World)
      → create_request tx_config
          (name_of E tx_config service)
          service
          (desired_type service)
          (subnet_of service)
        ≡ r
      → ((rethrow r >>= λ q. call (E.create_load_balancer q) >>= wait_api_task_done E) w).0 ≡ ok tt
      → Added w ((rethrow r >>= λ q. call (E.create_load_balancer q) >>= wait_api_task_done E) w).1
  unfolding rethrow ◌>>=◌
  rethrown-Added (value r) w made ran = request-Added r w made ran
  rethrown-Added (error e) w made ran = absurd (cc)

  create_load_balancer-Added :
      (w : E.World)
      → 8 ≤ length service.uid
      → (create_load_balancer E tx_config service w).0 ≡ ok tt
      → Added w (create_load_balancer E tx_config service w).1
  unfolding create_load_balancer get_load_balancer_name ◌>>=◌
  create_load_balancer-Added w uid =
      rw (shorten_ok (full_name tx_config service) service.uid w uid) (
        rethrown-Added
          (create_request tx_config (name_of E tx_config service) service (desired_type service)
            (subnet_of service))
          w refl)

  -- The method, where the search fails to find a balancer.
  ensure_load_balancer_instance_missing :
      (w w1 : E.World)
      → 8 ≤ length service.uid
      → get_load_balancer E tx_config (name_of E tx_config service) service w
        ≡ (err load_balancer_not_found, w1)
      → ensure_load_balancer_instance E tx_config service w
        ≡ create_load_balancer E tx_config service w1
  unfolding ensure_load_balancer_instance ensure_found is_load_balancer_not_found
      get_load_balancer_name attempt ◌>>=◌
  ensure_load_balancer_instance_missing w w1 uid missing =
      rw (shorten_ok (full_name tx_config service) service.uid w uid) (rw missing refl)

  -- The world after a search that the cache cannot answer and that finds one balancer.
  abbrev pub after_search : LoadBalancer → E.World → E.World
  after_search lb w =
      let key = cache_name_pre_clb ++ name_of E tx_config service in
      (E.store_add (record { key = key; value = load_balancer_value lb })
        (E.describe_load_balancers search (E.store_get_by_key key w).1).1).1

  searched_once :
      (w : E.World) (lb : LoadBalancer)
      → (E.store_get_by_key (cache_name_pre_clb ++ name_of E tx_config service) w).0 ≡ reply none
      → (E.describe_load_balancers search
          (E.store_get_by_key (cache_name_pre_clb ++ name_of E tx_config service) w).1).0
        ≡ reply (lb ∷ [])
      → get_load_balancer E tx_config (name_of E tx_config service) service w
        ≡ (ok lb, after_search lb w)
  unfolding get_load_balancer Cache.get Cache.set only_one call pure ◌>>=◌
  searched_once w lb missed told = rw missed (rw told refl)

-- For a service of Tencent Cloud where accepted creations of balancers take effect once their task
-- succeeds and DescribeLoadBalancers tells what there is, and a service whose uid has eight bytes:
-- if getLoadBalancer finds no balancer because there is none, and ensureLoadBalancerInstance
-- returns with no error and no task answered that it failed, then the next search that the cache
-- does not answer, and that DescribeLoadBalancers does, finds a balancer that matches the service,
-- and another run of ensureLoadBalancerInstance makes this search and nothing else.
pub ensure_load_balancer_instance_created :
    (E : Env) (tx_config : TxCloudConfig) (L : BalancerLaws E) (service : Service)
    (w w1 v : E.World) (set : List LoadBalancer)
    → 8 ≤ length service.uid
    → get_load_balancer E tx_config (name_of E tx_config service) service w
      ≡ (err load_balancer_not_found, w1)
    → found_by L w1 (search E tx_config L service) ≡ []
    → ensure_load_balancer_instance E tx_config service w ≡ (ok tt, v)
    → NoneFailed L v
    → (E.store_get_by_key (cache_name_pre_clb ++ name_of E tx_config service) v).0 ≡ reply none
    → (E.describe_load_balancers
        (search E tx_config L service)
        (E.store_get_by_key (cache_name_pre_clb ++ name_of E tx_config service) v).1).0
      ≡ reply set
    → (lb : LoadBalancer) × Matches tx_config lb (desired_type service) (subnet_of service)
      × (get_load_balancer E tx_config (name_of E tx_config service) service v
          ≡ (ok lb, after_search E tx_config L service lb v))
      × (ensure_load_balancer_instance E tx_config service v
          ≡ (ok tt, after_search E tx_config L service lb v))
ensure_load_balancer_instance_created E tx_config L service w w1 v set uid missing nowhere ran
      none_failed missed answered =
    let run = ensure_load_balancer_instance_missing E tx_config L service w w1 uid missing in
    let (lb, matches, added) =
      Stands-state_of E L.tasks (search E tx_config L service)
        (WithOne E tx_config L service (found_by L w1 (search E tx_config L service))) v
        (subst (λ (p : Outcome (Unit {0}) × E.World). Added E tx_config L service w1 p.1)
          (sym run ∙ ran)
          (create_load_balancer-Added E tx_config L service w1 uid (same_outcome (sym run ∙ ran))))
        none_failed in
    let only : set ≡ lb ∷ [] =
      L.told (search E tx_config L service) _ set answered
      ∙ L.store_get_by_key_all _ v (search E tx_config L service)
      ∙ added
      ∙ ap (λ xs. xs ++ (lb ∷ [])) nowhere in
    let found =
      searched_once E tx_config L service v lb missed (answered ∙ ap (λ xs. reply xs) only) in
    (
      lb,
      matches,
      found,
      ensure_load_balancer_instance_matching E tx_config service v
          (after_search E tx_config L service lb v) lb uid found matches,
    )
