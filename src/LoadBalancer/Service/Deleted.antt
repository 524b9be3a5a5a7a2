-- ===== src/LoadBalancer/Service/Deleted.antt =====
-- pkg/tencentcloud/loadbalancer.go: EnsureLoadBalancerDeleted, followed to the balancers of the
-- service.
use cloud_provider_tencent.Base.{
  ◌≡◌, ◌≤◌, ◌∙◌, refl, sym, ap, subst, inr, List, not, [], ◌∷◌, ◌++◌, String, length, string_eq,
  ◌==◌, keep,
}
use cloud_provider_tencent.Go.Exec.{
  Outcome, ok, err, panic, value, attempt, returned, continue, raise, ◌>>=◌,
}
use cloud_provider_tencent.Go.Exec.Inversion.{bind-ok, same_outcome}
use cloud_provider_tencent.Go.Errors.{Error}
use cloud_provider_tencent.Sdk.{LoadBalancer, Service, DescribeLoadBalancersRequest, reply}
use cloud_provider_tencent.Sdk.Env.{Env, call}
use cloud_provider_tencent.Cache
use cloud_provider_tencent.Cloud.{TxCloudConfig}
use cloud_provider_tencent.LoadBalancer.Lookup.{
  cache_name_pre_clb, full_name, get_load_balancer_name, get_load_balancer,
}
use cloud_provider_tencent.LoadBalancer.Lookup.Again.{Lasts, get_load_balancer_again}
use cloud_provider_tencent.LoadBalancer.Name.{shorten_ok}
use cloud_provider_tencent.LoadBalancer.Task.{wait_api_task_done}
use cloud_provider_tencent.LoadBalancer.Task.Requests.{outcome_ok}
use cloud_provider_tencent.LoadBalancer.Task.Effects.{
  Stands, Promised, Promised-wait, Stands-state_of,
}
use cloud_provider_tencent.LoadBalancer.Instance.{after_delete, delete_found, delete_load_balancer}
use cloud_provider_tencent.LoadBalancer.Instance.Matching.{name_of}
use cloud_provider_tencent.LoadBalancer.Instance.Laws.{
  BalancerLaws, DeletionLaws, found_by, NoneFailed,
}
use cloud_provider_tencent.LoadBalancer.Service.{
  delete_unless_missing, ensure_load_balancer_deleted,
}

module _ (E : Env) (tx_config : TxCloudConfig) (service : Service) where
  abbrev key : String
  key = cache_name_pre_clb ++ name_of E tx_config service

  -- The two searches of a run whose entry does not expire, and what follows them.
  ensure_load_balancer_deleted_found :
      (lb : LoadBalancer) (w w1 : E.World)
      → 8 ≤ length service.uid
      → Lasts E key
      → get_load_balancer E tx_config (name_of E tx_config service) service w ≡ (ok lb, w1)
      → ensure_load_balancer_deleted E tx_config service w
        ≡ delete_found E tx_config
            (name_of E tx_config service)
            (value lb)
            (E.store_get_by_key key w1).1
  unfolding ensure_load_balancer_deleted delete_unless_missing delete_load_balancer
      get_load_balancer_name attempt ◌>>=◌
  ensure_load_balancer_deleted_found lb w w1 uid K found =
      rw (shorten_ok (full_name tx_config service) service.uid w uid) (
        rw found (
          rw (shorten_ok (full_name tx_config service) service.uid w1 uid) (
            rw
              (get_load_balancer_again E tx_config (name_of E tx_config service) service service lb
                w w1 K found)
              refl)))

  -- After a wait that failed the deletion fails too.
  after_delete-ok :
      (name : String) (r : Outcome (Unit {0})) (w : E.World)
      → (continue (returned r w).0 (after_delete E tx_config name) (returned r w).1).0 ≡ ok tt
      → (r ≡ ok tt)
        × ((continue (returned r w).0 (after_delete E tx_config name) (returned r w).1).1 ≡ w)
  unfolding after_delete Cache.delete raise ◌>>=◌
  after_delete-ok name (ok tt) w k = (refl, refl)
  after_delete-ok name (err e) w k = absurd (cc)
  after_delete-ok name panic w k = absurd (cc)

  module _ (L : BalancerLaws E) (D : DeletionLaws E L) where
    abbrev Less : LoadBalancer → List LoadBalancer → List LoadBalancer → Type 0
    Less lb before after =
        after ≡ keep (λ b. not (b.load_balancer_id == lb.load_balancer_id)) before

    -- Unless a task has failed, the search is without the balancer.
    abbrev Without : LoadBalancer → DescribeLoadBalancersRequest → E.World → E.World → Type 0
    Without lb q w v = Stands E L.tasks q (Less lb (found_by L w q)) v

    waited-Without :
        (name task : String) (lb : LoadBalancer) (q : DescribeLoadBalancersRequest) (w v : E.World)
        → Promised E L.tasks q task (Less lb (found_by L w q)) v
        → ((attempt (wait_api_task_done E task) >>= after_delete E tx_config name) v).0 ≡ ok tt
        → Without lb q w
            ((attempt (wait_api_task_done E task) >>= after_delete E tx_config name) v).1
    unfolding attempt ◌>>=◌
    waited-Without name task lb q w v h k =
        let (done, same) = after_delete-ok name (wait_api_task_done E task v).0 _ k in
        subst (Without lb q w) (sym same)
          ((Promised-wait E L.tasks q task (Less lb (found_by L w q))).at v h tt done)

    delete_found-Without :
        (name : String) (lb : LoadBalancer) (q : DescribeLoadBalancersRequest) (w : E.World)
        → (delete_found E tx_config name (value lb) w).0 ≡ ok tt
        → Without lb q w (delete_found E tx_config name (value lb) w).1
    unfolding delete_found call
    delete_found-Without name lb q w ran =
        let (task, started, run) =
          bind-ok (call (E.delete_load_balancer (lb.load_balancer_id ∷ [])))
            (λ id. attempt (wait_api_task_done E id) >>= after_delete E tx_config name) w tt ran in
        subst (λ (p : Outcome (Unit {0}) × E.World). Without lb q w p.1) (sym run)
          (waited-Without name task lb q w _
            (record {
              at = inr (D.deletes lb.load_balancer_id w task q (outcome_ok _ task started));
            })
            (same_outcome (sym run) ∙ ran))

-- For a service of Tencent Cloud where accepted deletions of balancers take effect once their task
-- succeeds, a service whose uid has eight bytes and a cache whose entry for the balancer does not
-- expire meanwhile: if the search of EnsureLoadBalancerDeleted finds a balancer and
-- EnsureLoadBalancerDeleted returns with no error and no task answered that it failed, then every
-- search has the balancers that it had after that first search, less the one with the id of the
-- balancer found.
pub ensure_load_balancer_deleted-found_by :
    (E : Env) (tx_config : TxCloudConfig) (L : BalancerLaws E) (D : DeletionLaws E L)
    (service : Service) (lb : LoadBalancer) (w w1 : E.World) (q : DescribeLoadBalancersRequest)
    → 8 ≤ length service.uid
    → Lasts E (cache_name_pre_clb ++ name_of E tx_config service)
    → get_load_balancer E tx_config (name_of E tx_config service) service w ≡ (ok lb, w1)
    → (ensure_load_balancer_deleted E tx_config service w).0 ≡ ok tt
    → NoneFailed L (ensure_load_balancer_deleted E tx_config service w).1
    → found_by L (ensure_load_balancer_deleted E tx_config service w).1 q
      ≡ keep (λ b. not (b.load_balancer_id == lb.load_balancer_id)) (found_by L w1 q)
ensure_load_balancer_deleted-found_by E tx_config L D service lb w w1 q uid K found ran
      none_failed =
    let run = ensure_load_balancer_deleted_found E tx_config service lb w w1 uid K found in
    let w2 = (E.store_get_by_key (cache_name_pre_clb ++ name_of E tx_config service) w1).1 in
    let left =
      delete_found-Without E tx_config service L D (name_of E tx_config service) lb q w2
        (same_outcome (sym run) ∙ ran) in
    Stands-state_of E L.tasks q (Less E tx_config service L D lb (found_by L w2 q)) _
      (subst (λ (p : Outcome (Unit {0}) × E.World). Without E tx_config service L D lb q w2 p.1)
        (sym run) left)
      none_failed
    ∙ ap (keep (λ b. not (b.load_balancer_id == lb.load_balancer_id)))
        (L.store_get_by_key_all _ w1 q)

module _ (E : Env) (tx_config : TxCloudConfig) where
  delete_found_panics :
      (name task : String) (lb : LoadBalancer) (e : Error) (w : E.World)
      → (E.delete_load_balancer (lb.load_balancer_id ∷ []) w).0 ≡ reply task
      → (wait_api_task_done E task (E.delete_load_balancer (lb.load_balancer_id ∷ []) w).1).0
        ≡ err e
      → (delete_found E tx_config name (value lb) w).0 ≡ panic
  unfolding delete_found after_delete attempt call Cache.delete ◌>>=◌
  delete_found_panics name task lb e w accepted failed = rw accepted (rw failed refl)

-- For a service whose uid has eight bytes and a cache whose entry for the balancer does not expire
-- meanwhile: if the search of EnsureLoadBalancerDeleted finds a balancer, its deletion is accepted
-- and the wait for the task ends with an error, then EnsureLoadBalancerDeleted does not return this
-- error: it panics, where it tells the cache to forget the balancer.
pub ensure_load_balancer_deleted_panics :
    (E : Env) (tx_config : TxCloudConfig) (service : Service) (lb : LoadBalancer) (task : String)
    (e : Error) (w w1 : E.World)
    → 8 ≤ length service.uid
    → Lasts E (cache_name_pre_clb ++ name_of E tx_config service)
    → get_load_balancer E tx_config (name_of E tx_config service) service w ≡ (ok lb, w1)
    → let w2 = (E.store_get_by_key (cache_name_pre_clb ++ name_of E tx_config service) w1).1 in
      let ids = lb.load_balancer_id ∷ [] in
      (E.delete_load_balancer ids w2).0 ≡ reply task
      → (wait_api_task_done E task (E.delete_load_balancer ids w2).1).0 ≡ err e
      → (ensure_load_balancer_deleted E tx_config service w).0 ≡ panic
ensure_load_balancer_deleted_panics E tx_config service lb task e w w1 uid K found accepted failed =
    same_outcome (ensure_load_balancer_deleted_found E tx_config service lb w w1 uid K found)
    ∙ delete_found_panics E tx_config (name_of E tx_config service) task lb e _ accepted failed
