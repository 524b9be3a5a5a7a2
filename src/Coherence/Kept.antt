-- ===== src/Coherence/Kept.antt =====
-- The first two steps of EnsureLoadBalancer over a coherent cache: it stays coherent, whether the
-- step returns, fails or panics.
use cloud_provider_tencent.Base.{◌≤◌, Bool, true, false, String, length}
use cloud_provider_tencent.Go.Errors.{is_load_balancer_not_found}
use cloud_provider_tencent.Go.Exec.{Result, value, error, attempt}
use cloud_provider_tencent.Go.Exec.Keeps.{
  Keeps, Keeps-pure, Keeps-raise, Keeps-if, Keeps-bind, Keeps-Ensures,
}
use cloud_provider_tencent.Sdk.{LoadBalancer, Service}
use cloud_provider_tencent.Sdk.Env.{Env}
use cloud_provider_tencent.Sdk.Laws.{StoreLaws}
use cloud_provider_tencent.Cache
use cloud_provider_tencent.Cloud.{TxCloudConfig}
use cloud_provider_tencent.LoadBalancer.Lookup.{get_load_balancer_name, get_load_balancer}
use cloud_provider_tencent.LoadBalancer.Instance.{
  create_load_balancer, after_delete, delete_found, delete_load_balancer, recreate, ensure_found,
  ensure_load_balancer_instance,
}
use cloud_provider_tencent.Coherence.{IsCoherent, Ensures-call}
use cloud_provider_tencent.Coherence.Balancers.{
  name-IsSafe, get_load_balancer-IsSafe, wait_api_task_done-IsSafe,
}
use cloud_provider_tencent.Coherence.Methods.{
  IsSafe-attempt, IsSafe-rethrow, create_load_balancer-IsSafe,
}

module _ (E : Env) (L : StoreLaws E) (tx_config : TxCloudConfig) (service : Service)
    (uid : 8 ≤ length service.uid) where
  abbrev Kept : E.World → Type 0
  Kept w = IsCoherent E L tx_config w

  cache_delete-Keeps : (key : String) → Keeps Kept (Cache.delete E key)
  unfolding Cache.delete
  cache_delete-Keeps key = record { at = λ w h. h }

  after_delete-Keeps :
      (name : String) (waited : Result (Unit {0}))
      → Keeps Kept (after_delete E tx_config name waited)
  unfolding after_delete
  after_delete-Keeps name (value _) = Keeps-pure tt
  after_delete-Keeps name (error e) = Keeps-bind _ _ (cache_delete-Keeps _) (λ _. Keeps-raise e)

  delete_found-Keeps :
      (name : String) (found : Result LoadBalancer)
      → Keeps Kept (delete_found E tx_config name found)
  unfolding delete_found
  delete_found-Keeps name (error e) =
      Keeps-if (is_load_balancer_not_found e) _ _ (Keeps-pure tt) (Keeps-raise e)
  delete_found-Keeps name (value lb) =
      Keeps-bind _ _
        (Keeps-Ensures _
          (Ensures-call E L tx_config E.delete_load_balancer _ L.delete_load_balancer_drops))
        (λ id.
          Keeps-bind _ _
            (Keeps-Ensures _
              (IsSafe-attempt E L tx_config _ (wait_api_task_done-IsSafe E L tx_config id)))
            (λ waited. after_delete-Keeps name waited))

  create_load_balancer-Keeps : Keeps Kept (create_load_balancer E tx_config service)
  create_load_balancer-Keeps =
      Keeps-Ensures _ (create_load_balancer-IsSafe E L tx_config service uid)

  search-Keeps : (name : String) → Keeps Kept (attempt (get_load_balancer E tx_config name service))
  search-Keeps name =
      Keeps-Ensures _
        (IsSafe-attempt E L tx_config _ (get_load_balancer-IsSafe E L tx_config name service))

  name-Keeps : Keeps Kept (get_load_balancer_name E tx_config service)
  name-Keeps = Keeps-Ensures _ (name-IsSafe E L tx_config service uid)

  delete_load_balancer-Keeps : Keeps Kept (delete_load_balancer E tx_config service)
  unfolding delete_load_balancer
  delete_load_balancer-Keeps =
      Keeps-bind _ _ name-Keeps
        (λ name. Keeps-bind _ _ (search-Keeps name) (λ found. delete_found-Keeps name found))

  recreate-Keeps : (needed : Bool) → Keeps Kept (recreate E tx_config service needed)
  unfolding recreate
  recreate-Keeps false = Keeps-pure tt
  recreate-Keeps true = Keeps-bind _ _ delete_load_balancer-Keeps (λ _. create_load_balancer-Keeps)

  ensure_found-Keeps :
      (found : Result LoadBalancer) → Keeps Kept (ensure_found E tx_config service found)
  unfolding ensure_found
  ensure_found-Keeps (error e) =
      Keeps-if (is_load_balancer_not_found e) _ _ create_load_balancer-Keeps (Keeps-raise e)
  ensure_found-Keeps (value lb) =
      Keeps-bind _ _ (Keeps-Ensures _ (IsSafe-rethrow E L tx_config _))
        (λ needed. recreate-Keeps needed)

  pub ensure_load_balancer_instance-Keeps :
      Keeps Kept (ensure_load_balancer_instance E tx_config service)
  unfolding ensure_load_balancer_instance
  ensure_load_balancer_instance-Keeps =
      Keeps-bind _ _ name-Keeps
        (λ name. Keeps-bind _ _ (search-Keeps name) (λ found. ensure_found-Keeps found))
