-- ===== src/Coherence/Provider.antt =====
-- The methods of cloudProvider.LoadBalancer and cloudProvider.Instances, over a coherent cache.
use cloud_provider_tencent.Base.{◌≤◌, not, List, String, string_eq, ◌==◌, length}
use cloud_provider_tencent.Go.Errors.{is_load_balancer_not_found}
use cloud_provider_tencent.Go.Exec.{Result, value, error, pure, attempt, ◌>>=◌}
use cloud_provider_tencent.Go.Exec.Ensures.{
  Ensures-pure, Ensures-raise, Ensures-if, Ensures-bind, Ensures-weaken,
}
use cloud_provider_tencent.Sdk.{LoadBalancer, Service, Node, Instance}
use cloud_provider_tencent.Sdk.Env.{Env}
use cloud_provider_tencent.Sdk.Laws.{StoreLaws}
use cloud_provider_tencent.Cloud.{TxCloudConfig}
use cloud_provider_tencent.Instances.Api.{
  node_addresses, node_addresses_by_provider_id, external_id, instance_id, instance_type,
  instance_type_by_provider_id, instance_exists_by_provider_id, instance_shutdown_by_provider_id,
}
use cloud_provider_tencent.Instances.Lookup.{
  get_instance_by_instance_private_ip, get_instance_by_provider_id,
}
use cloud_provider_tencent.LoadBalancer.Service.{
  service_affinity_none, status_of_found, get_load_balancer_status, ensure_parts,
  ensure_load_balancer, update_load_balancer, delete_unless_missing, ensure_load_balancer_deleted,
}
use cloud_provider_tencent.Coherence.Single.{
  get_instance_by_instance_private_ip-Ensures, get_instance_by_provider_id-Ensures,
}
use cloud_provider_tencent.Coherence.Balancers.{IsSafe, name-IsSafe, get_load_balancer-IsSafe}
use cloud_provider_tencent.Coherence.Methods.{
  DeletionsSettle, IsSafe-bind, IsSafe-attempt, found_by_name-IsSafe, delete_load_balancer-IsSafe,
  instance-IsSafe, listeners-IsSafe, backends-IsSafe,
}

module _ (E : Env) (L : StoreLaws E) (tx_config : TxCloudConfig) where
  module _ (service : Service) (uid : 8 ≤ length service.uid) where
    status_of_found-IsSafe :
        (found : Result LoadBalancer) → IsSafe E L tx_config (status_of_found E tx_config found)
    unfolding status_of_found
    status_of_found-IsSafe (value lb) = Ensures-pure _ tt
    status_of_found-IsSafe (error e) =
        Ensures-if (is_load_balancer_not_found e) _ _ (λ _. Ensures-pure _ tt)
          (λ _. Ensures-raise e)

  module _ (D : DeletionsSettle E) (service : Service) (uid : 8 ≤ length service.uid) where
    delete_unless_missing-IsSafe :
        (found : Result LoadBalancer)
        → IsSafe E L tx_config (delete_unless_missing E tx_config service found)
    unfolding delete_unless_missing
    delete_unless_missing-IsSafe (value _) = delete_load_balancer-IsSafe E L tx_config D service uid
    delete_unless_missing-IsSafe (error e) =
        Ensures-if (is_load_balancer_not_found e) _ _ (λ _. Ensures-pure tt tt)
          (λ _. delete_load_balancer-IsSafe E L tx_config D service uid)

    ensure_parts-IsSafe :
        (nodes : List Node) → IsSafe E L tx_config (ensure_parts E tx_config service nodes)
    unfolding ensure_parts
    ensure_parts-IsSafe nodes =
        IsSafe-bind E L tx_config _ _ (instance-IsSafe E L tx_config D service uid) (λ _.
          IsSafe-bind E L tx_config _ _ (listeners-IsSafe E L tx_config service uid) (λ _.
            IsSafe-bind E L tx_config _ _ (backends-IsSafe E L tx_config service uid nodes) (λ _.
              IsSafe-bind E L tx_config _ _ (name-IsSafe E L tx_config service uid) (λ name.
                IsSafe-bind E L tx_config _ _ (get_load_balancer-IsSafe E L tx_config name service)
                  (λ lb. Ensures-pure _ tt)))))

    ensure_load_balancer-IsSafe :
        (nodes : List Node) → IsSafe E L tx_config (ensure_load_balancer E tx_config service nodes)
    unfolding ensure_load_balancer
    ensure_load_balancer-IsSafe nodes =
        Ensures-if (not (service.session_affinity == service_affinity_none)) _ _
          (λ _. Ensures-raise _) (λ _. ensure_parts-IsSafe nodes)

  -- From a coherent cache, and for a service whose uid has at least eight bytes, none of
  -- GetLoadBalancer, EnsureLoadBalancer, UpdateLoadBalancer and EnsureLoadBalancerDeleted panics,
  -- and each of them leaves the cache coherent, where the wait for an accepted deletion of a
  -- balancer ends with no error.
  pub load_balancer_methods-IsSafe :
      (D : DeletionsSettle E) (service : Service) (nodes : List Node)
      → 8 ≤ length service.uid
      → IsSafe E L tx_config (get_load_balancer_status E tx_config service)
        × IsSafe E L tx_config (ensure_load_balancer E tx_config service nodes)
        × IsSafe E L tx_config (update_load_balancer E tx_config service nodes)
        × IsSafe E L tx_config (ensure_load_balancer_deleted E tx_config service)
  unfolding get_load_balancer_status update_load_balancer ensure_load_balancer_deleted
  load_balancer_methods-IsSafe D service nodes uid = (
    found_by_name-IsSafe E L tx_config service uid (λ _. status_of_found E tx_config)
        (λ _. status_of_found-IsSafe service uid),
    ensure_load_balancer-IsSafe D service uid nodes,
    backends-IsSafe E L tx_config service uid nodes,
    found_by_name-IsSafe E L tx_config service uid (λ _. delete_unless_missing E tx_config service)
        (λ _. delete_unless_missing-IsSafe D service uid),
  )

  by_ip-IsSafe :
      {A : Type 0} (name : String) (f : Instance → A)
      → IsSafe E L tx_config
          (get_instance_by_instance_private_ip E tx_config name >>= λ i. pure (f i))
  by_ip-IsSafe name f =
      Ensures-bind _ _ (get_instance_by_instance_private_ip-Ensures E L tx_config name)
        (λ i _. Ensures-pure (f i) tt)

  by_provider_id-IsSafe :
      {A : Type 0} (id : String) (f : Instance → A)
      → IsSafe E L tx_config (get_instance_by_provider_id E tx_config id >>= λ i. pure (f i))
  by_provider_id-IsSafe id f =
      Ensures-bind _ _ (get_instance_by_provider_id-Ensures E L tx_config id)
        (λ i _. Ensures-pure (f i) tt)

  tried_by_provider_id-IsSafe :
      {A : Type 0} (id : String) (f : Result Instance → A)
      → IsSafe E L tx_config
          (attempt (get_instance_by_provider_id E tx_config id) >>= λ r. pure (f r))
  tried_by_provider_id-IsSafe id f =
      IsSafe-bind E L tx_config _ _
        (IsSafe-attempt E L tx_config _
          (Ensures-weaken _ (λ _ _. tt) (get_instance_by_provider_id-Ensures E L tx_config id)))
        (λ r. Ensures-pure (f r) tt)

  -- From a coherent cache, none of NodeAddresses, ExternalID, InstanceID and InstanceType and of the
  -- methods by provider id panics, and each of them leaves the cache coherent.
  pub instances_methods-IsSafe :
      (name provider_id : String)
      → IsSafe E L tx_config (node_addresses E tx_config name)
        × IsSafe E L tx_config (external_id E tx_config name)
        × IsSafe E L tx_config (instance_id E tx_config name)
        × IsSafe E L tx_config (instance_type E tx_config name)
        × IsSafe E L tx_config (node_addresses_by_provider_id E tx_config provider_id)
        × IsSafe E L tx_config (instance_type_by_provider_id E tx_config provider_id)
        × IsSafe E L tx_config (instance_exists_by_provider_id E tx_config provider_id)
        × IsSafe E L tx_config (instance_shutdown_by_provider_id E tx_config provider_id)
  unfolding node_addresses external_id instance_id instance_type node_addresses_by_provider_id
      instance_type_by_provider_id instance_exists_by_provider_id instance_shutdown_by_provider_id
  instances_methods-IsSafe name provider_id = (
    by_ip-IsSafe name _,
    by_ip-IsSafe name _,
    by_ip-IsSafe name _,
    by_ip-IsSafe name _,
    by_provider_id-IsSafe provider_id _,
    by_provider_id-IsSafe provider_id _,
    tried_by_provider_id-IsSafe provider_id _,
    tried_by_provider_id-IsSafe provider_id _,
  )
