-- ===== src/LoadBalancer/Service.antt =====
-- pkg/tencentcloud/loadbalancer.go: the methods of cloudProvider.LoadBalancer.
pub mod Footprint
pub mod Ensured
pub mod Targets
pub mod Deleted
pub mod Updated
pub mod Answered
use cloud_provider_tencent.Base.{
  not, Option, none, some, List, String, string_eq, ◌==◌, if◌then◌else◌,
}
use cloud_provider_tencent.Go.Strings.{bytes}
use cloud_provider_tencent.Go.Errors.{Error, new, is_load_balancer_not_found}
use cloud_provider_tencent.Go.Exec.{Exec, Result, value, error, pure, raise, attempt, ◌>>=◌, ◌>>◌}
use cloud_provider_tencent.Sdk.{LoadBalancer, Service, Node}
use cloud_provider_tencent.Sdk.Env.{Env}
use cloud_provider_tencent.Cloud.{TxCloudConfig}
use cloud_provider_tencent.LoadBalancer.Lookup.{get_load_balancer_name, get_load_balancer}
use cloud_provider_tencent.LoadBalancer.Instance.{
  ensure_load_balancer_instance, delete_load_balancer,
}
use cloud_provider_tencent.LoadBalancer.Listeners.{ensure_load_balancer_listeners}
use cloud_provider_tencent.LoadBalancer.Backends.{ensure_load_balancer_backends}

-- v1.LoadBalancerStatus: the address of each ingress
abbrev pub LoadBalancerStatus : Type 0
LoadBalancerStatus = List String

unfoldable pub status_of : LoadBalancer → LoadBalancerStatus
status_of lb = lb.load_balancer_vips

-- v1.ServiceAffinityNone
abbrev pub service_affinity_none : String
service_affinity_none = bytes "None"

abbrev pub affinity_unsupported : Error
affinity_unsupported = new (bytes "SessionAffinity is not supported currently")

module _ (E : Env) (tx_config : TxCloudConfig) where
  -- What GetLoadBalancer makes of the search: no status is `exists == false`.
  unfoldable pub status_of_found : Result LoadBalancer → Exec E.World (Option LoadBalancerStatus)
  status_of_found (error e) = if is_load_balancer_not_found e then pure none else raise e
  status_of_found (value lb) = pure (some (status_of lb))

  -- GetLoadBalancer
  unfoldable pub get_load_balancer_status : Service → Exec E.World (Option LoadBalancerStatus)
  get_load_balancer_status service = do
    name ← get_load_balancer_name E tx_config service
    found ← attempt (get_load_balancer E tx_config name service)
    status_of_found found

  -- GetLoadBalancerName
  unfoldable pub load_balancer_name : Service → Exec E.World String
  load_balancer_name service = get_load_balancer_name E tx_config service

  -- EnsureLoadBalancer, once the affinity is accepted
  unfoldable pub ensure_parts : Service → List Node → Exec E.World LoadBalancerStatus
  ensure_parts service nodes = do
    ensure_load_balancer_instance E tx_config service
    ensure_load_balancer_listeners E tx_config service
    ensure_load_balancer_backends E tx_config service nodes
    name ← get_load_balancer_name E tx_config service
    lb ← get_load_balancer E tx_config name service
    pure (status_of lb)

  -- EnsureLoadBalancer
  unfoldable pub ensure_load_balancer : Service → List Node → Exec E.World LoadBalancerStatus
  ensure_load_balancer service nodes =
      if not (service.session_affinity == service_affinity_none)
      then raise affinity_unsupported
      else ensure_parts service nodes

  -- UpdateLoadBalancer
  unfoldable pub update_load_balancer : Service → List Node → Exec E.World (Unit {0})
  update_load_balancer service nodes = ensure_load_balancer_backends E tx_config service nodes

  -- EnsureLoadBalancerDeleted goes on to delete on any other error too.
  unfoldable pub delete_unless_missing : Service → Result LoadBalancer → Exec E.World (Unit {0})
  delete_unless_missing service (value _) = delete_load_balancer E tx_config service
  delete_unless_missing service (error e) =
      if is_load_balancer_not_found e then pure tt else delete_load_balancer E tx_config service

  -- EnsureLoadBalancerDeleted
  unfoldable pub ensure_load_balancer_deleted : Service → Exec E.World (Unit {0})
  ensure_load_balancer_deleted service = do
    name ← get_load_balancer_name E tx_config service
    found ← attempt (get_load_balancer E tx_config name service)
    delete_unless_missing service found
