-- ===== src/LoadBalancer/Instance.antt =====
-- pkg/tencentcloud/tencentcloud_loadbalancer.go: creating, deleting and replacing a balancer.
pub mod Stale
pub mod Matching
pub mod Laws
pub mod Requested
pub mod Created
pub mod Recreated
use cloud_provider_tencent.Base.{
  Bool, true, false, not, ◌&&◌, Option, none, some, [], ◌∷◌, ◌++◌, String, string_eq, ◌==◌, get,
  if◌then◌else◌,
}
use cloud_provider_tencent.Go.Strings.{bytes}
use cloud_provider_tencent.Go.Errors.{Error, new, is_load_balancer_not_found}
use cloud_provider_tencent.Go.Exec.{
  Exec, Result, value, error, pure, raise, rethrow, attempt, ◌>>=◌, ◌>>◌,
}
use cloud_provider_tencent.Sdk.{LoadBalancer, Service, CreateLoadBalancerRequest}
use cloud_provider_tencent.Sdk.Env.{Env, call}
use cloud_provider_tencent.Cache
use cloud_provider_tencent.Cloud.{TxCloudConfig}
use cloud_provider_tencent.LoadBalancer.Annotations.{
  DesiredType, public, private, desired_type, get_lb_tags, clb_load_balancer_type_public,
  clb_load_balancer_type_private, service_annotation_load_balancer_type_internal_subnet_id,
}
use cloud_provider_tencent.LoadBalancer.Lookup.{
  get_load_balancer_name, get_load_balancer, cache_name_pre_clb,
}
use cloud_provider_tencent.LoadBalancer.Task.{wait_api_task_done}

abbrev pub subnet_required : Error
subnet_required = new (bytes "subnet must be specified for private loadBalancer")

abbrev pub subnet_of : Service → Option String
subnet_of service = get service_annotation_load_balancer_type_internal_subnet_id service.annotations

-- The request of createLoadBalancer, which fails for a private balancer with no subnet.
unfoldable pub create_request :
    TxCloudConfig
    → String
    → Service
    → DesiredType
    → Option String
    → Result CreateLoadBalancerRequest
create_request tx_config name service public subnet = value (record {
  load_balancer_type = clb_load_balancer_type_public;
  load_balancer_name = name;
  vpc_id = tx_config.vpc_id;
  subnet_id = none;
  tags = get_lb_tags tx_config service;
  load_balancer_pass_to_target = true;
})
create_request tx_config name service private none = error subnet_required
create_request tx_config name service private (some subnet) = value (record {
  load_balancer_type = clb_load_balancer_type_private;
  load_balancer_name = name;
  vpc_id = tx_config.vpc_id;
  subnet_id = some subnet;
  tags = get_lb_tags tx_config service;
  load_balancer_pass_to_target = true;
})

-- Whether the balancer found differs from the one wanted in kind, VPC or subnet (needRecreate).
unfoldable pub need_recreate :
    TxCloudConfig → LoadBalancer → DesiredType → Option String → Result Bool
need_recreate tx_config lb public subnet =
    value (
      not (lb.load_balancer_type == clb_load_balancer_type_public && lb.vpc_id == tx_config.vpc_id))
need_recreate tx_config lb private none = error subnet_required
need_recreate tx_config lb private (some subnet) = value (
    not (
      lb.load_balancer_type == clb_load_balancer_type_private
      && (lb.vpc_id == tx_config.vpc_id && lb.subnet_id == subnet)))

module _ (E : Env) (tx_config : TxCloudConfig) where
  -- createLoadBalancer
  unfoldable pub create_load_balancer : Service → Exec E.World (Unit {0})
  create_load_balancer service = do
    name ← get_load_balancer_name E tx_config service
    request ←
        rethrow (create_request tx_config name service (desired_type service) (subnet_of service))
    request_id ← call (E.create_load_balancer request)
    wait_api_task_done E request_id

  -- The cache is to be cleaned where the wait failed, and there alone.
  unfoldable pub after_delete : String → Result (Unit {0}) → Exec E.World (Unit {0})
  after_delete name (value _) = pure tt
  after_delete name (error e) = do Cache.delete E (cache_name_pre_clb ++ name); raise e

  unfoldable pub delete_found : String → Result LoadBalancer → Exec E.World (Unit {0})
  delete_found name (error e) = if is_load_balancer_not_found e then pure tt else raise e
  delete_found name (value lb) = do
    request_id ← call (E.delete_load_balancer (lb.load_balancer_id ∷ []))
    waited ← attempt (wait_api_task_done E request_id)
    after_delete name waited

  -- deleteLoadBalancer
  unfoldable pub delete_load_balancer : Service → Exec E.World (Unit {0})
  delete_load_balancer service = do
    name ← get_load_balancer_name E tx_config service
    found ← attempt (get_load_balancer E tx_config name service)
    delete_found name found

  unfoldable pub recreate : Service → Bool → Exec E.World (Unit {0})
  recreate service false = pure tt
  recreate service true = do delete_load_balancer service; create_load_balancer service

  unfoldable pub ensure_found : Service → Result LoadBalancer → Exec E.World (Unit {0})
  ensure_found service (error e) =
      if is_load_balancer_not_found e then create_load_balancer service else raise e
  ensure_found service (value lb) = do
    needed ← rethrow (need_recreate tx_config lb (desired_type service) (subnet_of service))
    recreate service needed

  -- ensureLoadBalancerInstance. The default case of its switch cannot be reached.
  unfoldable pub ensure_load_balancer_instance : Service → Exec E.World (Unit {0})
  ensure_load_balancer_instance service = do
    name ← get_load_balancer_name E tx_config service
    found ← attempt (get_load_balancer E tx_config name service)
    ensure_found service found
