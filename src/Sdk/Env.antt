-- ===== src/Sdk/Env.antt =====
-- The calls that the program makes, over a world that it cannot see into. Time, the service and
-- the entries of the store are in the world, so every call may change it.
use cloud_provider_tencent.Base.{List, Option, String, ℤ}
use cloud_provider_tencent.Go.Errors.{Error}
use cloud_provider_tencent.Go.Exec.{Exec, Outcome, ok, err}
use cloud_provider_tencent.Sdk.{
  Instance, Filter, LoadBalancer, Listener, ListenerBackend, DescribeLoadBalancersRequest,
  CreateLoadBalancerRequest, CreateListenerRequest, DeleteListenerRequest, TargetsRequest,
  RouteInfo, ClusterRouteRequest, CacheValue, Answer, reply, fail,
}

-- cache.TencentCloudCacheEntry of pkg/cache/cache.go
pub record TencentCloudCacheEntry : Type 0 where
  pub key : String
  pub value : CacheValue

pub record Env : Type 1 where
  pub World : Type 0
  -- cvm
  pub describe_instances : List Filter → World → Answer (List Instance) × World
  -- clb; a call that starts a task answers with its request id
  pub describe_load_balancers :
      DescribeLoadBalancersRequest → World → Answer (List LoadBalancer) × World
  pub create_load_balancer : CreateLoadBalancerRequest → World → Answer String × World
  pub delete_load_balancer : List String → World → Answer String × World
  pub describe_listeners : String → World → Answer (List Listener) × World
  pub create_listener : CreateListenerRequest → World → Answer String × World
  pub delete_listener : DeleteListenerRequest → World → Answer String × World
  pub describe_targets : String → World → Answer (List ListenerBackend) × World
  pub register_targets : TargetsRequest → World → Answer String × World
  pub deregister_targets : TargetsRequest → World → Answer String × World
  pub describe_task_status : String → World → Answer ℤ × World
  -- tke
  pub describe_cluster_routes : String → World → Answer (List RouteInfo) × World
  pub create_cluster_route : ClusterRouteRequest → World → Answer (Unit {0}) × World
  pub delete_cluster_route : ClusterRouteRequest → World → Answer (Unit {0}) × World
  -- the store of client-go; GetByKey answers with an item if there is a live one
  pub store_add : TencentCloudCacheEntry → World → Answer (Unit {0}) × World
  pub store_get_by_key : String → World → Answer (Option TencentCloudCacheEntry) × World
  pub store_delete : String → World → Answer (Unit {0}) × World
  -- time.Sleep of one second
  pub sleep : World → World

abbrev pub outcome : {A : Type 0} → Answer A → Outcome A
outcome (reply a) = ok a
outcome (fail e) = err (Error.api e)

module _ {W A : Type 0} where
  -- `response, err := client.Call(request)`, with the error handed to the caller.
  unfoldable pub call : (W → Answer A × W) → Exec W A
  call c w = let (r, w') = c w in (outcome r, w')
