-- ===== src/LoadBalancer/Service/Footprint.antt =====
-- pkg/tencentcloud/loadbalancer.go: the calls that UpdateLoadBalancer makes, and those that it does
-- not make.
use cloud_provider_tencent.Base.{none, some, List, [], ◌∷◌, String, Option, not, ◌==◌, string_eq}
use cloud_provider_tencent.Go.Exec.{◌>>=◌}
use cloud_provider_tencent.Go.Exec.Keeps.{
  Keeps, Keeps-pure, Keeps-raise, Keeps-panics, Keeps-if, Keeps-Ensures, Keeps-bind, Keeps-for_each,
  Keeps-batch_loop,
}
use cloud_provider_tencent.Sdk.{
  Instance, Service, ServicePort, Node, Target, CacheValue, instance_value, load_balancer_value,
  listeners_value, Answer,
}
use cloud_provider_tencent.Sdk.Env.{Env, call}
use cloud_provider_tencent.Cloud.{TxCloudConfig}
use cloud_provider_tencent.Common.{is_exist}
use cloud_provider_tencent.Instances.Lookup.{
  as_instance, scan_cache, collect_addresses, collect_instances, request_instances,
  get_instance_by_instance_private_ips,
}
use cloud_provider_tencent.LoadBalancer.Lookup.Footprint.{
  KeptBy, KeptBySearch, call-Keeps, get-Keeps, set-Keeps, name-Keeps, get_load_balancer-Keeps,
}
use cloud_provider_tencent.LoadBalancer.Task.{
  wait_api_task_done, get_tencent_cloud_api_task_status, sleep,
}
use cloud_provider_tencent.LoadBalancer.Task.Polling.{wait_api_task_done-Ensures}
use cloud_provider_tencent.LoadBalancer.Task.Requests.{settles}
use cloud_provider_tencent.LoadBalancer.Backends.{
  add_load_balancer_backends, delete_load_balancer_backends, remove_unused, add_needed, remove_loop,
  add_loop, both_loops, ensure_backends_of, ensure_load_balancer_backends,
}
use cloud_provider_tencent.LoadBalancer.Service.{update_load_balancer}

-- What the requests on targets, the questions that UpdateLoadBalancer asks, and the store keep.
pub record KeptByUpdate (E : Env) (J : E.World → Type 0) : Type 0 where
  pub describe_instances : KeptBy J E.describe_instances
  pub describe_load_balancers : KeptBy J E.describe_load_balancers
  pub describe_targets : KeptBy J E.describe_targets
  pub register_targets : KeptBy J E.register_targets
  pub deregister_targets : KeptBy J E.deregister_targets
  pub describe_task_status : KeptBy J E.describe_task_status
  pub store_add : KeptBy J E.store_add
  pub store_get_by_key : KeptBy J E.store_get_by_key
  pub sleep : (w : E.World) → J w → J (E.sleep w)

module _ (E : Env) (tx_config : TxCloudConfig) (J : E.World → Type 0) (K : KeptByUpdate E J) where
  pub searching : KeptBySearch E J
  searching = record {
    describe_load_balancers = K.describe_load_balancers;
    store_add = K.store_add;
    store_get_by_key = K.store_get_by_key;
  }

  wait-Keeps : (task : String) → Keeps J (wait_api_task_done E task)
  unfolding get_tencent_cloud_api_task_status sleep call
  wait-Keeps task = Keeps-Ensures _ (
      wait_api_task_done-Ensures E task
        (record { at = λ w h. (K.describe_task_status task w h, settles _) })
        (record { at = λ w h. (K.sleep w h, tt) }))

  request-Keeps :
      {R : Type 0} (c : R → E.World → Answer String × E.World) (r : R)
      → KeptBy J c
      → Keeps J (call (c r) >>= wait_api_task_done E)
  request-Keeps c r k = Keeps-bind _ _ (call-Keeps E tx_config J c r k) wait-Keeps

  as_instance-Keeps : (v : CacheValue) → Keeps {W = E.World} J (as_instance v)
  unfolding as_instance
  as_instance-Keeps (instance_value i) = Keeps-pure i
  as_instance-Keeps (load_balancer_value lb) = Keeps-panics
  as_instance-Keeps (listeners_value ls) = Keeps-panics

  scan_cache-Keeps :
      (private_ips ips : List String) (instances : List Instance)
      → Keeps J (scan_cache E tx_config private_ips ips instances)
  unfolding scan_cache
  scan_cache-Keeps [] ips instances = Keeps-pure _
  scan_cache-Keeps (ip ∷ private_ips) ips instances =
      Keeps-bind _ _ (get-Keeps E tx_config J searching _) (elim [
        | none ↦ scan_cache-Keeps private_ips _ instances
        | some v ↦ Keeps-bind _ _ (as_instance-Keeps v) (λ i. scan_cache-Keeps private_ips ips _)
      ])

  collect_addresses-Keeps :
      (ips : List String) (i : Instance) (addresses : List String) (instances : List Instance)
      → Keeps J (collect_addresses E tx_config ips i addresses instances)
  unfolding collect_addresses
  collect_addresses-Keeps ips i [] instances = Keeps-pure instances
  collect_addresses-Keeps ips i (ip ∷ addresses) instances =
      Keeps-if (is_exist ip ips) _ _
        (Keeps-bind _ _ (set-Keeps E tx_config J searching _ _)
          (λ _. collect_addresses-Keeps ips i addresses _))
        (collect_addresses-Keeps ips i addresses instances)

  collect_instances-Keeps :
      (ips : List String) (set instances : List Instance)
      → Keeps J (collect_instances E tx_config ips set instances)
  unfolding collect_instances
  collect_instances-Keeps ips [] instances = Keeps-pure instances
  collect_instances-Keeps ips (i ∷ set) instances =
      Keeps-if (not (i.vpc_id == tx_config.vpc_id)) _ _ (collect_instances-Keeps ips set instances)
        (Keeps-bind _ _ (collect_addresses-Keeps ips i _ instances)
          (λ is. collect_instances-Keeps ips set is))

  get_instance_by_instance_private_ips-Keeps :
      (private_ips : List String)
      → Keeps J (get_instance_by_instance_private_ips E tx_config private_ips)
  unfolding get_instance_by_instance_private_ips request_instances
  get_instance_by_instance_private_ips-Keeps private_ips =
      Keeps-bind _ _ (scan_cache-Keeps private_ips [] []) (λ (missing, instances).
        Keeps-batch_loop 5 _ _
          (λ batch is.
            Keeps-bind _ _ (call-Keeps E tx_config J E.describe_instances _ K.describe_instances)
              (λ set. collect_instances-Keeps _ set is))
          0 [] _ instances)

  remove_unused-Keeps :
      (id : String) (instances : List Instance) (port : ServicePort) (o : Option String)
      (targets : List Target)
      → Keeps J (remove_unused E tx_config id instances port o targets)
  unfolding remove_unused delete_load_balancer_backends
  remove_unused-Keeps id instances port none targets = Keeps-raise _
  remove_unused-Keeps id instances port (some listener) targets =
      Keeps-batch_loop 20 _ _ (λ batch _. request-Keeps E.deregister_targets _ K.deregister_targets)
        0 [] _ tt

  add_needed-Keeps :
      (id : String) (instances : List Instance) (port : ServicePort) (o : Option String)
      (targets : List Target)
      → Keeps J (add_needed E tx_config id instances port o targets)
  unfolding add_needed add_load_balancer_backends
  add_needed-Keeps id instances port none targets = Keeps-raise _
  add_needed-Keeps id instances port (some listener) targets =
      Keeps-batch_loop 20 _ _ (λ batch _. request-Keeps E.register_targets _ K.register_targets) 0
        [] _ tt

  ensure_backends_of-Keeps :
      (service : Service) (id : String) (ips : List String)
      → Keeps J (ensure_backends_of E tx_config service id ips)
  unfolding ensure_backends_of both_loops remove_loop add_loop
  ensure_backends_of-Keeps service id [] = Keeps-raise _
  ensure_backends_of-Keeps service id (ip ∷ ips) =
      Keeps-bind _ _ (get_instance_by_instance_private_ips-Keeps (ip ∷ ips)) (λ found.
        Keeps-bind _ _ (call-Keeps E tx_config J E.describe_targets id K.describe_targets) (λ ls.
          Keeps-bind _ _
            (Keeps-for_each _ service.ports (λ port. remove_unused-Keeps id _ port _ _))
            (λ _. Keeps-for_each _ service.ports (λ port. add_needed-Keeps id _ port _ _))))

  pub backends-Keeps :
      (service : Service) (nodes : List Node)
      → Keeps J (ensure_load_balancer_backends E tx_config service nodes)
  unfolding ensure_load_balancer_backends
  backends-Keeps service nodes = Keeps-bind _ _ (name-Keeps E tx_config J service) (λ name.
      Keeps-bind _ _ (get_load_balancer-Keeps E tx_config J searching name service)
        (λ lb. ensure_backends_of-Keeps service lb.load_balancer_id _))

-- Whatever is known of the world and kept by the requests on targets, by DescribeInstances,
-- DescribeLoadBalancers, DescribeTargets and DescribeTaskStatus, by the store and by the passing of
-- time, UpdateLoadBalancer keeps it, whether it returns, fails or panics: it makes no other call.
pub update_load_balancer-Keeps :
    (E : Env) (tx_config : TxCloudConfig) (J : E.World → Type 0) (service : Service)
    (nodes : List Node) (w : E.World)
    → KeptByUpdate E J
    → J w
    → J (update_load_balancer E tx_config service nodes w).1
unfolding update_load_balancer
update_load_balancer-Keeps E tx_config J service nodes w K h =
    (backends-Keeps E tx_config J K service nodes).at w h
