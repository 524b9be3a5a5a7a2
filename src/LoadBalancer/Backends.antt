-- ===== src/LoadBalancer/Backends.antt =====
-- pkg/tencentcloud/tencentcloud_loadbalancer.go: making the backends of each listener the instances
-- of the service's nodes.
pub mod Reconcile
pub mod Registered
pub mod Loops
pub mod Accepted
pub mod Found
pub mod Method
use cloud_provider_tencent.Base.{
  Bool, false, not, ◌&&◌, ◌||◌, Option, none, some, List, [], ◌∷◌, ◌++◌, map, String, pos,
  string_eq, int_eq, ◌==◌, get, keep, if◌then◌else◌,
}
use cloud_provider_tencent.Go.Strings.{bytes}
use cloud_provider_tencent.Go.Errors.{Error, new}
use cloud_provider_tencent.Go.Exec.{Exec, raise, for_each, ◌>>=◌, ◌>>◌}
use cloud_provider_tencent.Sdk.{Instance, Service, ServicePort, Node, ListenerBackend, Target}
use cloud_provider_tencent.Sdk.Env.{Env, call}
use cloud_provider_tencent.Cloud.{TxCloudConfig}
use cloud_provider_tencent.Batch.{in_batches}
use cloud_provider_tencent.Instances.Lookup.{get_instance_by_instance_private_ips}
use cloud_provider_tencent.LoadBalancer.Annotations.{get_node_label_key, get_node_label_value}
use cloud_provider_tencent.LoadBalancer.Lookup.{get_load_balancer_name, get_load_balancer}
use cloud_provider_tencent.LoadBalancer.Listeners.{serves}
use cloud_provider_tencent.LoadBalancer.Task.{wait_api_task_done}

-- Whether a node carries the label that the service asks for.
unfoldable pub is_labelled : Service → Node → Bool
is_labelled service node = elim (get (get_node_label_key service) node.labels) [
  | some v ↦ v == get_node_label_value service
  | none ↦ false
]

-- nodeLanIps
unfoldable pub node_lan_ips : Service → List Node → List String
unfolding is_labelled
node_lan_ips service nodes = map (λ node. node.name) (keep (is_labelled service) nodes)

abbrev pub no_nodes : Service → Error
no_nodes service = new (
    bytes "can't found nodes base on label: "
    ++ (get_node_label_key service ++ (bytes "=" ++ get_node_label_value service)))

-- new(clb.ListenerBackend)
abbrev pub no_listener : ListenerBackend
no_listener = record { listener_id = none; port = pos 0; protocol = []; targets = [] }

-- The first listener that serves the port.
unfoldable pub find_forward_listener : List ListenerBackend → ServicePort → ListenerBackend
unfolding serves
find_forward_listener [] port = no_listener
find_forward_listener (l ∷ ls) port =
    if serves port l.port l.protocol then l else find_forward_listener ls port

-- *backend.InstanceId == *instance.InstanceId && *backend.Port == int64(port.NodePort)
unfoldable pub is_backend : ServicePort → Target → Instance → Bool
is_backend port backend instance =
    backend.instance_id == instance.instance_id && backend.port == port.node_port

-- The two inner loops that set `found`.
unfoldable pub has_instance : ServicePort → List Instance → Target → Bool
unfolding is_backend
has_instance port [] backend = false
has_instance port (i ∷ instances) backend =
    is_backend port backend i || has_instance port instances backend

unfoldable pub has_backend : ServicePort → List Target → Instance → Bool
unfolding is_backend
has_backend port [] instance = false
has_backend port (b ∷ backends) instance =
    is_backend port b instance || has_backend port backends instance

-- backendsToDelete and backendsToAdd
unfoldable pub backends_to_delete : ServicePort → List Instance → List Target → List Target
unfolding has_instance
backends_to_delete port instances = keep (λ b. not (has_instance port instances b))

unfoldable pub target_of : ServicePort → Instance → Target
target_of port instance = record { instance_id = instance.instance_id; port = port.node_port }

unfoldable pub backends_to_add : ServicePort → List Instance → List Target → List Target
unfolding has_backend target_of
backends_to_add port instances backends =
    map (target_of port) (keep (λ i. not (has_backend port backends i)) instances)

abbrev pub no_listener_for_port : Error
no_listener_for_port = new (bytes "can not find loadBalancer listener for this service port")

module _ (E : Env) (tx_config : TxCloudConfig) where
  -- addLoadBalancerBackends
  unfoldable pub add_load_balancer_backends :
      String → String → List Target → Exec E.World (Unit {0})
  add_load_balancer_backends load_balancer_id listener_id backends = do
    request_id ← call (
        E.register_targets (record {
          load_balancer_id = load_balancer_id;
          listener_id = listener_id;
          targets = backends;
        }))
    wait_api_task_done E request_id

  -- deleteLoadBalancerBackends
  unfoldable pub delete_load_balancer_backends :
      String → String → List Target → Exec E.World (Unit {0})
  delete_load_balancer_backends load_balancer_id listener_id backends = do
    request_id ← call (
        E.deregister_targets (record {
          load_balancer_id = load_balancer_id;
          listener_id = listener_id;
          targets = backends;
        }))
    wait_api_task_done E request_id

  -- The body of the first loop over the ports, once the listener is found.
  unfoldable pub remove_unused :
      String → List Instance → ServicePort → Option String → List Target → Exec E.World (Unit {0})
  remove_unused load_balancer_id instances port none targets = raise no_listener_for_port
  remove_unused load_balancer_id instances port (some id) targets =
      in_batches 20 (λ batch _. delete_load_balancer_backends load_balancer_id id batch)
        (backends_to_delete port instances targets) tt

  -- The body of the second.
  unfoldable pub add_needed :
      String → List Instance → ServicePort → Option String → List Target → Exec E.World (Unit {0})
  add_needed load_balancer_id instances port none targets = raise no_listener_for_port
  add_needed load_balancer_id instances port (some id) targets =
      in_batches 20 (λ batch _. add_load_balancer_backends load_balancer_id id batch)
        (backends_to_add port instances targets) tt

  unfoldable pub remove_loop :
      String → List Instance → List ListenerBackend → ServicePort → Exec E.World (Unit {0})
  remove_loop load_balancer_id instances listeners port =
      let l = find_forward_listener listeners port in
      remove_unused load_balancer_id instances port l.listener_id l.targets

  unfoldable pub add_loop :
      String → List Instance → List ListenerBackend → ServicePort → Exec E.World (Unit {0})
  add_loop load_balancer_id instances listeners port =
      let l = find_forward_listener listeners port in
      add_needed load_balancer_id instances port l.listener_id l.targets

  -- The two loops over the ports: all removals come before all additions.
  unfoldable pub both_loops :
      String → List Instance → List ListenerBackend → List ServicePort → Exec E.World (Unit {0})
  both_loops load_balancer_id instances listeners ports = do
    for_each (remove_loop load_balancer_id instances listeners) ports
    for_each (add_loop load_balancer_id instances listeners) ports

  -- From the addresses of the nodes on; the instances of other VPCs are left out once more.
  unfoldable pub ensure_backends_of : Service → String → List String → Exec E.World (Unit {0})
  ensure_backends_of service load_balancer_id [] = raise (no_nodes service)
  ensure_backends_of service load_balancer_id (ip ∷ ips) = do
    instances_in_multi_vpc ← get_instance_by_instance_private_ips E tx_config (ip ∷ ips)
    listeners ← call (E.describe_targets load_balancer_id)
    let instances = keep (λ i. i.vpc_id == tx_config.vpc_id) instances_in_multi_vpc
    both_loops load_balancer_id instances listeners service.ports

  -- ensureLoadBalancerBackends
  unfoldable pub ensure_load_balancer_backends : Service → List Node → Exec E.World (Unit {0})
  ensure_load_balancer_backends service nodes = do
    name ← get_load_balancer_name E tx_config service
    lb ← get_load_balancer E tx_config name service
    ensure_backends_of service lb.load_balancer_id (node_lan_ips service nodes)
