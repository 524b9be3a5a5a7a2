-- ===== src/LoadBalancer/Listeners.antt =====
-- pkg/tencentcloud/tencentcloud_loadbalancer.go: making the listeners those of the service's ports.
pub mod Plan
pub mod Reconcile
pub mod Growth
pub mod Laws
pub mod Effects
pub mod Accepted
pub mod Method
pub mod Stale
pub mod Steady
use cloud_provider_tencent.Base.{
  Bool, not, ◌&&◌, List, [], ◌∷◌, map, String, ℤ, string_eq, int_eq, ◌==◌, keep, if◌then◌else◌,
}
use cloud_provider_tencent.Go.Sort.{sort_strings}
use cloud_provider_tencent.Go.Exec.{Exec, for_each, ◌>>=◌, ◌>>◌}
use cloud_provider_tencent.Sdk.{
  Listener, Service, ServicePort, LoadBalancer, CreateListenerRequest, DeleteListenerRequest,
}
use cloud_provider_tencent.Sdk.Env.{Env, call}
use cloud_provider_tencent.Cloud.{TxCloudConfig}
use cloud_provider_tencent.Common.{is_exist}
use cloud_provider_tencent.LoadBalancer.Annotations.{build_health_check}
use cloud_provider_tencent.LoadBalancer.Lookup.{
  get_load_balancer_name, get_load_balancer, get_load_balancer_listeners,
}
use cloud_provider_tencent.LoadBalancer.Task.{wait_api_task_done}

-- *listener.Port == int64(port.Port) && *listener.Protocol == string(port.Protocol)
unfoldable pub serves : ServicePort → ℤ → String → Bool
serves port listener_port protocol = listener_port == port.port && protocol == port.protocol

-- findOneListenerValid: the id of the first listener that serves the port, or "".
unfoldable pub find_one_listener_valid : List Listener → ServicePort → String
unfolding serves
find_one_listener_valid [] port = []
find_one_listener_valid (l ∷ ls) port =
    if serves port l.port l.protocol then l.listener_id else find_one_listener_valid ls port

-- listenerId != ""
unfoldable pub is_served : List Listener → ServicePort → Bool
is_served ls port = not (find_one_listener_valid ls port == [])

-- createdServicePortNames and usedListenerIds, as the first loop appends them.
unfoldable pub created_service_port_names : List Listener → List ServicePort → List String
unfolding is_served
created_service_port_names ls ports = map (λ port. port.name) (keep (is_served ls) ports)

unfoldable pub used_listener_ids : List Listener → List ServicePort → List String
unfolding is_served
used_listener_ids ls ports = map (find_one_listener_valid ls) (keep (is_served ls) ports)

-- The ports for which the second loop makes a request, and the listeners for which the third does.
unfoldable pub ports_to_create : List Listener → List ServicePort → List ServicePort
ports_to_create ls ports =
    let names = sort_strings (created_service_port_names ls ports) in
    keep (λ port. not (is_exist port.name names)) ports

unfoldable pub listeners_to_delete : List Listener → List ServicePort → List Listener
listeners_to_delete ls ports =
    let ids = sort_strings (used_listener_ids ls ports) in
    keep (λ l. not (is_exist l.listener_id ids)) ls

unfoldable pub create_listener_request :
    Service → LoadBalancer → ServicePort → CreateListenerRequest
create_listener_request service lb port = record {
  load_balancer_id = lb.load_balancer_id;
  ports = port.port ∷ [];
  protocol = port.protocol;
  listener_names = port.name ∷ [];
  health_check = build_health_check service;
}

unfoldable pub delete_listener_request : LoadBalancer → Listener → DeleteListenerRequest
delete_listener_request lb l = record {
  load_balancer_id = lb.load_balancer_id;
  listener_id = l.listener_id;
}

module _ (E : Env) (tx_config : TxCloudConfig) where
  unfoldable pub create_listener : CreateListenerRequest → Exec E.World (Unit {0})
  create_listener request = do
    request_id ← call (E.create_listener request)
    wait_api_task_done E request_id

  unfoldable pub delete_listener : DeleteListenerRequest → Exec E.World (Unit {0})
  delete_listener request = do
    request_id ← call (E.delete_listener request)
    wait_api_task_done E request_id

  -- The two loops over the requests, once the balancer and its listeners are known.
  unfoldable pub reconcile : Service → LoadBalancer → List Listener → Exec E.World (Unit {0})
  reconcile service lb listeners = do
    for_each create_listener
        (map (create_listener_request service lb) (ports_to_create listeners service.ports))
    for_each delete_listener
        (map (delete_listener_request lb) (listeners_to_delete listeners service.ports))

  -- ensureLoadBalancerListeners
  unfoldable pub ensure_load_balancer_listeners : Service → Exec E.World (Unit {0})
  ensure_load_balancer_listeners service = do
    name ← get_load_balancer_name E tx_config service
    lb ← get_load_balancer E tx_config name service
    listeners ← get_load_balancer_listeners E tx_config lb.load_balancer_id
    reconcile service lb listeners
