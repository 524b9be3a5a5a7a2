-- ===== src/LoadBalancer/Service/Updated.antt =====
-- pkg/tencentcloud/loadbalancer.go: UpdateLoadBalancer over a service that answers and accepts.
use cloud_provider_tencent.Go.Exec.Inversion.{same_outcome}
use cloud_provider_tencent.Base.{
  ◌≡◌, ◌≢◌, ◌≤◌, ◌∙◌, refl, List, [], ◌∷◌, String, length, keep, string_eq, ◌==◌, All,
}
use cloud_provider_tencent.Go.Exec.{ok, ◌>>=◌}
use cloud_provider_tencent.Sdk.{Service, Node, LoadBalancer, ListenerBackend, reply}
use cloud_provider_tencent.Sdk.Env.{Env, call}
use cloud_provider_tencent.Sdk.Laws.{StoreLaws}
use cloud_provider_tencent.Cloud.{TxCloudConfig}
use cloud_provider_tencent.Coherence.{IsCoherent}
use cloud_provider_tencent.Instances.Answered.{
  AnswersInstances, get_instance_by_instance_private_ips-ok,
}
use cloud_provider_tencent.LoadBalancer.Lookup.{get_load_balancer}
use cloud_provider_tencent.LoadBalancer.Instance.Matching.{name_of}
use cloud_provider_tencent.LoadBalancer.Backends.{node_lan_ips, ensure_backends_of}
use cloud_provider_tencent.LoadBalancer.Backends.Accepted.{Accepts, IsServed, both_loops-ok}
use cloud_provider_tencent.LoadBalancer.Backends.Found.{
  looked_up, ensure_load_balancer_backends_found, found-IsCoherent,
}
use cloud_provider_tencent.LoadBalancer.Service.{update_load_balancer}

module _ (E : Env) (tx_config : TxCloudConfig) (S : StoreLaws E) (service : Service) where
  ensure_backends_of-ok :
      (load_balancer_id : String) (ips : List String) (w : E.World)
      (listeners : List ListenerBackend)
      → Accepts E
      → AnswersInstances E
      → IsCoherent E S tx_config w
      → ips ≢ []
      → (E.describe_targets load_balancer_id (looked_up E tx_config ips w)).0 ≡ reply listeners
      → All (IsServed listeners) service.ports
      → (ensure_backends_of E tx_config service load_balancer_id ips w).0 ≡ ok tt
  unfolding ensure_backends_of call ◌>>=◌
  ensure_backends_of-ok load_balancer_id [] w listeners A T h some_ip told served =
      absurd (some_ip refl)
  ensure_backends_of-ok load_balancer_id (ip ∷ ips) w listeners A T h some_ip told served =
      let (found, got) = get_instance_by_instance_private_ips-ok E tx_config S (ip ∷ ips) w T h in
      rw got (
        rw told (
          both_loops-ok E tx_config load_balancer_id
            (keep (λ i. i.vpc_id == tx_config.vpc_id) found) listeners service.ports
            (E.describe_targets load_balancer_id (looked_up E tx_config (ip ∷ ips) w)).1 A served))

-- For a service of Tencent Cloud that answers every DescribeInstances and accepts every request on
-- targets, and whose tasks are done at once, a coherent cache and a service whose uid has eight
-- bytes: if the balancer is found, some node is labelled, and DescribeTargets, asked after the
-- instances were looked up, tells of a listener for every port, then UpdateLoadBalancer returns with
-- no error.
pub update_load_balancer-ok :
    (E : Env) (tx_config : TxCloudConfig) (S : StoreLaws E) (service : Service) (nodes : List Node)
    (lb : LoadBalancer) (listeners : List ListenerBackend) (w w1 : E.World)
    → Accepts E
    → AnswersInstances E
    → IsCoherent E S tx_config w
    → 8 ≤ length service.uid
    → get_load_balancer E tx_config (name_of E tx_config service) service w ≡ (ok lb, w1)
    → node_lan_ips service nodes ≢ []
    → (E.describe_targets lb.load_balancer_id
        (looked_up E tx_config (node_lan_ips service nodes) w1)).0
      ≡ reply listeners
    → All (IsServed listeners) service.ports
    → (update_load_balancer E tx_config service nodes w).0 ≡ ok tt
unfolding update_load_balancer
update_load_balancer-ok E tx_config S service nodes lb listeners w w1 A T h uid found some_node told
      served =
    same_outcome (ensure_load_balancer_backends_found E tx_config S service nodes lb w w1 uid found)
    ∙ ensure_backends_of-ok E tx_config S service lb.load_balancer_id (node_lan_ips service nodes)
        w1 listeners A T (found-IsCoherent E tx_config S service lb w w1 h found) some_node told
        served
