-- ===== src/LoadBalancer/Service/Answered.antt =====
-- pkg/tencentcloud/loadbalancer.go: EnsureLoadBalancer over a service that answers and accepts.
use cloud_provider_tencent.Go.Exec.Inversion.{same_outcome}
use cloud_provider_tencent.Base.{
  ◌≡◌, ◌≢◌, ◌≤◌, ◌∙◌, refl, ap, none, some, List, [], ◌++◌, String, length, string_eq, eq_refl, All,
}
use cloud_provider_tencent.Go.Exec.{Outcome, ok, pure, ◌>>=◌}
use cloud_provider_tencent.Go.Exec.Sure.{Sure, Sure-pure, Sure-panics, Sure-bind, Ensures-Sure}
use cloud_provider_tencent.Sdk.{
  Listener, Service, Node, LoadBalancer, ListenerBackend, CacheValue, instance_value,
  load_balancer_value, listeners_value, reply,
}
use cloud_provider_tencent.Sdk.Env.{Env}
use cloud_provider_tencent.Sdk.Laws.{StoreLaws}
use cloud_provider_tencent.Cache.Sure.{call-Sure, get-Sure, set-Sure}
use cloud_provider_tencent.Cloud.{TxCloudConfig}
use cloud_provider_tencent.Coherence.{IsCoherent}
use cloud_provider_tencent.Coherence.Balancers.{get_load_balancer_listeners-IsSafe}
use cloud_provider_tencent.Coherence.Kept.{ensure_load_balancer_instance-Keeps}
use cloud_provider_tencent.Instances.Answered.{AnswersInstances}
use cloud_provider_tencent.LoadBalancer.Annotations.{desired_type}
use cloud_provider_tencent.LoadBalancer.Lookup.{
  cache_name_pre_clb_listener, full_name, as_listeners, get_load_balancer_name, get_load_balancer,
  get_load_balancer_listeners,
}
use cloud_provider_tencent.LoadBalancer.Name.{shorten_ok}
use cloud_provider_tencent.LoadBalancer.Instance.{subnet_of, ensure_load_balancer_instance}
use cloud_provider_tencent.LoadBalancer.Instance.Matching.{
  Matches, name_of, ensure_load_balancer_instance_matching,
}
use cloud_provider_tencent.LoadBalancer.Listeners.{ensure_load_balancer_listeners}
use cloud_provider_tencent.LoadBalancer.Listeners.Accepted.{AcceptsListeners, reconcile-ok}
use cloud_provider_tencent.LoadBalancer.Listeners.Method.{ensure_load_balancer_listeners_found}
use cloud_provider_tencent.LoadBalancer.Backends.{node_lan_ips, ensure_load_balancer_backends}
use cloud_provider_tencent.LoadBalancer.Backends.Accepted.{Accepts, IsServed}
use cloud_provider_tencent.LoadBalancer.Backends.Found.{looked_up, found-IsCoherent}
use cloud_provider_tencent.LoadBalancer.Service.{
  status_of, service_affinity_none, ensure_parts, ensure_load_balancer, update_load_balancer,
}
use cloud_provider_tencent.LoadBalancer.Service.Ensured.{after_instance, after_listeners}
use cloud_provider_tencent.LoadBalancer.Service.Targets.{after_listeners-IsCoherent}
use cloud_provider_tencent.LoadBalancer.Service.Updated.{update_load_balancer-ok}

-- The service answers every DescribeListeners.
abbrev pub AnswersListeners : Env → Type 0
AnswersListeners E =
    (id : String) (w : E.World) → (ls : List Listener) × ((E.describe_listeners id w).0 ≡ reply ls)

module _ (E : Env) (tx_config : TxCloudConfig) where
  as_listeners-Sure : (v : CacheValue) → Sure {W = E.World} (as_listeners v)
  unfolding as_listeners
  as_listeners-Sure (listeners_value ls) = Sure-pure ls
  as_listeners-Sure (instance_value _) = Sure-panics
  as_listeners-Sure (load_balancer_value _) = Sure-panics

  get_load_balancer_listeners-Sure :
      (id : String) → AnswersListeners E → Sure (get_load_balancer_listeners E tx_config id)
  unfolding get_load_balancer_listeners
  get_load_balancer_listeners-Sure id T =
      Sure-bind _ _ (get-Sure E (cache_name_pre_clb_listener ++ id)) (elim [
        | some v ↦ as_listeners-Sure v
        | none ↦ Sure-bind _ _ (call-Sure _ (T id)) (λ ls.
            Sure-bind _ _ (set-Sure E (cache_name_pre_clb_listener ++ id) (listeners_value ls))
              (λ _. Sure-pure ls))
      ])

  module _ (S : StoreLaws E) (service : Service) (lb : LoadBalancer) where
    ensure_load_balancer_listeners-ok :
        (w w1 : E.World)
        → AcceptsListeners E
        → AnswersListeners E
        → IsCoherent E S tx_config w
        → 8 ≤ length service.uid
        → get_load_balancer E tx_config (name_of E tx_config service) service w ≡ (ok lb, w1)
        → (ensure_load_balancer_listeners E tx_config service w).0 ≡ ok tt
    ensure_load_balancer_listeners-ok w w1 A T h uid found =
        let (ls, got) =
          Ensures-Sure _ (get_load_balancer_listeners-IsSafe E S tx_config lb.load_balancer_id)
            (get_load_balancer_listeners-Sure lb.load_balancer_id T) w1
            (found-IsCoherent E tx_config S service lb w w1 h found) in
        let w2 = (get_load_balancer_listeners E tx_config lb.load_balancer_id w1).1 in
        same_outcome (
          ensure_load_balancer_listeners_found E tx_config service lb w w1 w2 ls uid found
            (ap (λ (o : Outcome (List Listener)). (o, w2)) got))
        ∙ reconcile-ok E tx_config service lb ls w2 A

  -- The world after the three steps, in which the last search is made.
  module _ (service : Service) (nodes : List Node) where
    abbrev pub at_last : E.World → E.World
    at_last w =
        (ensure_load_balancer_backends E tx_config service nodes
          (after_listeners E tx_config service nodes w)).1

    ensure_parts-ok :
        (w : E.World) (lb : LoadBalancer)
        → 8 ≤ length service.uid
        → (ensure_load_balancer_instance E tx_config service w).0 ≡ ok tt
        → (ensure_load_balancer_listeners E tx_config service
            (after_instance E tx_config service nodes w)).0
          ≡ ok tt
        → (ensure_load_balancer_backends E tx_config service nodes
            (after_listeners E tx_config service nodes w)).0
          ≡ ok tt
        → (get_load_balancer E tx_config (name_of E tx_config service) service (at_last w)).0
          ≡ ok lb
        → (ensure_parts E tx_config service nodes w).0 ≡ ok lb.load_balancer_vips
    unfolding ensure_parts get_load_balancer_name status_of pure ◌>>=◌
    ensure_parts-ok w lb uid first second third last = rw first (
        rw second (
          rw third (
            rw (shorten_ok (full_name tx_config service) service.uid (at_last w) uid)
              (rw last refl))))

    accepted :
        (w : E.World)
        → service.session_affinity ≡ service_affinity_none
        → ensure_load_balancer E tx_config service nodes w
          ≡ ensure_parts E tx_config service nodes w
    unfolding ensure_load_balancer
    accepted w none_asked = rw none_asked (rw (eq_refl service_affinity_none) refl)

-- For a service of Tencent Cloud that answers every DescribeInstances and DescribeListeners and
-- accepts every request on listeners and targets, and whose tasks are done at once, a coherent cache
-- and a service whose uid has eight bytes and which asks for no affinity: if the balancer is found
-- before each of the three steps and after the last, it matches the service, some node is labelled,
-- and DescribeTargets, asked after the instances were looked up, tells of a listener for every port,
-- then EnsureLoadBalancer returns the addresses of the balancer.
pub ensure_load_balancer-ok :
    (E : Env) (tx_config : TxCloudConfig) (S : StoreLaws E) (service : Service) (nodes : List Node)
    (lb : LoadBalancer) (listeners : List ListenerBackend) (w w1 w2 w3 : E.World)
    → AcceptsListeners E
    → Accepts E
    → AnswersListeners E
    → AnswersInstances E
    → IsCoherent E S tx_config w
    → 8 ≤ length service.uid
    → service.session_affinity ≡ service_affinity_none
    → Matches tx_config lb (desired_type service) (subnet_of service)
    → get_load_balancer E tx_config (name_of E tx_config service) service w ≡ (ok lb, w1)
    → get_load_balancer E tx_config
        (name_of E tx_config service)
        service
        (after_instance E tx_config service nodes w)
      ≡ (ok lb, w2)
    → get_load_balancer E tx_config
        (name_of E tx_config service)
        service
        (after_listeners E tx_config service nodes w)
      ≡ (ok lb, w3)
    → node_lan_ips service nodes ≢ []
    → (E.describe_targets lb.load_balancer_id
        (looked_up E tx_config (node_lan_ips service nodes) w3)).0
      ≡ reply listeners
    → All (IsServed listeners) service.ports
    → (get_load_balancer E tx_config
        (name_of E tx_config service)
        service
        (at_last E tx_config service nodes w)).0
      ≡ ok lb
    → (ensure_load_balancer E tx_config service nodes w).0 ≡ ok lb.load_balancer_vips
unfolding update_load_balancer
ensure_load_balancer-ok E tx_config S service nodes lb listeners w w1 w2 w3 AL A TL T h uid
      none_asked matches found1 found2 found3 some_node told served last =
    same_outcome (accepted E tx_config service nodes w none_asked)
    ∙ ensure_parts-ok E tx_config service nodes w lb uid
        (same_outcome
          (ensure_load_balancer_instance_matching E tx_config service w w1 lb uid found1 matches))
        (ensure_load_balancer_listeners-ok E tx_config S service lb _ w2 AL TL
          ((ensure_load_balancer_instance-Keeps E S tx_config service uid).at w h) uid found2)
        (update_load_balancer-ok E tx_config S service nodes lb listeners _ w3 A T
          (after_listeners-IsCoherent E tx_config service nodes S w uid h) uid found3 some_node told
          served)
        last
