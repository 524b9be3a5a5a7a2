-- ===== src/LoadBalancer/Service/Targets.antt =====
-- pkg/tencentcloud/loadbalancer.go: EnsureLoadBalancer, followed to the targets of a listener.
use cloud_provider_tencent.Base.{
  ◌≡◌, ◌≤◌, ◌∙◌, refl, sym, ap, subst, some, List, ◌∷◌, ◌++◌, String, length, contains, All,
}
use cloud_provider_tencent.Go.Exec.{Exec, Outcome, ok, pure, ◌>>=◌}
use cloud_provider_tencent.Go.Exec.Inversion.{bind-ok, same_outcome}
use cloud_provider_tencent.Go.Exec.Keeps.{Keeps, Keeps-bind, Keeps-pure}
use cloud_provider_tencent.Sdk.{
  Service, ServicePort, Node, LoadBalancer, ListenerBackend, Target, reply,
}
use cloud_provider_tencent.Sdk.Env.{Env}
use cloud_provider_tencent.Sdk.Laws.{StoreLaws}
use cloud_provider_tencent.Cloud.{TxCloudConfig}
use cloud_provider_tencent.Coherence.{IsCoherent}
use cloud_provider_tencent.Coherence.Kept.{ensure_load_balancer_instance-Keeps}
use cloud_provider_tencent.Coherence.Methods.{listeners-IsSafe}
use cloud_provider_tencent.LoadBalancer.Lookup.{get_load_balancer_name, get_load_balancer}
use cloud_provider_tencent.LoadBalancer.Lookup.Footprint.{
  KeptBySearch, name-Keeps, get_load_balancer-Keeps,
}
use cloud_provider_tencent.LoadBalancer.Instance.Matching.{name_of}
use cloud_provider_tencent.LoadBalancer.Backends.{
  node_lan_ips, find_forward_listener, ensure_load_balancer_backends,
}
use cloud_provider_tencent.LoadBalancer.Backends.Reconcile.{target_eq}
use cloud_provider_tencent.LoadBalancer.Backends.Registered.{TargetLaws, targets_of, NoneFailed}
use cloud_provider_tencent.LoadBalancer.Backends.Loops.{Elsewhere}
use cloud_provider_tencent.LoadBalancer.Backends.Found.{looked_up, told_targets}
use cloud_provider_tencent.LoadBalancer.Backends.Method.{
  targets_after, AreBackends, ensure_load_balancer_backends-targets_of,
}
use cloud_provider_tencent.LoadBalancer.Service.{
  LoadBalancerStatus, status_of, ensure_load_balancer,
}
use cloud_provider_tencent.LoadBalancer.Service.Ensured.{
  after_listeners, ensure_load_balancer-Stepped,
}

module _ (E : Env) (tx_config : TxCloudConfig) (service : Service) (nodes : List Node) where
  -- What follows the third step.
  abbrev last : Exec E.World LoadBalancerStatus
  last = get_load_balancer_name E tx_config service >>= λ name.
      get_load_balancer E tx_config name service >>= λ lb. pure (status_of lb)

  last-Keeps : (J : E.World → Type 0) → KeptBySearch E J → Keeps J last
  last-Keeps J K = Keeps-bind _ _ (name-Keeps E tx_config J service) (λ name.
      Keeps-bind _ _ (get_load_balancer-Keeps E tx_config J K name service) (λ lb. Keeps-pure _))

  -- The first two steps keep the cache coherent.
  pub after_listeners-IsCoherent :
      (S : StoreLaws E) (w : E.World)
      → 8 ≤ length service.uid
      → IsCoherent E S tx_config w
      → IsCoherent E S tx_config (after_listeners E tx_config service nodes w)
  after_listeners-IsCoherent S w uid h =
      ((listeners-IsSafe E S tx_config service uid).at _
        ((ensure_load_balancer_instance-Keeps E S tx_config service uid).at w h)).0

  -- A run that returned a status went through the third step with no error.
  record Reached (w : E.World) : Type 0 where
    backends_ok :
        (ensure_load_balancer_backends E tx_config service nodes
          (after_listeners E tx_config service nodes w)).0
        ≡ ok tt
    run :
        ensure_load_balancer E tx_config service nodes w
        ≡ last
            (ensure_load_balancer_backends E tx_config service nodes
              (after_listeners E tx_config service nodes w)).1

  ensure_load_balancer-Reached :
      (w : E.World) (status : LoadBalancerStatus)
      → (ensure_load_balancer E tx_config service nodes w).0 ≡ ok status
      → Reached w
  ensure_load_balancer-Reached w status ran =
      let s = ensure_load_balancer-Stepped E tx_config service nodes w status ran in
      let (_, backends, run) =
        bind-ok (ensure_load_balancer_backends E tx_config service nodes) (λ _. last)
          (after_listeners E tx_config service nodes w) status (same_outcome (sym s.run) ∙ ran) in
      record { backends_ok = backends; run = s.run ∙ run }

-- For a service of Tencent Cloud where accepted requests on targets take effect once their task
-- succeeds and the search for a balancer touches no target, a coherent cache and a service whose
-- uid has eight bytes: if EnsureLoadBalancer returns a status, no task answered that it failed up
-- to the end of its third step, and after its first two steps the balancer is found and
-- DescribeTargets tells the targets of a listener which serves exactly one of the ports, then at
-- the end the listener's targets are exactly some instances at the port's node port, and each of
-- these instances belongs to the VPC and has the name of a labelled node among its private
-- addresses.
pub ensure_load_balancer-targets_of :
    (E : Env) (tx_config : TxCloudConfig) (S : StoreLaws E) (L : TargetLaws E) (service : Service)
    (nodes : List Node) (lb : LoadBalancer) (listener_id : String)
    (listeners : List ListenerBackend) (port : ServicePort) (before after : List ServicePort)
    (status : LoadBalancerStatus) (w w1 : E.World)
    → ((ts : List Target)
        → KeptBySearch E (λ v. targets_of L v lb.load_balancer_id listener_id ≡ ts))
    → 8 ≤ length service.uid
    → IsCoherent E S tx_config w
    → get_load_balancer E tx_config
        (name_of E tx_config service)
        service
        (after_listeners E tx_config service nodes w)
      ≡ (ok lb, w1)
    → service.ports ≡ before ++ (port ∷ after)
    → (E.describe_targets lb.load_balancer_id
        (looked_up E tx_config (node_lan_ips service nodes) w1)).0
      ≡ reply listeners
    → (find_forward_listener listeners port).listener_id ≡ some listener_id
    → All (Elsewhere listener_id listeners) before
    → All (Elsewhere listener_id listeners) after
    → ((t : Target)
        → contains t (
            targets_of L
              (told_targets E tx_config (node_lan_ips service nodes) w1 lb)
              lb.load_balancer_id
              listener_id)
          ≡ contains t (find_forward_listener listeners port).targets)
    → (ensure_load_balancer E tx_config service nodes w).0 ≡ ok status
    → NoneFailed L
        (ensure_load_balancer_backends E tx_config service nodes
          (after_listeners E tx_config service nodes w)).1
    → AreBackends tx_config port (node_lan_ips service nodes) (
        targets_of L
          (ensure_load_balancer E tx_config service nodes w).1
          lb.load_balancer_id
          listener_id)
ensure_load_balancer-targets_of E tx_config S L service nodes lb listener_id listeners port before
      after status w w1 K uid h found ports told e a b same ran none_failed =
    let r = ensure_load_balancer-Reached E tx_config service nodes w status ran in
    let w3 = after_listeners E tx_config service nodes w in
    let ts = targets_after E tx_config L service nodes lb listener_id w3 in
    let kept : targets_of L (ensure_load_balancer E tx_config service nodes w).1 lb.load_balancer_id
          listener_id
        ≡ ts =
      ap
        (λ (p : Outcome LoadBalancerStatus × E.World).
          targets_of L p.1 lb.load_balancer_id listener_id)
        r.run
      ∙ (last-Keeps E tx_config service nodes _ (K ts)).at _ refl in
    subst (AreBackends tx_config port (node_lan_ips service nodes)) (sym kept) (
      ensure_load_balancer_backends-targets_of E tx_config S L service nodes lb listener_id
        listeners port before after w3 w1 uid
        (after_listeners-IsCoherent E tx_config service nodes S w uid h) found ports told e a b same
        r.backends_ok none_failed)
