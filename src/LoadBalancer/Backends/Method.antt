-- ===== src/LoadBalancer/Backends/Method.antt =====
-- pkg/tencentcloud/tencentcloud_loadbalancer.go: ensureLoadBalancerBackends as a whole, from the
-- nodes to the targets of a listener.
use cloud_provider_tencent.Base.{
  Any, inl, inr, arith, int_eq, ◌≡◌, ◌≤◌, ◌∙◌, sym, ap, some, List, [], ◌∷◌, ◌++◌, String, length,
  string_eq, eq_refl, contains, All, true,
}
use cloud_provider_tencent.Go.Exec.{Outcome, ok}
use cloud_provider_tencent.Go.Exec.Inversion.{same_outcome}
use cloud_provider_tencent.Sdk.{
  Instance, Service, ServicePort, Node, LoadBalancer, ListenerBackend, Target, reply,
}
use cloud_provider_tencent.Sdk.Env.{Env}
use cloud_provider_tencent.Sdk.Laws.{StoreLaws}
use cloud_provider_tencent.Cloud.{TxCloudConfig}
use cloud_provider_tencent.Instances.Lookup.{get_instance_by_instance_private_ips}
use cloud_provider_tencent.Instances.Complete.{Findable}
use cloud_provider_tencent.Instances.Complete.Whole.{get_instance_by_instance_private_ips-HasIp}
use cloud_provider_tencent.Coherence.{HasIp, IsCoherent}
use cloud_provider_tencent.Coherence.Instances.{Serves}
use cloud_provider_tencent.LoadBalancer.Lookup.{get_load_balancer}
use cloud_provider_tencent.LoadBalancer.Instance.Matching.{name_of}
use cloud_provider_tencent.LoadBalancer.Backends.{
  target_of, is_backend, node_lan_ips, has_instance, find_forward_listener, both_loops,
  ensure_load_balancer_backends,
}
use cloud_provider_tencent.LoadBalancer.Backends.Reconcile.{target_eq}
use cloud_provider_tencent.LoadBalancer.Backends.Registered.{TargetLaws, targets_of, NoneFailed}
use cloud_provider_tencent.LoadBalancer.Backends.Loops.{Elsewhere, both_loops-targets_of}
use cloud_provider_tencent.LoadBalancer.Backends.Found.{
  looked_up, told_targets, ensure_load_balancer_backends_found, found-IsCoherent,
  ensure_backends_of-Looped,
}

-- The targets that a listener should have for a port: the instances at the port's node port, where
-- each instance belongs to the VPC and has one of the addresses.
abbrev pub AreBackends : TxCloudConfig → ServicePort → List String → List Target → Type 0
AreBackends tx_config port ips targets =
    (instances : List Instance) × All (Serves tx_config ips) instances
    × ((t : Target) → contains t targets ≡ has_instance port instances t)

-- The targets of a listener of the balancer after a run of the method.
abbrev pub targets_after :
    (E : Env)
    → TxCloudConfig
    → TargetLaws E
    → Service
    → List Node
    → LoadBalancer
    → String
    → E.World
    → List Target
targets_after E tx_config L service nodes lb listener_id w =
    targets_of L (ensure_load_balancer_backends E tx_config service nodes w).1 lb.load_balancer_id
      listener_id

-- One of the instances that have a property is an instance at the node port.
some_instance :
    (port : ServicePort) (P : Instance → Type 0) (instances : List Instance)
    → Any P instances
    → (i : Instance) × P i × (has_instance port instances (target_of port i) ≡ true)
unfolding has_instance target_of is_backend
some_instance port P [] a = elim a [ ]
some_instance port P (i ∷ instances) (inl p) =
    (i, p, ground (arith, eq_refl i.instance_id, eq_refl port.node_port))
some_instance port P (i ∷ instances) (inr a) =
    let (j, p, h) = some_instance port P instances a in (j, p, ground (arith, h))

module _ (E : Env) (tx_config : TxCloudConfig) (S : StoreLaws E) (L : TargetLaws E)
    (service : Service) (nodes : List Node) (lb : LoadBalancer) (listener_id : String)
    (listeners : List ListenerBackend) (port : ServicePort) (before after : List ServicePort)
    (w w1 : E.World) (uid : 8 ≤ length service.uid) (h : IsCoherent E S tx_config w)
    (found : get_load_balancer E tx_config (name_of E tx_config service) service w ≡ (ok lb, w1))
    (ports : service.ports ≡ before ++ (port ∷ after))
    (told : (E.describe_targets lb.load_balancer_id
        (looked_up E tx_config (node_lan_ips service nodes) w1)).0
      ≡ reply listeners)
    (e : (find_forward_listener listeners port).listener_id ≡ some listener_id)
    (a : All (Elsewhere listener_id listeners) before)
    (b : All (Elsewhere listener_id listeners) after)
    (same : (t : Target)
      → contains t (
          targets_of L
            (told_targets E tx_config (node_lan_ips service nodes) w1 lb)
            lb.load_balancer_id
            listener_id)
        ≡ contains t (find_forward_listener listeners port).targets)
    (ran : (ensure_load_balancer_backends E tx_config service nodes w).0 ≡ ok tt)
    (none_failed : NoneFailed L (ensure_load_balancer_backends E tx_config service nodes w).1) where
  -- The instances that the run looked up, which have become the targets.
  record Reached : Type 0 where
    instances : List Instance
    got :
        (get_instance_by_instance_private_ips E tx_config (node_lan_ips service nodes) w1).0
        ≡ ok instances
    serve : All (Serves tx_config (node_lan_ips service nodes)) instances
    targets :
        (t : Target)
        → contains t (targets_after E tx_config L service nodes lb listener_id w)
          ≡ has_instance port instances t

  reached : Reached
  reached =
      let whole =
        ensure_load_balancer_backends_found E tx_config S service nodes lb w w1 uid found in
      let d =
        ensure_backends_of-Looped E tx_config S service lb.load_balancer_id
          (node_lan_ips service nodes) w1 listeners
          (found-IsCoherent E tx_config S service lb w w1 h found) told
          (same_outcome (sym whole) ∙ ran) in
      let run : ensure_load_balancer_backends E tx_config service nodes w
          ≡ both_loops E tx_config lb.load_balancer_id d.found listeners (before ++ (port ∷ after))
              (told_targets E tx_config (node_lan_ips service nodes) w1 lb) =
        whole
        ∙ d.run
        ∙ ap
            (λ ps.
              both_loops E tx_config lb.load_balancer_id d.found listeners ps
                (told_targets E tx_config (node_lan_ips service nodes) w1 lb))
            ports in
      record {
        instances = d.found;
        got = d.got;
        serve = d.serve;
        targets = λ t.
            ap
              (λ (p : Outcome (Unit {0}) × E.World).
                contains t (targets_of L p.1 lb.load_balancer_id listener_id))
              run
            ∙ both_loops-targets_of E tx_config L lb.load_balancer_id listener_id d.found listeners
                port before after _ e a b same (same_outcome (sym run) ∙ ran)
                (ap (λ (p : Outcome (Unit {0}) × E.World). L.tasks.has_failed p.1) (sym run)
                  ∙ none_failed)
                t;
      }

  -- For a service of Tencent Cloud where accepted requests on targets take effect once their task
  -- succeeds, a coherent cache, a service whose uid has eight bytes, a balancer that is found, and
  -- an answer of DescribeTargets that tells the targets of a listener which serves exactly one of
  -- the ports: if ensureLoadBalancerBackends returns with no error and no task answered that it
  -- failed, then the listener's targets are exactly some instances at the port's node port, and
  -- each of these instances belongs to the VPC and has the name of a labelled node among its
  -- private addresses.
  pub ensure_load_balancer_backends-targets_of :
      AreBackends tx_config port
        (node_lan_ips service nodes)
        (targets_after E tx_config L service nodes lb listener_id w)
  ensure_load_balancer_backends-targets_of = (reached.instances, reached.serve, reached.targets)

  -- For a service of Tencent Cloud where accepted requests on targets take effect once their task
  -- succeeds, a coherent cache, a service whose uid has eight bytes, a balancer that is found,
  -- and an answer of DescribeTargets that tells the targets of a listener which serves exactly
  -- one of the ports: if ensureLoadBalancerBackends returns with no error and no task answered
  -- that it failed, then for each name of a labelled node that is an address of an instance of
  -- the VPC, as DescribeInstances tells when it is asked for the address, an instance of the VPC
  -- with the address is a target of the listener at the port's node port.
  pub ensure_load_balancer_backends-contains :
      (ip : String) (F : Findable E tx_config ip)
      → F.stands w1
      → contains ip (node_lan_ips service nodes) ≡ true
      → (i : Instance) × HasIp tx_config ip i
        × (contains (target_of port i) (targets_after E tx_config L service nodes lb listener_id w)
            ≡ true)
  ensure_load_balancer_backends-contains ip F there asked =
      let (i, has, at_port) = some_instance port (HasIp tx_config ip) reached.instances (
        get_instance_by_instance_private_ips-HasIp E S tx_config (node_lan_ips service nodes) ip F
          w1 reached.instances (found-IsCoherent E tx_config S service lb w w1 h found) there asked
          reached.got) in
      (i, has, reached.targets (target_of port i) ∙ at_port)
