-- ===== src/LoadBalancer/Backends/Found.antt =====
-- pkg/tencentcloud/tencentcloud_loadbalancer.go: ensureLoadBalancerBackends up to its two loops.
use cloud_provider_tencent.Base.{
  int_eq, ◌≡◌, ◌≤◌, ◌∙◌, refl, subst, List, [], ◌∷◌, String, length, string_eq, eq_refl, ◌==◌, keep,
  keep-All, All, All-mono, true,
}
use cloud_provider_tencent.Go.Exec.{Outcome, ok, raise, ◌>>=◌}
use cloud_provider_tencent.Go.Exec.Ensures.{Post}
use cloud_provider_tencent.Go.Exec.Inversion.{bind-ok}
use cloud_provider_tencent.Sdk.{Instance, Service, Node, LoadBalancer, ListenerBackend, reply}
use cloud_provider_tencent.Sdk.Env.{Env, call}
use cloud_provider_tencent.Sdk.Laws.{StoreLaws}
use cloud_provider_tencent.Cloud.{TxCloudConfig}
use cloud_provider_tencent.Instances.Lookup.{get_instance_by_instance_private_ips}
use cloud_provider_tencent.Coherence.{IsCoherent}
use cloud_provider_tencent.Coherence.Instances.{
  Serves, get_instance_by_instance_private_ips-Ensures,
}
use cloud_provider_tencent.Coherence.Balancers.{get_load_balancer-IsSafe}
use cloud_provider_tencent.LoadBalancer.Lookup.{
  full_name, get_load_balancer_name, get_load_balancer,
}
use cloud_provider_tencent.LoadBalancer.Name.{shorten_ok}
use cloud_provider_tencent.LoadBalancer.Instance.Matching.{name_of}
use cloud_provider_tencent.LoadBalancer.Backends.{
  node_lan_ips, both_loops, ensure_backends_of, ensure_load_balancer_backends,
}
use cloud_provider_tencent.LoadBalancer.Backends.Reconcile.{target_eq}

-- The world in which DescribeTargets is asked, and the one that it leaves.
module _ (E : Env) (tx_config : TxCloudConfig) (ips : List String) (w : E.World) where
  abbrev pub looked_up : E.World
  looked_up = (get_instance_by_instance_private_ips E tx_config ips w).1

  abbrev pub told_targets : LoadBalancer → E.World
  told_targets lb = (E.describe_targets lb.load_balancer_id looked_up).1

module _ (E : Env) (tx_config : TxCloudConfig) (S : StoreLaws E) (service : Service) where
  -- A run that returned found instances for the addresses, and went on to the two loops.
  pub record Looped (load_balancer_id : String) (ips : List String) (w : E.World)
      (listeners : List ListenerBackend) : Type 0 where
    pub found : List Instance
    pub got : (get_instance_by_instance_private_ips E tx_config ips w).0 ≡ ok found
    pub serve : All (Serves tx_config ips) found
    pub run :
        ensure_backends_of E tx_config service load_balancer_id ips w
        ≡ both_loops E tx_config load_balancer_id found listeners service.ports
            (E.describe_targets load_balancer_id (looked_up E tx_config ips w)).1

  own_vpc :
      (ips : List String) (found : List Instance)
      → All (Serves tx_config ips) found
      → keep (λ i. i.vpc_id == tx_config.vpc_id) found ≡ found
  own_vpc ips found a = keep-All _ found (
      All-mono (Serves tx_config ips) (λ i. (i.vpc_id == tx_config.vpc_id) ≡ true) found
        (λ i (_, _, (v, _)). rw v (eq_refl tx_config.vpc_id)) a)

  -- After the instances are found, with what DescribeTargets answers.
  told_loops :
      (load_balancer_id : String) (found : List Instance) (v : E.World)
      (listeners : List ListenerBackend)
      → keep (λ i. i.vpc_id == tx_config.vpc_id) found ≡ found
      → (E.describe_targets load_balancer_id v).0 ≡ reply listeners
      → (call (E.describe_targets load_balancer_id) >>= λ ls.
            both_loops E tx_config load_balancer_id
              (keep (λ i. i.vpc_id == tx_config.vpc_id) found)
              ls
              service.ports)
          v
        ≡ both_loops E tx_config load_balancer_id found listeners service.ports
            (E.describe_targets load_balancer_id v).1
  unfolding call ◌>>=◌
  told_loops load_balancer_id found v listeners own told = rw told (rw own refl)

  pub ensure_backends_of-Looped :
      (load_balancer_id : String) (ips : List String) (w : E.World)
      (listeners : List ListenerBackend)
      → IsCoherent E S tx_config w
      → (E.describe_targets load_balancer_id (looked_up E tx_config ips w)).0 ≡ reply listeners
      → (ensure_backends_of E tx_config service load_balancer_id ips w).0 ≡ ok tt
      → Looped load_balancer_id ips w listeners
  unfolding ensure_backends_of raise
  ensure_backends_of-Looped load_balancer_id [] w listeners h told ran = absurd (cc)
  ensure_backends_of-Looped load_balancer_id (ip ∷ ips) w listeners h told ran =
      let (found, got, run) =
        bind-ok (get_instance_by_instance_private_ips E tx_config (ip ∷ ips)) _ w tt ran in
      let serve =
        subst (Post (All (Serves tx_config (ip ∷ ips)))) got
          ((get_instance_by_instance_private_ips-Ensures E S tx_config (ip ∷ ips)).at w h).1 in
      record {
        found = found;
        got = got;
        serve = serve;
        run =
            run
            ∙ told_loops load_balancer_id found _ listeners (own_vpc (ip ∷ ips) found serve) told;
      }

  -- The method once the name and the balancer are found.
  pub ensure_load_balancer_backends_found :
      (nodes : List Node) (lb : LoadBalancer) (w w1 : E.World)
      → 8 ≤ length service.uid
      → get_load_balancer E tx_config (name_of E tx_config service) service w ≡ (ok lb, w1)
      → ensure_load_balancer_backends E tx_config service nodes w
        ≡ ensure_backends_of E tx_config service lb.load_balancer_id (node_lan_ips service nodes) w1
  unfolding ensure_load_balancer_backends get_load_balancer_name ◌>>=◌
  ensure_load_balancer_backends_found nodes lb w w1 uid found =
      rw (shorten_ok (full_name tx_config service) service.uid w uid) (rw found refl)

  pub found-IsCoherent :
      (lb : LoadBalancer) (w w1 : E.World)
      → IsCoherent E S tx_config w
      → get_load_balancer E tx_config (name_of E tx_config service) service w ≡ (ok lb, w1)
      → IsCoherent E S tx_config w1
  found-IsCoherent lb w w1 h found =
      subst (λ (p : Outcome LoadBalancer × E.World). IsCoherent E S tx_config p.1) found
        (((get_load_balancer-IsSafe E S tx_config (name_of E tx_config service) service).at w h).0)
