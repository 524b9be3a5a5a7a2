-- ===== src/LoadBalancer/Instance/Matching.antt =====
-- pkg/tencentcloud/tencentcloud_loadbalancer.go: when ensureLoadBalancerInstance leaves a balancer
-- alone.
use cloud_provider_tencent.Base.{
  ◌≤◌, ◌≡◌, refl, false, Option, none, some, String, string_eq, string_beq_iff, ◌↔◌, length, arith,
}
use cloud_provider_tencent.Go.Exec.{ok, value, ◌>>=◌}
use cloud_provider_tencent.Sdk.{LoadBalancer, Service}
use cloud_provider_tencent.Sdk.Env.{Env}
use cloud_provider_tencent.Cloud.{TxCloudConfig}
use cloud_provider_tencent.LoadBalancer.Annotations.{
  DesiredType, public, private, desired_type, clb_load_balancer_type_public,
  clb_load_balancer_type_private,
}
use cloud_provider_tencent.LoadBalancer.Lookup.{
  full_name, get_load_balancer_name, get_load_balancer,
}
use cloud_provider_tencent.LoadBalancer.Name.{short_name, shorten_ok}
use cloud_provider_tencent.LoadBalancer.Instance.{
  subnet_of, need_recreate, recreate, ensure_found, ensure_load_balancer_instance,
}

-- The balancer is of the kind that the service asks for, in the VPC of the configuration and, if it
-- is private, in the subnet that the service names.
abbrev pub Matches : TxCloudConfig → LoadBalancer → DesiredType → Option String → Type 0
Matches tx_config lb public subnet =
    (lb.load_balancer_type ≡ clb_load_balancer_type_public) × (lb.vpc_id ≡ tx_config.vpc_id)
Matches tx_config lb private subnet =
    (lb.load_balancer_type ≡ clb_load_balancer_type_private)
    × (lb.vpc_id ≡ tx_config.vpc_id)
    × (some lb.subnet_id ≡ subnet)

-- ensureLoadBalancerInstance keeps a balancer, without an error, exactly when it has the kind that the
-- service asks for, lies in the VPC of the configuration and, if it is private, in the subnet that the
-- service names.
pub need_recreate_iff :
    (tx_config : TxCloudConfig) (lb : LoadBalancer) (kind : DesiredType) (subnet : Option String)
    → (need_recreate tx_config lb kind subnet ≡ value false) ↔ Matches tx_config lb kind subnet
unfolding need_recreate
need_recreate_iff tx_config lb public subnet = ground (
  arith,
  string_beq_iff lb.load_balancer_type clb_load_balancer_type_public,
  string_beq_iff lb.vpc_id tx_config.vpc_id,
)
need_recreate_iff tx_config lb private none = ground arith
need_recreate_iff tx_config lb private (some subnet) = ground (
  arith,
  string_beq_iff lb.load_balancer_type clb_load_balancer_type_private,
  string_beq_iff lb.vpc_id tx_config.vpc_id,
  string_beq_iff lb.subnet_id subnet,
)

module _ (E : Env) (tx_config : TxCloudConfig) (service : Service) where
  -- The name under which the balancer of the service is looked for.
  abbrev pub name_of : String
  name_of = short_name (full_name tx_config service) service.uid

  -- If the uid of the service has eight bytes and the search by name finds a balancer that matches
  -- the service, ensureLoadBalancerInstance succeeds and does nothing after the search.
  pub ensure_load_balancer_instance_matching :
      (w w' : E.World) (lb : LoadBalancer)
      → 8 ≤ length service.uid
      → get_load_balancer E tx_config name_of service w ≡ (ok lb, w')
      → Matches tx_config lb (desired_type service) (subnet_of service)
      → ensure_load_balancer_instance E tx_config service w ≡ (ok tt, w')
  unfolding ensure_load_balancer_instance ensure_found recreate get_load_balancer_name ◌>>=◌
  ensure_load_balancer_instance_matching w w' lb uid found m =
      rw (shorten_ok (full_name tx_config service) service.uid w uid) (
        rw found (
          rw ((need_recreate_iff tx_config lb (desired_type service) (subnet_of service)).1 m)
            refl))
