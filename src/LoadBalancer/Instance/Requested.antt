-- ===== src/LoadBalancer/Instance/Requested.antt =====
-- pkg/tencentcloud/tencentcloud_loadbalancer.go: the request of createLoadBalancer and the search of
-- getLoadBalancer.
use cloud_provider_tencent.Go.Exec.Inversion.{value_inj}
use cloud_provider_tencent.Base.{
  ◌≡◌, ◌∙◌, refl, sym, ap, subst, none, some, inl, inr, Option, String,
}
use cloud_provider_tencent.Go.Exec.{value}
use cloud_provider_tencent.Sdk.{
  LoadBalancer, Service, CreateLoadBalancerRequest, DescribeLoadBalancersRequest,
}
use cloud_provider_tencent.Cloud.{TxCloudConfig}
use cloud_provider_tencent.LoadBalancer.Annotations.{
  DesiredType, public, private, get_lb_tags, get_load_balancer_filter,
}
use cloud_provider_tencent.LoadBalancer.Instance.{create_request}
use cloud_provider_tencent.LoadBalancer.Instance.Matching.{Matches}
use cloud_provider_tencent.LoadBalancer.Instance.Laws.{Selects, IsMadeFor}

-- The search that getLoadBalancer makes for the balancer of a service.
abbrev pub search_for : String → Service → DescribeLoadBalancersRequest
search_for name service = record {
  load_balancer_name = name;
  filters = get_load_balancer_filter service;
}

-- The request of createLoadBalancer is one that the search selects, and a balancer made for it is
-- one that the service wants.
pub create_request-Selects :
    (tx_config : TxCloudConfig) (name : String) (service : Service) (kind : DesiredType)
    (subnet : Option String) (r : CreateLoadBalancerRequest)
    → create_request tx_config name service kind subnet ≡ value r
    → Selects (search_for name service) r
unfolding create_request get_load_balancer_filter get_lb_tags
create_request-Selects tx_config name service public subnet r e =
    subst (Selects (search_for name service)) (value_inj e) (refl, (inr (inl (refl, inl refl)), tt))
create_request-Selects tx_config name service private none r e = absurd (cc)
create_request-Selects tx_config name service private (some subnet) r e =
    subst (Selects (search_for name service)) (value_inj e) (refl, (inr (inl (refl, inl refl)), tt))

pub create_request-Matches :
    (tx_config : TxCloudConfig) (name : String) (service : Service) (kind : DesiredType)
    (subnet : Option String) (r : CreateLoadBalancerRequest) (lb : LoadBalancer)
    → create_request tx_config name service kind subnet ≡ value r
    → IsMadeFor r lb
    → Matches tx_config lb kind subnet
unfolding create_request
create_request-Matches tx_config name service public subnet r lb e (t, v, _) =
    let same = value_inj e in
    (
      t ∙ ap (λ (x : CreateLoadBalancerRequest). x.load_balancer_type) (sym same),
      v ∙ ap (λ (x : CreateLoadBalancerRequest). x.vpc_id) (sym same),
    )
create_request-Matches tx_config name service private none r lb e m = absurd (cc)
create_request-Matches tx_config name service private (some subnet) r lb e (t, v, s) =
    let same = value_inj e in
    (
      t ∙ ap (λ (x : CreateLoadBalancerRequest). x.load_balancer_type) (sym same),
      v ∙ ap (λ (x : CreateLoadBalancerRequest). x.vpc_id) (sym same),
      ap (λ x. some x) (s subnet (ap (λ (x : CreateLoadBalancerRequest). x.subnet_id) (sym same))),
    )
