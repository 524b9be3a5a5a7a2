-- ===== src/LoadBalancer/Annotations.antt =====
-- pkg/tencentcloud/tencentcloud_loadbalancer.go: what is read off a service, with the defaults.
pub mod Health
use cloud_provider_tencent.Base.{
  not, ◌&&◌, Option, none, some, List, [], ◌∷◌, ◌++◌, String, string_eq, ◌==◌, get, ℤ, pos,
  if◌then◌else◌,
}
use cloud_provider_tencent.Go.Strings.{bytes}
use cloud_provider_tencent.Go.Strconv.{parse_int}
use cloud_provider_tencent.Sdk.{Service, HealthCheck, Filter, TagInfo}
use cloud_provider_tencent.Cloud.{TxCloudConfig}

abbrev pub service_annotation_load_balancer_type : String
service_annotation_load_balancer_type =
    bytes "service.beta.kubernetes.io/tencentcloud-loadbalancer-type"

abbrev pub service_annotation_load_balancer_type_internal_subnet_id : String
service_annotation_load_balancer_type_internal_subnet_id =
    bytes "service.beta.kubernetes.io/tencentcloud-loadbalancer-type-internal-subnet-id"

abbrev pub service_annotation_load_balancer_node_label_key : String
service_annotation_load_balancer_node_label_key =
    bytes "service.beta.kubernetes.io/tencentcloud-loadbalancer-node-label-key"

abbrev pub service_annotation_load_balancer_node_label_value : String
service_annotation_load_balancer_node_label_value =
    bytes "service.beta.kubernetes.io/tencentcloud-loadbalancer-node-label-value"

abbrev pub service_annotation_load_balancer_health_check_switch : String
service_annotation_load_balancer_health_check_switch =
    bytes "service.beta.kubernetes.io/tencentcloud-loadbalancer-health-check-switch"

abbrev pub service_annotation_load_balancer_health_check_timeout : String
service_annotation_load_balancer_health_check_timeout =
    bytes "service.beta.kubernetes.io/tencentcloud-loadbalancer-health-check-timeout"

abbrev pub service_annotation_load_balancer_health_check_interval_time : String
service_annotation_load_balancer_health_check_interval_time =
    bytes "service.beta.kubernetes.io/tencentcloud-loadbalancer-health-check-interval-time"

abbrev pub service_annotation_load_balancer_health_check_health_num : String
service_annotation_load_balancer_health_check_health_num =
    bytes "service.beta.kubernetes.io/tencentcloud-loadbalancer-health-check-health-num"

abbrev pub service_annotation_load_balancer_health_check_un_health_num : String
service_annotation_load_balancer_health_check_un_health_num =
    bytes "service.beta.kubernetes.io/tencentcloud-loadbalancer-health-check-un-health-num"

abbrev pub load_balancer_type_public : String
load_balancer_type_public = bytes "public"

abbrev pub load_balancer_type_private : String
load_balancer_type_private = bytes "private"

abbrev pub clb_load_balancer_type_public : String
clb_load_balancer_type_public = bytes "OPEN"

abbrev pub clb_load_balancer_type_private : String
clb_load_balancer_type_private = bytes "INTERNAL"

abbrev pub clb_tag_service_key : String
clb_tag_service_key = bytes "k8s-service-id"

abbrev pub node_label_key_of_load_balancer_default : String
node_label_key_of_load_balancer_default = bytes "kubernetes.io/role"

abbrev pub node_label_value_of_load_balancer_default : String
node_label_value_of_load_balancer_default = bytes "node"

-- The two kinds that the switch over loadBalancerDesiredType tells apart.
pub data DesiredType : Type 0 where
  public private : DesiredType

desired_type_of : Option String → DesiredType
desired_type_of none = private
desired_type_of (some t) =
    if not (t == load_balancer_type_private) && not (t == load_balancer_type_public)
    then private
    else if t == load_balancer_type_public
    then public
    else private

-- loadBalancerDesiredType: private unless the annotation says public.
unfoldable pub desired_type : Service → DesiredType
unfolding desired_type_of
desired_type service =
    desired_type_of (get service_annotation_load_balancer_type service.annotations)

-- An annotation with a default.
annotation_or : Service → String → String → String
annotation_or service key default = elim (get key service.annotations) [
  | some v ↦ v
  | none ↦ default
]

-- getNodeLabelKey
unfoldable pub get_node_label_key : Service → String
unfolding annotation_or
get_node_label_key service =
    annotation_or service service_annotation_load_balancer_node_label_key
      node_label_key_of_load_balancer_default

-- getNodeLabelValue
unfoldable pub get_node_label_value : Service → String
unfolding annotation_or
get_node_label_value service =
    annotation_or service service_annotation_load_balancer_node_label_value
      node_label_value_of_load_balancer_default

-- `if ok { x, _ = strconv.ParseInt(s, 10, 64) }`
unfoldable pub int_annotation_or : Service → String → ℤ → ℤ
int_annotation_or service key default = elim (get key service.annotations) [
  | some s ↦ (parse_int s).0
  | none ↦ default
]

-- buildHealthCheck
unfoldable pub build_health_check : Service → HealthCheck
unfolding int_annotation_or
build_health_check service = record {
  health_switch =
      int_annotation_or service service_annotation_load_balancer_health_check_switch (pos 1);
  source_ip_type = pos 1;
  time_out =
      int_annotation_or service service_annotation_load_balancer_health_check_timeout (pos 2);
  interval_time =
      int_annotation_or service service_annotation_load_balancer_health_check_interval_time (pos 5);
  health_num =
      int_annotation_or service service_annotation_load_balancer_health_check_health_num (pos 3);
  un_health_num =
      int_annotation_or service service_annotation_load_balancer_health_check_un_health_num (pos 3);
}

-- getLoadBalancerFilter
unfoldable pub get_load_balancer_filter : Service → List Filter
get_load_balancer_filter service =
    record { name = bytes "tag:" ++ clb_tag_service_key; values = service.uid ∷ [] } ∷ []

-- getLBTags
unfoldable pub get_lb_tags : TxCloudConfig → Service → List TagInfo
get_lb_tags tx_config service =
    record { tag_key = tx_config.tag_key; tag_value = tx_config.clb_name_prefix }
    ∷ record { tag_key = clb_tag_service_key; tag_value = service.uid }
    ∷ []
