-- ===== src/Sdk.antt =====
-- What the program gets from outside: the Tencent Cloud SDK, the Kubernetes objects and client-go's
-- TTL store. The structures keep the fields that the program reads or fills. A pointer that the
-- program follows without a test is a plain field, since the service documents it as present; the
-- one pointer that is tested against nil, ListenerBackend.ListenerId, is an Option.
pub mod Env
pub mod Laws
use cloud_provider_tencent.Base.{Bool, List, Option, String, ℤ}
use cloud_provider_tencent.Go.Errors.{ApiError}

-- cvm.Instance, with Placement.Zone and VirtualPrivateCloud.VpcId
pub record Instance : Type 0 where
  pub instance_id : String
  pub instance_type : String
  pub instance_state : String
  pub zone : String
  pub vpc_id : String
  pub private_ip_addresses : List String
  pub public_ip_addresses : List String

-- cvm.Filter and clb.Filter
pub record Filter : Type 0 where
  pub name : String
  pub values : List String

-- clb.LoadBalancer
pub record LoadBalancer : Type 0 where
  pub load_balancer_id : String
  pub load_balancer_name : String
  pub load_balancer_type : String
  pub vpc_id : String
  pub subnet_id : String
  pub load_balancer_vips : List String

-- clb.Listener
pub record Listener : Type 0 where
  pub listener_id : String
  pub port : ℤ
  pub protocol : String

-- clb.Backend and clb.Target, of which the program uses the same two fields
pub record Target : Type 0 where
  pub instance_id : String
  pub port : ℤ

-- clb.ListenerBackend
pub record ListenerBackend : Type 0 where
  pub listener_id : Option String
  pub port : ℤ
  pub protocol : String
  pub targets : List Target

-- clb.HealthCheck
pub record HealthCheck : Type 0 where
  pub health_switch : ℤ
  pub source_ip_type : ℤ
  pub time_out : ℤ
  pub interval_time : ℤ
  pub health_num : ℤ
  pub un_health_num : ℤ

-- clb.TagInfo
pub record TagInfo : Type 0 where
  pub tag_key : String
  pub tag_value : String

pub record DescribeLoadBalancersRequest : Type 0 where
  pub load_balancer_name : String
  pub filters : List Filter

pub record CreateLoadBalancerRequest : Type 0 where
  pub load_balancer_type : String
  pub load_balancer_name : String
  pub vpc_id : String
  pub subnet_id : Option String
  pub tags : List TagInfo
  pub load_balancer_pass_to_target : Bool

pub record CreateListenerRequest : Type 0 where
  pub load_balancer_id : String
  pub ports : List ℤ
  pub protocol : String
  pub listener_names : List String
  pub health_check : HealthCheck

pub record DeleteListenerRequest : Type 0 where
  pub load_balancer_id : String
  pub listener_id : String

-- clb.RegisterTargetsRequest and clb.DeregisterTargetsRequest
pub record TargetsRequest : Type 0 where
  pub load_balancer_id : String
  pub listener_id : String
  pub targets : List Target

-- tke.RouteInfo
pub record RouteInfo : Type 0 where
  pub gateway_ip : String
  pub destination_cidr_block : String

-- tke.CreateClusterRouteRequest and tke.DeleteClusterRouteRequest
pub record ClusterRouteRequest : Type 0 where
  pub route_table_name : String
  pub gateway_ip : String
  pub destination_cidr_block : String

-- v1.ServicePort
pub record ServicePort : Type 0 where
  pub name : String
  pub protocol : String
  pub port : ℤ
  pub node_port : ℤ

-- v1.Service
pub record Service : Type 0 where
  pub namespace : String
  pub name : String
  pub uid : String
  pub annotations : List (String × String)
  pub session_affinity : String
  pub ports : List ServicePort

-- v1.Node
pub record Node : Type 0 where
  pub name : String
  pub labels : List (String × String)

-- What the cache holds: the three types that the program puts behind `interface{}`.
pub data CacheValue : Type 0 where
  instance_value : Instance → CacheValue
  load_balancer_value : LoadBalancer → CacheValue
  listeners_value : List Listener → CacheValue

-- The answer of a client: a response or an error.
pub data Answer (A : Type 0) : Type 0 where
  reply : A → Answer A
  fail : ApiError → Answer A
