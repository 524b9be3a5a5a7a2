-- ===== src/Cloud.antt =====
-- pkg/tencentcloud/cloud.go: the configuration and its checks, and the interfaces that the provider
-- offers. What the clients and the cache do is the parameter `Env`.
pub mod Settings
pub mod Provider
use cloud_provider_tencent.Base.{
  Bool, true, false, Option, none, some, [], String, string_eq, ◌==◌, if◌then◌else◌,
}
use cloud_provider_tencent.Go.Strings.{bytes, trim_space}
use cloud_provider_tencent.Go.Errors.{Error, new}
use cloud_provider_tencent.Go.Exec.{Result, value, error}

pub record TxCloudConfig : Type 0 where
  pub region : String
  pub vpc_id : String
  pub clb_name_prefix : String
  pub tag_key : String
  pub secret_id : String
  pub secret_key : String
  pub cluster_route_table : String

abbrev pub provider_name : String
provider_name = bytes "tencentcloud"

-- `var c TxCloudConfig`
abbrev pub zero_config : TxCloudConfig
zero_config = record {
  region = [];
  vpc_id = [];
  clb_name_prefix = [];
  tag_key = [];
  secret_id = [];
  secret_key = [];
  cluster_route_table = [];
}

is_blank : String → Bool
is_blank s = trim_space s == []

-- checkConfig: the first setting that is blank.
unfoldable pub check_config : TxCloudConfig → Option Error
unfolding is_blank
check_config c =
    if is_blank c.region
    then some (new (bytes "'Region' config is null"))
    else if is_blank c.vpc_id
    then some (new (bytes "'VpcId' config is null"))
    else if is_blank c.tag_key
    then some (new (bytes "'TagKey' config is null"))
    else if is_blank c.clb_name_prefix
    then some (new (bytes "'CLBNamePrefix' config is null"))
    else if is_blank c.secret_id
    then some (new (bytes "'SecretId' config is null"))
    else if is_blank c.secret_key
    then some (new (bytes "'SecretKey' config is null"))
    else if is_blank c.cluster_route_table
    then some (new (bytes "'ClusterRouteTable' config is null"))
    else none

or_env : (String → String) → String → String → String
or_env getenv setting name = if setting == [] then getenv name else setting

-- The settings that the configuration leaves empty come from the environment.
unfoldable pub fill_from_env : (String → String) → TxCloudConfig → TxCloudConfig
unfolding or_env
fill_from_env getenv c = record {
  region = or_env getenv c.region (bytes "TENCENTCLOUD_CLOUD_CONTROLLER_MANAGER_REGION");
  vpc_id = or_env getenv c.vpc_id (bytes "TENCENTCLOUD_CLOUD_CONTROLLER_MANAGER_VPC_ID");
  clb_name_prefix =
      or_env getenv c.clb_name_prefix
        (bytes "TENCENTCLOUD_CLOUD_CONTROLLER_MANAGER_CLB_NAME_PREFIX");
  tag_key = or_env getenv c.tag_key (bytes "TENCENTCLOUD_CLOUD_CONTROLLER_MANAGER_CLB_TAG_KEY");
  secret_id = or_env getenv c.secret_id (bytes "TENCENTCLOUD_CLOUD_CONTROLLER_MANAGER_SECRET_ID");
  secret_key =
      or_env getenv c.secret_key (bytes "TENCENTCLOUD_CLOUD_CONTROLLER_MANAGER_SECRET_KEY");
  cluster_route_table =
      or_env getenv c.cluster_route_table
        (bytes "TENCENTCLOUD_CLOUD_CONTROLLER_MANAGER_CLUSTER_ROUTE_TABLE");
}

checked : TxCloudConfig → Option Error → Result TxCloudConfig
checked c none = value c
checked c (some e) = error e

-- NewCloud. `config` is nil or what reading and decoding it gives; ioutil.ReadAll and
-- json.Unmarshal work on the reader of the caller and are taken together as its result.
unfoldable pub new_cloud : (String → String) → Option (Result TxCloudConfig) → Result TxCloudConfig
unfolding checked
new_cloud getenv (some (error e)) = error e
new_cloud getenv (some (value c)) =
    let filled = fill_from_env getenv c in checked filled (check_config filled)
new_cloud getenv none =
    let filled = fill_from_env getenv zero_config in checked filled (check_config filled)

-- The interfaces of the provider, in the order of cloudProvider.Interface.
pub data Capability : Type 0 where
  load_balancer instances zones clusters routes : Capability

-- LoadBalancer, Instances, Zones, Clusters and Routes: whether each is supported.
unfoldable pub is_supported : Capability → Bool
is_supported load_balancer = true
is_supported instances = true
is_supported zones = false
is_supported clusters = false
is_supported routes = true

-- HasClusterID
abbrev pub has_cluster_id : Bool
has_cluster_id = false
