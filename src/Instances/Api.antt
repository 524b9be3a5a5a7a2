-- ===== src/Instances/Api.antt =====
-- pkg/tencentcloud/instances.go: the methods of cloudProvider.Instances.
use cloud_provider_tencent.Base.{
  Bool, true, false, not, Option, none, some, List, ◌++◌, map, String, string_eq, ◌==◌,
  if◌then◌else◌,
}
use cloud_provider_tencent.Go.Strings.{bytes}
use cloud_provider_tencent.Go.Errors.{Error, not_implemented, is_instance_not_found}
use cloud_provider_tencent.Go.Exec.{Exec, Result, value, error, pure, raise, attempt, ◌>>=◌}
use cloud_provider_tencent.Sdk.{Instance}
use cloud_provider_tencent.Sdk.Env.{Env}
use cloud_provider_tencent.Cloud.{TxCloudConfig}
use cloud_provider_tencent.Instances.Lookup.{
  get_instance_by_instance_private_ip, get_instance_by_provider_id,
}

-- v1.NodeAddress
pub data AddressType : Type 0 where
  internal_ip external_ip : AddressType

pub record NodeAddress : Type 0 where
  pub type : AddressType
  pub address : String

-- The loops that fill `addresses`.
unfoldable pub node_addresses_of : Instance → List NodeAddress
node_addresses_of i =
    map (λ ip. record { type = internal_ip; address = ip }) i.private_ip_addresses
    ++ map (λ ip. record { type = external_ip; address = ip }) i.public_ip_addresses

-- fmt.Sprintf("/%s/%s", zone, id)
unfoldable pub instance_id_of : Instance → String
instance_id_of i = bytes "/" ++ (i.zone ++ (bytes "/" ++ i.instance_id))

-- The answer of InstanceExistsByProviderID, which gives a Boolean beside an error.
unfoldable pub exists_of : Result Instance → Bool × Option Error
exists_of (value _) = (true, none)
exists_of (error e) = if is_instance_not_found e then (false, some e) else (true, some e)

-- The answer of InstanceShutdownByProviderID.
unfoldable pub shutdown_of : Result Instance → Bool × Option Error
shutdown_of (value i) = (not (i.instance_state == bytes "RUNNING"), none)
shutdown_of (error e) = (false, some e)

module _ (E : Env) (tx_config : TxCloudConfig) where
  -- NodeAddresses
  unfoldable pub node_addresses : String → Exec E.World (List NodeAddress)
  node_addresses name = do
    node ← get_instance_by_instance_private_ip E tx_config name
    pure (node_addresses_of node)

  -- NodeAddressesByProviderID
  unfoldable pub node_addresses_by_provider_id : String → Exec E.World (List NodeAddress)
  node_addresses_by_provider_id provider_id = do
    instance ← get_instance_by_provider_id E tx_config provider_id
    pure (node_addresses_of instance)

  -- ExternalID
  unfoldable pub external_id : String → Exec E.World String
  external_id node_name = do
    node ← get_instance_by_instance_private_ip E tx_config node_name
    pure node.instance_id

  -- InstanceID
  unfoldable pub instance_id : String → Exec E.World String
  instance_id node_name = do
    node ← get_instance_by_instance_private_ip E tx_config node_name
    pure (instance_id_of node)

  -- InstanceType
  unfoldable pub instance_type : String → Exec E.World String
  instance_type name = do
    node ← get_instance_by_instance_private_ip E tx_config name
    pure node.instance_type

  -- InstanceTypeByProviderID
  unfoldable pub instance_type_by_provider_id : String → Exec E.World String
  instance_type_by_provider_id provider_id = do
    instance ← get_instance_by_provider_id E tx_config provider_id
    pure instance.instance_type

  -- AddSSHKeyToAllInstances
  unfoldable pub add_ssh_key_to_all_instances : String → String → Exec E.World (Unit {0})
  add_ssh_key_to_all_instances user key_data = raise not_implemented

  -- CurrentNodeName
  unfoldable pub current_node_name : String → Exec E.World String
  current_node_name hostname = raise not_implemented

  -- InstanceExistsByProviderID
  unfoldable pub instance_exists_by_provider_id : String → Exec E.World (Bool × Option Error)
  instance_exists_by_provider_id provider_id = do
    found ← attempt (get_instance_by_provider_id E tx_config provider_id)
    pure (exists_of found)

  -- InstanceShutdownByProviderID
  unfoldable pub instance_shutdown_by_provider_id : String → Exec E.World (Bool × Option Error)
  instance_shutdown_by_provider_id provider_id = do
    found ← attempt (get_instance_by_provider_id E tx_config provider_id)
    pure (shutdown_of found)
