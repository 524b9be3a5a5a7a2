-- ===== src/Instances/Lookup.antt =====
-- pkg/tencentcloud/instances.go: how an instance is found, by private address, id or provider id.
use cloud_provider_tencent.Base.{
  not, Option, none, some, List, [], ◌∷◌, ◌++◌, String, string_eq, ◌==◌, contains, if◌then◌else◌,
}
use cloud_provider_tencent.Go.Strings.{bytes, trim_prefix, split}
use cloud_provider_tencent.Go.Sort.{sort_strings}
use cloud_provider_tencent.Go.Errors.{instance_not_found, new}
use cloud_provider_tencent.Go.Exec.{Exec, pure, raise, panics, ◌>>=◌, ◌>>◌}
use cloud_provider_tencent.Sdk.{
  Instance, CacheValue, instance_value, load_balancer_value, listeners_value,
}
use cloud_provider_tencent.Sdk.Env.{Env, call}
use cloud_provider_tencent.Cache
use cloud_provider_tencent.Cloud.{TxCloudConfig, provider_name}
use cloud_provider_tencent.Common.{is_exist}
use cloud_provider_tencent.Batch.{in_batches}

abbrev pub cache_name_pre_vm_ip : String
cache_name_pre_vm_ip = bytes "vm_ip_"

abbrev pub cache_name_pre_vm_id : String
cache_name_pre_vm_id = bytes "vm_id_"

-- The first instance that has the address.
unfoldable pub find_by_ip : String → List Instance → Option Instance
find_by_ip ip [] = none
find_by_ip ip (i ∷ is) = if contains ip i.private_ip_addresses then some i else find_by_ip ip is

-- The first instance of the VPC with the id.
unfoldable pub find_by_id : String → String → List Instance → Option Instance
find_by_id vpc id [] = none
find_by_id vpc id (i ∷ is) =
    let rest = find_by_id vpc id is in
    if not (i.vpc_id == vpc) then rest else if id == i.instance_id then some i else rest

module _ {W : Type 0} where
  -- cacheValue.(*cvm.Instance)
  unfoldable pub as_instance : CacheValue → Exec W Instance
  as_instance (instance_value i) = pure i
  as_instance (load_balancer_value _) = panics
  as_instance (listeners_value _) = panics

  -- A search that ends in InstanceNotFound.
  unfoldable pub or_instance_not_found : Option Instance → Exec W Instance
  or_instance_not_found none = raise instance_not_found
  or_instance_not_found (some i) = pure i

module _ (E : Env) (tx_config : TxCloudConfig) where
  -- The first loop of getInstanceByInstancePrivateIps: the addresses that the cache lacks, and the
  -- instances that it has.
  unfoldable pub scan_cache :
      List String → List String → List Instance → Exec E.World (List String × List Instance)
  scan_cache [] ips instances = pure (ips, instances)
  scan_cache (ip ∷ private_ips) ips instances =
      Cache.get E (cache_name_pre_vm_ip ++ ip) >>= λ cache_value. elim cache_value [
        | some v ↦ as_instance v >>= λ i. scan_cache private_ips ips (instances ++ (i ∷ []))
        | none ↦ scan_cache private_ips (ips ++ (ip ∷ [])) instances
      ]

  -- The innermost loop, over the addresses of one instance: each requested address is cached and
  -- appends the instance.
  unfoldable pub collect_addresses :
      List String → Instance → List String → List Instance → Exec E.World (List Instance)
  collect_addresses ips i [] instances = pure instances
  collect_addresses ips i (private_ip ∷ addresses) instances =
      let hit =
        Cache.set E (cache_name_pre_vm_ip ++ private_ip) (instance_value i)
        >> collect_addresses ips i addresses (instances ++ (i ∷ [])) in
      let miss = collect_addresses ips i addresses instances in
      if is_exist private_ip ips then hit else miss

  -- The loop over response.Response.InstanceSet, which skips other VPCs.
  unfoldable pub collect_instances :
      List String → List Instance → List Instance → Exec E.World (List Instance)
  collect_instances ips [] instances = pure instances
  collect_instances ips (i ∷ set) instances =
      let skip = collect_instances ips set instances in
      let take =
        collect_addresses ips i i.private_ip_addresses instances >>= collect_instances ips set in
      if not (i.vpc_id == tx_config.vpc_id) then skip else take

  -- One request for a batch of addresses.
  unfoldable pub request_instances :
      List String → List String → List Instance → Exec E.World (List Instance)
  request_instances ips request_ips instances = do
    set ← call (
        E.describe_instances
          (record { name = bytes "private-ip-address"; values = request_ips } ∷ []))
    collect_instances ips set instances

  -- getInstanceByInstancePrivateIps
  unfoldable pub get_instance_by_instance_private_ips : List String → Exec E.World (List Instance)
  get_instance_by_instance_private_ips private_ips =
      scan_cache private_ips [] [] >>= λ (missing, instances).
      let ips = sort_strings missing in in_batches 5 (request_instances ips) ips instances

  -- getInstanceByInstancePrivateIp
  unfoldable pub get_instance_by_instance_private_ip : String → Exec E.World Instance
  get_instance_by_instance_private_ip private_ip =
      Cache.get E (cache_name_pre_vm_ip ++ private_ip) >>= λ cache_value. elim cache_value [
        | some v ↦ as_instance v
        | none ↦ get_instance_by_instance_private_ips (private_ip ∷ []) >>= λ instances.
            or_instance_not_found (find_by_ip private_ip instances)
      ]

  -- The search of getInstanceByInstanceID, which caches what it finds.
  unfoldable pub keep_found : String → Option Instance → Exec E.World Instance
  keep_found cache_key none = raise instance_not_found
  keep_found cache_key (some i) = do Cache.set E cache_key (instance_value i); pure i

  -- getInstanceByInstanceID
  unfoldable pub get_instance_by_instance_id : String → Exec E.World Instance
  get_instance_by_instance_id instance_id =
      let cache_key = cache_name_pre_vm_id ++ instance_id in
      Cache.get E cache_key >>= λ cache_value. elim cache_value [
        | some v ↦ as_instance v
        | none ↦
            call (
              E.describe_instances
                (record { name = bytes "instance-id"; values = instance_id ∷ [] } ∷ []))
            >>= λ set. keep_found cache_key (find_by_id tx_config.vpc_id instance_id set)
      ]

  -- The parts of a provider id, of which the third is the instance id.
  unfoldable pub get_instance_by_parts : String → List String → Exec E.World Instance
  get_instance_by_parts provider_id (_ ∷ _ ∷ id ∷ []) = get_instance_by_instance_id id
  get_instance_by_parts provider_id _ =
      raise (new (bytes "invalid format for providerId " ++ provider_id))

  -- getInstanceByProviderID
  unfoldable pub get_instance_by_provider_id : String → Exec E.World Instance
  get_instance_by_provider_id provider_id =
      get_instance_by_parts provider_id
        (split (trim_prefix provider_id (provider_name ++ bytes "://")) b'/')
