-- ===== src/Coherence/Single.antt =====
-- pkg/tencentcloud/instances.go over a coherent cache: the lookups of one instance, and the methods
-- of cloudProvider.Instances.
use cloud_provider_tencent.Base.{
  ◌≡◌, refl, none, some, List, [], ◌∷◌, ◌++◌, String, string_eq, string_beq_iff, ◌==◌, sym,
  Bool-cases, inl, inr,
}
use cloud_provider_tencent.Go.Exec.Ensures.{
  Ensures, Ensures-pure, Ensures-raise, Ensures-bind, Ensures-weaken,
}
use cloud_provider_tencent.Sdk.{Instance, instance_value}
use cloud_provider_tencent.Sdk.Env.{Env}
use cloud_provider_tencent.Sdk.Laws.{StoreLaws}
use cloud_provider_tencent.Cache
use cloud_provider_tencent.Cloud.{TxCloudConfig}
use cloud_provider_tencent.Instances.Lookup.{
  cache_name_pre_vm_ip, cache_name_pre_vm_id, find_by_id, get_instance_by_instance_private_ips,
  get_instance_by_instance_private_ip, keep_found, get_instance_by_instance_id,
  get_instance_by_parts, get_instance_by_provider_id,
}
use cloud_provider_tencent.Coherence.{
  HasIp, HasId, IsCoherent, Ensures-call, Ensures-get, Ensures-set,
}
use cloud_provider_tencent.Coherence.Keys.{as_instance-HasIp, as_instance-HasId}
use cloud_provider_tencent.Coherence.Instances.{
  find_by_ip-HasIp, get_instance_by_instance_private_ips-Ensures,
}

module _ (E : Env) (L : StoreLaws E) (tx_config : TxCloudConfig) where
  -- From a coherent cache getInstanceByInstancePrivateIp does not panic and leaves the cache
  -- coherent. The instance that it returns belongs to the VPC and has the address.
  pub get_instance_by_instance_private_ip-Ensures :
      (private_ip : String)
      → Ensures
          (IsCoherent E L tx_config)
          (HasIp tx_config private_ip)
          (get_instance_by_instance_private_ip E tx_config private_ip)
  unfolding get_instance_by_instance_private_ip
  get_instance_by_instance_private_ip-Ensures private_ip =
      Ensures-bind (Cache.get E (cache_name_pre_vm_ip ++ private_ip)) _
        (Ensures-get E L tx_config (cache_name_pre_vm_ip ++ private_ip))
        (elim [
          | some v ↦ λ c. as_instance-HasIp tx_config private_ip v (c v refl)
          | none ↦ λ _.
              Ensures-bind (get_instance_by_instance_private_ips E tx_config (private_ip ∷ [])) _
                (get_instance_by_instance_private_ips-Ensures E L tx_config (private_ip ∷ []))
                (λ instances s. find_by_ip-HasIp tx_config (private_ip ∷ []) private_ip instances s)
        ])

  keep_found-HasId :
      (id : String) (set : List Instance)
      → Ensures
          (IsCoherent E L tx_config)
          (HasId tx_config id)
          (keep_found E tx_config (cache_name_pre_vm_id ++ id) (find_by_id tx_config.vpc_id id set))
  unfolding find_by_id keep_found
  keep_found-HasId id [] = Ensures-raise _
  keep_found-HasId id (i ∷ set) = elim (Bool-cases (i.vpc_id == tx_config.vpc_id)) [
    | inr other ↦ rw other (keep_found-HasId id set)
    | inl vpc ↦ rw vpc (elim (Bool-cases (id == i.instance_id)) [
      | inr differs ↦ rw differs (keep_found-HasId id set)
      | inl found ↦ rw found (
          let h : HasId tx_config id i = (
            (string_beq_iff i.vpc_id tx_config.vpc_id).0 vpc,
            sym ((string_beq_iff id i.instance_id).0 found),
          ) in
          Ensures-bind (Cache.set E (cache_name_pre_vm_id ++ id) (instance_value i)) _
            (Ensures-set E L tx_config _ (instance_value i) (inr (id, refl, h)))
            (λ _ _. Ensures-pure i h))
    ])
  ]

  -- From a coherent cache getInstanceByInstanceID does not panic and leaves the cache coherent.
  -- The instance that it returns belongs to the VPC and has the id.
  pub get_instance_by_instance_id-Ensures :
      (id : String)
      → Ensures
          (IsCoherent E L tx_config)
          (HasId tx_config id)
          (get_instance_by_instance_id E tx_config id)
  unfolding get_instance_by_instance_id
  get_instance_by_instance_id-Ensures id =
      Ensures-bind (Cache.get E (cache_name_pre_vm_id ++ id)) _
        (Ensures-get E L tx_config (cache_name_pre_vm_id ++ id))
        (elim [
          | some v ↦ λ c. as_instance-HasId tx_config id v (c v refl)
          | none ↦ λ _.
              Ensures-bind _ _
                (Ensures-call E L tx_config E.describe_instances _ L.describe_instances_drops)
                (λ set _. keep_found-HasId id set)
        ])

  -- The instance belongs to the VPC.
  abbrev pub InVpc : Instance → Type 0
  InVpc i = i.vpc_id ≡ tx_config.vpc_id

  get_instance_by_parts-Ensures :
      (provider_id : String) (parts : List String)
      → Ensures
          (IsCoherent E L tx_config)
          InVpc
          (get_instance_by_parts E tx_config provider_id parts)
  unfolding get_instance_by_parts
  get_instance_by_parts-Ensures provider_id (_ ∷ _ ∷ id ∷ []) =
      Ensures-weaken _ (λ i h. h.0) (get_instance_by_instance_id-Ensures id)
  get_instance_by_parts-Ensures provider_id _ = Ensures-raise _

  -- From a coherent cache getInstanceByProviderID does not panic and leaves the cache coherent. The
  -- instance that it returns belongs to the VPC.
  pub get_instance_by_provider_id-Ensures :
      (provider_id : String)
      → Ensures
          (IsCoherent E L tx_config)
          InVpc
          (get_instance_by_provider_id E tx_config provider_id)
  unfolding get_instance_by_provider_id
  get_instance_by_provider_id-Ensures provider_id = get_instance_by_parts-Ensures provider_id _
