-- ===== src/Coherence/Instances.antt =====
-- pkg/tencentcloud/instances.go over a coherent cache: what the lookups return, and that they leave
-- the cache coherent.
use cloud_provider_tencent.Base.{
  ◌≡◌, ◌∙◌, refl, sym, Bool, true, false, not, none, some, List, [], ◌∷◌, ◌++◌, String, string_eq,
  ◌==◌, contains, All, All-append, All-contains, All-of_contains, Bool-cases, inl, inr,
  string_beq_iff,
}
use cloud_provider_tencent.Go.Sort.{sort_strings}
use cloud_provider_tencent.Go.Exec.Ensures.{
  Ensures, Ensures-pure, Ensures-raise, Ensures-if, Ensures-bind,
}
use cloud_provider_tencent.Sdk.{Instance, instance_value}
use cloud_provider_tencent.Sdk.Env.{Env}
use cloud_provider_tencent.Sdk.Laws.{StoreLaws}
use cloud_provider_tencent.Cache
use cloud_provider_tencent.Cloud.{TxCloudConfig}
use cloud_provider_tencent.Common.{is_exist, is_exist-sort_strings}
use cloud_provider_tencent.Batch.Ensures.{Ensures-batch_loop}
use cloud_provider_tencent.Instances.Lookup.{
  cache_name_pre_vm_ip, as_instance, find_by_ip, or_instance_not_found, scan_cache,
  collect_addresses, collect_instances, request_instances, get_instance_by_instance_private_ips,
}
use cloud_provider_tencent.Coherence.{HasIp, IsCoherent, Ensures-call, Ensures-get, Ensures-set}
use cloud_provider_tencent.Coherence.Keys.{as_instance-HasIp}

-- An instance of the VPC that has one of the addresses.
abbrev pub Serves : TxCloudConfig → List String → Instance → Type 0
Serves tx_config requested i = (ip : String) × (contains ip requested ≡ true) × HasIp tx_config ip i

abbrev pub IsRequested : List String → String → Type 0
IsRequested requested ip = contains ip requested ≡ true

not-false : (b : Bool) → not b ≡ false → b ≡ true
not-false true h = refl
not-false false h = cc

module _ (tx_config : TxCloudConfig) (requested : List String) where
  pub find_by_ip-HasIp :
      {W : Type 0} {I : W → Type 0} (ip : String) (instances : List Instance)
      → All (Serves tx_config requested) instances
      → Ensures I (HasIp tx_config ip) (or_instance_not_found (find_by_ip ip instances))
  unfolding find_by_ip or_instance_not_found
  find_by_ip-HasIp ip [] a = Ensures-raise _
  find_by_ip-HasIp ip (i ∷ instances) ((_, _, (v, _)), a) =
      elim (Bool-cases (contains ip i.private_ip_addresses)) [
        | inl h ↦ rw h (Ensures-pure i (v, h))
        | inr h ↦ rw h (find_by_ip-HasIp ip instances a)
      ]

module _ (E : Env) (L : StoreLaws E) (tx_config : TxCloudConfig) (requested : List String) where
  scan_cache-Ensures :
      (private_ips ips : List String) (instances : List Instance)
      → All (IsRequested requested) private_ips
      → All (IsRequested requested) ips
      → All (Serves tx_config requested) instances
      → Ensures
          (IsCoherent E L tx_config)
          (λ r. All (IsRequested requested) r.0 × All (Serves tx_config requested) r.1)
          (scan_cache E tx_config private_ips ips instances)
  unfolding scan_cache
  scan_cache-Ensures [] ips instances p q s = Ensures-pure _ (q, s)
  scan_cache-Ensures (ip ∷ private_ips) ips instances (p, ps) q s =
      Ensures-bind (Cache.get E (cache_name_pre_vm_ip ++ ip)) _
        (Ensures-get E L tx_config (cache_name_pre_vm_ip ++ ip))
        (elim [
          | none ↦ λ c.
              scan_cache-Ensures private_ips (ips ++ (ip ∷ [])) instances ps
                (All-append (IsRequested requested) ips (ip ∷ []) q (p, tt)) s
          | some v ↦ λ c.
              Ensures-bind (as_instance v) _ (as_instance-HasIp tx_config ip v (c v refl)) (λ i h.
                scan_cache-Ensures private_ips ips (instances ++ (i ∷ [])) ps q
                  (All-append (Serves tx_config requested) instances (i ∷ []) s ((ip, p, h), tt)))
        ])

  collect_addresses-Ensures :
      (ips : List String) (i : Instance) (addresses : List String) (instances : List Instance)
      → ((ip : String) → is_exist ip ips ≡ true → contains ip requested ≡ true)
      → i.vpc_id ≡ tx_config.vpc_id
      → All (λ ip. contains ip i.private_ip_addresses ≡ true) addresses
      → All (Serves tx_config requested) instances
      → Ensures
          (IsCoherent E L tx_config)
          (All (Serves tx_config requested))
          (collect_addresses E tx_config ips i addresses instances)
  unfolding collect_addresses
  collect_addresses-Ensures ips i [] instances r v a s = Ensures-pure instances s
  collect_addresses-Ensures ips i (ip ∷ addresses) instances r v (p, a) s =
      Ensures-if (is_exist ip ips) _ _
        (λ hit.
          Ensures-bind (Cache.set E (cache_name_pre_vm_ip ++ ip) (instance_value i)) _
            (Ensures-set E L tx_config _ (instance_value i) (inl (ip, refl, (v, p))))
            (λ _ _. collect_addresses-Ensures ips i addresses (instances ++ (i ∷ [])) r v a (
              All-append (Serves tx_config requested) instances (i ∷ []) s
                ((ip, r ip hit, (v, p)), tt))))
        (λ _. collect_addresses-Ensures ips i addresses instances r v a s)

  collect_instances-Ensures :
      (ips : List String) (set instances : List Instance)
      → ((ip : String) → is_exist ip ips ≡ true → contains ip requested ≡ true)
      → All (Serves tx_config requested) instances
      → Ensures
          (IsCoherent E L tx_config)
          (All (Serves tx_config requested))
          (collect_instances E tx_config ips set instances)
  unfolding collect_instances
  collect_instances-Ensures ips [] instances r s = Ensures-pure instances s
  collect_instances-Ensures ips (i ∷ set) instances r s =
      Ensures-if (not (i.vpc_id == tx_config.vpc_id)) _ _
        (λ _. collect_instances-Ensures ips set instances r s)
        (λ same.
          Ensures-bind (collect_addresses E tx_config ips i i.private_ip_addresses instances) _
            (collect_addresses-Ensures ips i i.private_ip_addresses instances r
              ((string_beq_iff i.vpc_id tx_config.vpc_id).0 (not-false _ same))
              (All-of_contains (λ ip. contains ip i.private_ip_addresses ≡ true)
                i.private_ip_addresses (λ _ h. h))
              s)
            (λ more t. collect_instances-Ensures ips set more r t))

  request_instances-Ensures :
      (ips batch : List String) (instances : List Instance)
      → ((ip : String) → is_exist ip ips ≡ true → contains ip requested ≡ true)
      → All (Serves tx_config requested) instances
      → Ensures
          (IsCoherent E L tx_config)
          (All (Serves tx_config requested))
          (request_instances E tx_config ips batch instances)
  unfolding request_instances
  request_instances-Ensures ips batch instances r s =
      Ensures-bind _ _
        (Ensures-call E L tx_config E.describe_instances _ L.describe_instances_drops)
        (λ set _. collect_instances-Ensures ips set instances r s)

  -- The addresses that were missing from the cache are requested ones, sorted or not.
  missing-IsRequested :
      (missing : List String)
      → All (IsRequested requested) missing
      → (ip : String) → is_exist ip (sort_strings missing) ≡ true
      → contains ip requested ≡ true
  missing-IsRequested missing a ip h =
      All-contains (IsRequested requested) ip missing a (sym (is_exist-sort_strings ip missing) ∙ h)

module _ (E : Env) (L : StoreLaws E) (tx_config : TxCloudConfig) where
  -- From a coherent cache getInstanceByInstancePrivateIps does not panic and leaves the cache
  -- coherent. Every instance that it returns belongs to the VPC and has a requested address.
  pub get_instance_by_instance_private_ips-Ensures :
      (private_ips : List String)
      → Ensures
          (IsCoherent E L tx_config)
          (All (Serves tx_config private_ips))
          (get_instance_by_instance_private_ips E tx_config private_ips)
  unfolding get_instance_by_instance_private_ips
  get_instance_by_instance_private_ips-Ensures private_ips =
      Ensures-bind (scan_cache E tx_config private_ips [] []) _
        (scan_cache-Ensures E L tx_config private_ips private_ips [] []
          (All-of_contains (IsRequested private_ips) private_ips (λ _ h. h)) tt tt)
        (λ (missing, instances) (q, s).
          Ensures-batch_loop 5 _ _
            (λ batch more t.
              request_instances-Ensures E L tx_config private_ips _ batch more
                (missing-IsRequested E L tx_config private_ips missing q) t)
            0 [] _ instances s)
