-- ===== src/Instances/ProviderId.antt =====
-- pkg/tencentcloud/instances.go: a node's provider id is the provider's name, "://" and what
-- InstanceID returns; getInstanceByProviderID reads the instance id back from it.
use cloud_provider_tencent.Base.{
  ℕ, ◌≡◌, ◌≢◌, ◌∙◌, refl, ap, some, [], ◌∷◌, ◌++◌, String, arith, All, eqb_iff,
}
use cloud_provider_tencent.Go.Strings.{bytes, cut_prefix, trim_prefix, split}
use cloud_provider_tencent.Sdk.{Instance}
use cloud_provider_tencent.Sdk.Env.{Env}
use cloud_provider_tencent.Cloud.{TxCloudConfig, provider_name}
use cloud_provider_tencent.Instances.Lookup.{
  get_instance_by_instance_id, get_instance_by_parts, get_instance_by_provider_id,
}
use cloud_provider_tencent.Instances.Api.{instance_id_of}

cut_prefix-append : (p s : String) → cut_prefix (p ++ s) p ≡ some s
unfolding cut_prefix
cut_prefix-append [] s = refl
cut_prefix-append (x ∷ p) s = ground (arith, cut_prefix-append p s, eqb_iff x x)

trim_prefix-append : (p s : String) → trim_prefix (p ++ s) p ≡ s
unfolding trim_prefix
trim_prefix-append p s = rw (cut_prefix-append p s, trim_prefix) refl

abbrev pub Lacks : ℕ → String → Type 0
Lacks c s = All (λ x. x ≢ c) s

split_whole : (c : ℕ) (s : String) → Lacks c s → split s c ≡ s ∷ []
unfolding split
split_whole c [] a = refl
split_whole c (x ∷ s) (h, a) = ground (arith, split_whole c s a, eqb_iff x c, h)

split-append : (c : ℕ) (s t : String) → Lacks c s → split (s ++ (c ∷ t)) c ≡ s ∷ split t c
unfolding split
split-append c [] t a = ground (arith, eqb_iff c c)
split-append c (x ∷ s) t (h, a) = ground (arith, split-append c s t a, eqb_iff x c, h)

split-instance_id_of :
    (i : Instance)
    → Lacks b'/' i.zone
    → Lacks b'/' i.instance_id
    → split (instance_id_of i) b'/' ≡ [] ∷ i.zone ∷ i.instance_id ∷ []
unfolding instance_id_of bytes
split-instance_id_of i zone id =
    split-append b'/' [] (i.zone ++ (b'/' ∷ i.instance_id)) tt
    ∙ ap (λ parts. [] ∷ parts)
        (split-append b'/' i.zone i.instance_id zone
          ∙ ap (λ parts. i.zone ∷ parts) (split_whole b'/' i.instance_id id))

-- For an instance whose zone and id hold no slash: the provider id made of what InstanceID returns
-- is looked up as exactly the instance's id.
pub get_instance_by_provider_id-instance_id_of :
    (E : Env) (tx_config : TxCloudConfig) (i : Instance)
    → Lacks b'/' i.zone
    → Lacks b'/' i.instance_id
    → get_instance_by_provider_id E tx_config ((provider_name ++ bytes "://") ++ instance_id_of i)
      ≡ get_instance_by_instance_id E tx_config i.instance_id
unfolding get_instance_by_provider_id get_instance_by_parts
get_instance_by_provider_id-instance_id_of E tx_config i zone id =
    rw (trim_prefix-append (provider_name ++ bytes "://") (instance_id_of i))
      (rw (split-instance_id_of i zone id) refl)
