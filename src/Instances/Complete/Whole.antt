-- ===== src/Instances/Complete/Whole.antt =====
-- pkg/tencentcloud/instances.go: getInstanceByInstancePrivateIps as a whole, from the cache to the
-- batches of requests.
use cloud_provider_tencent.Base.{
  ◌≡◌, ◌⊎◌, inl, inr, refl, sym, subst, ap, ◌∙◌, true, none, some, List, [], ◌∷◌, ◌++◌, String,
  string_eq, ◌==◌, contains, contains-append, arith, or-true, string_beq_iff, Any,
}
use cloud_provider_tencent.Go.Sort.{sort_strings}
use cloud_provider_tencent.Go.Sort.Order.{contains-sort_strings}
use cloud_provider_tencent.Go.Exec.{ok}
use cloud_provider_tencent.Go.Exec.Ensures.{Ensures, Ensures-pure, Ensures-bind, Post}
use cloud_provider_tencent.Go.Exec.Inversion.{bind-ok, same_outcome}
use cloud_provider_tencent.Sdk.{Instance, CacheValue}
use cloud_provider_tencent.Sdk.Env.{Env}
use cloud_provider_tencent.Sdk.Laws.{StoreLaws}
use cloud_provider_tencent.Cache
use cloud_provider_tencent.Cloud.{TxCloudConfig}
use cloud_provider_tencent.Common.{is_exist-sort_strings}
use cloud_provider_tencent.Batch.{in_batches}
use cloud_provider_tencent.Batch.Laws.{in_batches_lem}
use cloud_provider_tencent.Instances.Lookup.{
  cache_name_pre_vm_ip, as_instance, scan_cache, request_instances,
  get_instance_by_instance_private_ips,
}
use cloud_provider_tencent.Coherence.{Coherent, HasIp, IsCoherent, Ensures-get}
use cloud_provider_tencent.Coherence.Keys.{as_instance-HasIp}
use cloud_provider_tencent.Instances.Complete.{
  Findable, Has, Has-more, Has-last, run_batches-kept, run_batches-Has,
}

module _ (E : Env) (L : StoreLaws E) (tx_config : TxCloudConfig) (ip : String)
    (F : Findable E tx_config ip) where
  record Ready (w : E.World) : Type 0 where
    coherent : IsCoherent E L tx_config w
    there : F.stands w

  get-Ready :
      (key : String)
      → Ensures Ready
          (λ o. (v : CacheValue) → o ≡ some v → Coherent tx_config key v)
          (Cache.get E key)
  unfolding Cache.get
  get-Ready key = record {
    at = λ w h.
        let (c, q) = (Ensures-get E L tx_config key).at w h.coherent in
        (record { coherent = c; there = F.store_get_by_key_keeps key w h.there }, q);
  }

  -- Where the address is: among those that are still to be looked up, or served already.
  abbrev IsPlaced : List String → List Instance → Type 0
  IsPlaced ips instances = (contains ip ips ≡ true) ⊎ Has E tx_config ip F instances

  missing_next :
      (a : String) (private_ips ips : List String) (instances : List Instance)
      → (contains ip (a ∷ private_ips) ≡ true) ⊎ IsPlaced ips instances
      → (contains ip private_ips ≡ true) ⊎ IsPlaced (ips ++ (a ∷ [])) instances
  unfolding contains
  missing_next a private_ips ips instances (inl c) =
      elim (or-true (ip == a) (contains ip private_ips) c) [
        | inl same ↦ inr (inl (ground (arith, contains-append ip ips (a ∷ []), same)))
        | inr later ↦ inl later
      ]
  missing_next a private_ips ips instances (inr (inl c)) =
      inr (inl (ground (arith, contains-append ip ips (a ∷ []), c)))
  missing_next a private_ips ips instances (inr (inr h)) = inr (inr h)

  cached_next :
      (a : String) (private_ips ips : List String) (i : Instance) (instances : List Instance)
      → HasIp tx_config a i
      → (contains ip (a ∷ private_ips) ≡ true) ⊎ IsPlaced ips instances
      → (contains ip private_ips ≡ true) ⊎ IsPlaced ips (instances ++ (i ∷ []))
  unfolding contains
  cached_next a private_ips ips i instances h (inl c) =
      elim (or-true (ip == a) (contains ip private_ips) c) [
        | inl same ↦ inr (
            inr (
              Has-last E tx_config ip F i instances
                (subst (λ x. HasIp tx_config x i) (sym ((string_beq_iff ip a).0 same)) h)))
        | inr later ↦ inl later
      ]
  cached_next a private_ips ips i instances h (inr (inl c)) = inr (inl c)
  cached_next a private_ips ips i instances h (inr (inr q)) =
      inr (inr (Has-more E tx_config ip F i instances q))

  scan_cache-IsPlaced :
      (private_ips ips : List String) (instances : List Instance)
      → (contains ip private_ips ≡ true) ⊎ IsPlaced ips instances
      → Ensures Ready (λ r. IsPlaced r.0 r.1) (scan_cache E tx_config private_ips ips instances)
  unfolding scan_cache
  scan_cache-IsPlaced [] ips instances (inl c) = absurd (unfold contains in cc)
  scan_cache-IsPlaced [] ips instances (inr q) = Ensures-pure _ q
  scan_cache-IsPlaced (a ∷ private_ips) ips instances p =
      Ensures-bind (Cache.get E (cache_name_pre_vm_ip ++ a)) _
        (get-Ready (cache_name_pre_vm_ip ++ a))
        (elim [
          | none ↦ λ c.
              scan_cache-IsPlaced private_ips (ips ++ (a ∷ [])) instances
                (missing_next a private_ips ips instances p)
          | some v ↦ λ c.
              Ensures-bind (as_instance v) _ (as_instance-HasIp tx_config a v (c v refl)) (λ i h.
                scan_cache-IsPlaced private_ips ips (instances ++ (i ∷ []))
                  (cached_next a private_ips ips i instances h p))
        ])

  in_batches-Has :
      (missing : List String) (instances : List Instance)
      → IsPlaced missing instances
      → let ips = sort_strings missing in
        Ensures F.stands
          (Has E tx_config ip F)
          (in_batches 5 (request_instances E tx_config ips) ips instances)
  in_batches-Has missing instances (inr h) =
      let ips = sort_strings missing in
      rw ((in_batches_lem 5 (request_instances E tx_config ips) ips instances (omega arith)).0) (
        run_batches-kept E tx_config ip F (Has E tx_config ip F) (Has-more E tx_config ip F) ips _
          instances h)
  in_batches-Has missing instances (inl c) =
      let ips = sort_strings missing in
      let (run, joined, _) =
        in_batches_lem 5 (request_instances E tx_config ips) ips instances (omega arith) in
      rw run (
        run_batches-Has E tx_config ip F ips (is_exist-sort_strings ip missing ∙ c) _ instances
          (ap (contains ip) joined ∙ contains-sort_strings ip missing ∙ c))

-- From a coherent cache: if getInstanceByInstancePrivateIps returns with no error, then for each
-- requested address that some instance of the VPC has, as DescribeInstances tells when it is asked
-- for the address, the result has an instance of the VPC with the address.
pub get_instance_by_instance_private_ips-HasIp :
    (E : Env) (L : StoreLaws E) (tx_config : TxCloudConfig) (private_ips : List String)
    (ip : String) (F : Findable E tx_config ip) (w : E.World) (is : List Instance)
    → IsCoherent E L tx_config w
    → F.stands w
    → contains ip private_ips ≡ true
    → (get_instance_by_instance_private_ips E tx_config private_ips w).0 ≡ ok is
    → Any (HasIp tx_config ip) is
unfolding get_instance_by_instance_private_ips
get_instance_by_instance_private_ips-HasIp E L tx_config private_ips ip F w is h there asked ran =
    let ((missing, instances), scanned, rest) =
      bind-ok (scan_cache E tx_config private_ips [] []) _ w is ran in
    let (ready, placed) =
      (scan_cache-IsPlaced E L tx_config ip F private_ips [] [] (inl asked)).at w
        (record { coherent = h; there = there }) in
    let known = subst (Post (λ r. IsPlaced E L tx_config ip F r.0 r.1)) scanned placed in
    subst (Post (Has E tx_config ip F)) (same_outcome (sym rest) ∙ ran)
      (((in_batches-Has E L tx_config ip F missing instances known).at _ ready.there).1)
