-- ===== src/Instances/Complete.antt =====
-- pkg/tencentcloud/instances.go: the requests of getInstanceByInstancePrivateIps, followed for one of
-- the requested addresses.
pub mod Whole
use cloud_provider_tencent.Base.{
  ◌≡◌, ◌⊎◌, inl, inr, refl, sym, subst, Bool, true, false, not, none, some, List, [], ◌∷◌, ◌++◌,
  String, string_eq, ◌==◌, contains, contains-append, concat, eq_refl, arith, Any, Any-append_left,
  Any-append_right, or-true, string_beq_iff, ap, ◌∙◌, ◌||◌,
}
use cloud_provider_tencent.Go.Strings.{bytes}
use cloud_provider_tencent.Go.Sort.{sort_strings}
use cloud_provider_tencent.Go.Exec.{Exec, Outcome, ok, ◌>>=◌, ◌>>◌}
use cloud_provider_tencent.Go.Exec.Ensures.{Ensures, Ensures-pure, Ensures-if, Ensures-bind, Post}
use cloud_provider_tencent.Go.Exec.Inversion.{bind-ok}
use cloud_provider_tencent.Sdk.{Instance, CacheValue, instance_value, Answer, reply, fail, Filter}
use cloud_provider_tencent.Sdk.Env.{Env, TencentCloudCacheEntry, call, outcome}
use cloud_provider_tencent.Sdk.Laws.{StoreLaws}
use cloud_provider_tencent.Cache
use cloud_provider_tencent.Cloud.{TxCloudConfig}
use cloud_provider_tencent.Common.{is_exist, is_exist-sort_strings}
use cloud_provider_tencent.Batch.{in_batches}
use cloud_provider_tencent.Batch.Laws.{batches, run_batches, in_batches_lem}
use cloud_provider_tencent.Instances.Lookup.{
  cache_name_pre_vm_ip, as_instance, scan_cache, collect_addresses, collect_instances,
  request_instances, get_instance_by_instance_private_ips,
}
use cloud_provider_tencent.Coherence.{HasIp, IsCoherent, Ensures-get}
use cloud_provider_tencent.Coherence.Keys.{as_instance-HasIp}

-- The request for the instances with one of the addresses.
abbrev pub by_private_ip : List String → List Filter
by_private_ip values = record { name = bytes "private-ip-address"; values = values } ∷ []

-- An instance of the VPC has the address as long as `stands` holds, which the calls of the lookup
-- leave alone, and DescribeInstances finds it when it is asked for the address.
pub record Findable (E : Env) (tx_config : TxCloudConfig) (ip : String) : Type 1 where
  pub stands : E.World → Type 0
  pub told :
      (values : List String) (w : E.World) (is : List Instance)
      → contains ip values ≡ true
      → stands w
      → (E.describe_instances (by_private_ip values) w).0 ≡ reply is
      → Any (HasIp tx_config ip) is
  pub describe_instances_keeps :
      (filters : List Filter) (w : E.World) → stands w → stands (E.describe_instances filters w).1
  pub store_add_keeps :
      (item : TencentCloudCacheEntry) (w : E.World) → stands w → stands (E.store_add item w).1
  pub store_get_by_key_keeps :
      (key : String) (w : E.World) → stands w → stands (E.store_get_by_key key w).1

module _ (E : Env) (tx_config : TxCloudConfig) (ip : String) (F : Findable E tx_config ip) where
  -- Some instance of the list is one of the VPC that has the address.
  abbrev pub Has : List Instance → Type 0
  Has is = Any (HasIp tx_config ip) is

  set-stands :
      (key : String) (v : CacheValue) → Ensures F.stands (λ _. Unit {0}) (Cache.set E key v)
  unfolding Cache.set
  set-stands key v = record { at = λ w h. (F.store_add_keeps _ w h, tt) }

  collect_addresses-kept :
      (Q : List Instance → Type 0) (ips : List String) (i : Instance) (addresses : List String)
      (instances : List Instance)
      → ((is : List Instance) → Q is → Q (is ++ (i ∷ [])))
      → Q instances
      → Ensures F.stands Q (collect_addresses E tx_config ips i addresses instances)
  unfolding collect_addresses
  collect_addresses-kept Q ips i [] instances more q = Ensures-pure instances q
  collect_addresses-kept Q ips i (a ∷ addresses) instances more q =
      Ensures-if (is_exist a ips) _ _
        (λ _.
          Ensures-bind _ _ (set-stands _ (instance_value i))
            (λ _ _. collect_addresses-kept Q ips i addresses _ more (more instances q)))
        (λ _. collect_addresses-kept Q ips i addresses instances more q)

  pub Has-more : (i : Instance) (is : List Instance) → Has is → Has (is ++ (i ∷ []))
  Has-more i is h = Any-append_left (HasIp tx_config ip) is (i ∷ []) h

  pub Has-last : (i : Instance) (is : List Instance) → HasIp tx_config ip i → Has (is ++ (i ∷ []))
  Has-last i is h = Any-append_right (HasIp tx_config ip) is (i ∷ []) (inl h)

  collect_addresses-Has :
      (ips : List String) (i : Instance) (addresses : List String) (instances : List Instance)
      → is_exist ip ips ≡ true
      → HasIp tx_config ip i
      → contains ip addresses ≡ true
      → Ensures F.stands Has (collect_addresses E tx_config ips i addresses instances)
  unfolding collect_addresses contains
  collect_addresses-Has ips i [] instances wanted h c = absurd (cc)
  collect_addresses-Has ips i (a ∷ addresses) instances wanted h c =
      elim (or-true (ip == a) (contains ip addresses) c) [
        | inl same ↦ rw (subst (λ x. is_exist x ips ≡ true) ((string_beq_iff ip a).0 same) wanted) (
            Ensures-bind _ _ (set-stands _ (instance_value i)) (λ _ _.
              collect_addresses-kept Has ips i addresses _ (Has-more i) (Has-last i instances h)))
        | inr later ↦
            Ensures-if (is_exist a ips) _ _
              (λ _.
                Ensures-bind _ _ (set-stands _ (instance_value i))
                  (λ _ _. collect_addresses-Has ips i addresses _ wanted h later))
              (λ _. collect_addresses-Has ips i addresses instances wanted h later)
      ]

  own-vpc : (i : Instance) → HasIp tx_config ip i → not (i.vpc_id == tx_config.vpc_id) ≡ false
  own-vpc i (v, _) = rw v (rw (eq_refl tx_config.vpc_id) refl)

  abbrev Told : List String → List Instance → Type 0
  Told request_ips set = contains ip request_ips ≡ true → Has set

  Told-Post :
      (request_ips : List String) (a : Answer (List Instance))
      → ((is : List Instance) → a ≡ reply is → Told request_ips is)
      → Post (Told request_ips) (outcome a)
  Told-Post request_ips (reply is) f = f is refl
  Told-Post request_ips (fail e) f = tt

  describe_instances-Told :
      (request_ips : List String)
      → Ensures F.stands
          (Told request_ips)
          (call (E.describe_instances (by_private_ip request_ips)))
  unfolding call
  describe_instances-Told request_ips = record {
    at = λ w h. (
      F.describe_instances_keeps _ w h,
      Told-Post request_ips _ (λ is e c. F.told request_ips w is c h e),
    );
  }

  -- What every instance that is appended keeps, the lookup keeps.
  module _ (Q : List Instance → Type 0)
      (more : (i : Instance) (is : List Instance) → Q is → Q (is ++ (i ∷ [])))
      (ips : List String) where
    collect_instances-kept :
        (set instances : List Instance)
        → Q instances
        → Ensures F.stands Q (collect_instances E tx_config ips set instances)
    unfolding collect_instances
    collect_instances-kept [] instances q = Ensures-pure instances q
    collect_instances-kept (i ∷ set) instances q =
        Ensures-if (not (i.vpc_id == tx_config.vpc_id)) _ _
          (λ _. collect_instances-kept set instances q)
          (λ _.
            Ensures-bind _ _
              (collect_addresses-kept Q ips i i.private_ip_addresses instances (more i) q)
              (λ is r. collect_instances-kept set is r))

    request_instances-kept :
        (request_ips : List String) (instances : List Instance)
        → Q instances
        → Ensures F.stands Q (request_instances E tx_config ips request_ips instances)
    unfolding request_instances
    request_instances-kept request_ips instances q =
        Ensures-bind _ _ (describe_instances-Told request_ips)
          (λ set _. collect_instances-kept set instances q)

    pub run_batches-kept :
        (bs : List (List String)) (instances : List Instance)
        → Q instances
        → Ensures F.stands Q (run_batches (request_instances E tx_config ips) bs instances)
    unfolding run_batches
    run_batches-kept [] instances q = Ensures-pure instances q
    run_batches-kept (b ∷ bs) instances q =
        Ensures-bind _ _ (request_instances-kept b instances q) (λ is r. run_batches-kept bs is r)

  module _ (ips : List String) (wanted : is_exist ip ips ≡ true) where
    collect_instances-Has :
        (set instances : List Instance)
        → Has set
        → Ensures F.stands Has (collect_instances E tx_config ips set instances)
    unfolding collect_instances
    collect_instances-Has [] instances h = elim h [ ]
    collect_instances-Has (i ∷ set) instances (inl h) = rw (own-vpc i h) (
        Ensures-bind _ _ (collect_addresses-Has ips i i.private_ip_addresses instances wanted h h.1)
          (λ is q. collect_instances-kept Has Has-more ips set is q))
    collect_instances-Has (i ∷ set) instances (inr h) =
        Ensures-if (not (i.vpc_id == tx_config.vpc_id)) _ _
          (λ _. collect_instances-Has set instances h)
          (λ _.
            Ensures-bind _ _
              (collect_addresses-kept (λ _. Unit {0}) ips i i.private_ip_addresses instances
                (λ _ _. tt) tt)
              (λ is _. collect_instances-Has set is h))

    request_instances-Has :
        (request_ips : List String) (instances : List Instance)
        → contains ip request_ips ≡ true
        → Ensures F.stands Has (request_instances E tx_config ips request_ips instances)
    unfolding request_instances
    request_instances-Has request_ips instances c =
        Ensures-bind _ _ (describe_instances-Told request_ips)
          (λ set told. collect_instances-Has set instances (told c))

    pub run_batches-Has :
        (bs : List (List String)) (instances : List Instance)
        → contains ip (concat bs) ≡ true
        → Ensures F.stands Has (run_batches (request_instances E tx_config ips) bs instances)
    unfolding run_batches concat
    run_batches-Has [] instances c = absurd (unfold contains in cc)
    run_batches-Has (b ∷ bs) instances c =
        elim (or-true (contains ip b) (contains ip (concat bs))
          (sym (contains-append ip b (concat bs)) ∙ c)) [
            | inl first ↦
                Ensures-bind _ _ (request_instances-Has b instances first)
                  (λ is q. run_batches-kept Has Has-more ips bs is q)
            | inr later ↦
                Ensures-bind _ _
                  (request_instances-kept (λ _. Unit {0}) (λ _ _ _. tt) ips b instances tt)
                  (λ is _. run_batches-Has bs is later)
          ]
