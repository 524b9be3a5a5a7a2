-- ===== src/Coherence.antt =====
-- The invariant of the cache that all components of pkg/tencentcloud share. The cache is coherent
-- if under each key stands a value of the type that the key's prefix says, and an instance stands
-- only under its own id or one of its addresses, and belongs to the VPC of the configuration.
pub mod Keys
pub mod Instances
pub mod Single
pub mod Balancers
pub mod Methods
pub mod Provider
pub mod Results
pub mod Kept
pub mod History
use cloud_provider_tencent.Base.{
  ◌≡◌, refl, true, ◌⊎◌, inl, inr, Option, none, some, ◌∷◌, ◌++◌, String, string_eq, contains, arith,
  subst,
}
use cloud_provider_tencent.Go.Strings.{bytes}
use cloud_provider_tencent.Go.Exec.{Outcome, ok}
use cloud_provider_tencent.Go.Exec.Ensures.{Ensures, Post}
use cloud_provider_tencent.Sdk.{
  Instance, CacheValue, instance_value, load_balancer_value, listeners_value, Answer, reply, fail,
}
use cloud_provider_tencent.Sdk.Env.{Env, TencentCloudCacheEntry, call, outcome}
use cloud_provider_tencent.Sdk.Laws.{StoreLaws, Drops, OnlyDrops}
use cloud_provider_tencent.Cache
use cloud_provider_tencent.Cloud.{TxCloudConfig}
use cloud_provider_tencent.Instances.Lookup.{cache_name_pre_vm_ip, cache_name_pre_vm_id}
use cloud_provider_tencent.LoadBalancer.Lookup.{cache_name_pre_clb, cache_name_pre_clb_listener}

module _ (tx_config : TxCloudConfig) where
  -- An instance of the VPC that has the address.
  abbrev pub HasIp : String → Instance → Type 0
  HasIp ip i = (i.vpc_id ≡ tx_config.vpc_id) × (contains ip i.private_ip_addresses ≡ true)

  -- The instance of the VPC with the id.
  abbrev pub HasId : String → Instance → Type 0
  HasId id i = (i.vpc_id ≡ tx_config.vpc_id) × (i.instance_id ≡ id)

  abbrev pub Coherent : String → CacheValue → Type 0
  Coherent key (instance_value i) =
      ((ip : String) × (key ≡ cache_name_pre_vm_ip ++ ip) × HasIp ip i)
      ⊎ ((id : String) × (key ≡ cache_name_pre_vm_id ++ id) × HasId id i)
  Coherent key (load_balancer_value lb) = (name : String) × (key ≡ cache_name_pre_clb ++ name)
  Coherent key (listeners_value ls) = (id : String) × (key ≡ cache_name_pre_clb_listener ++ id)

outcome-Post : {A : Type 0} (a : Answer A) → Post (λ _. Unit {0}) (outcome a)
outcome-Post (reply x) = tt
outcome-Post (fail e) = tt

module _ (E : Env) (L : StoreLaws E) (tx_config : TxCloudConfig) where
  pub record IsCoherent (w : E.World) : Type 0 where
    pub at_key : (key : String) (v : CacheValue) → L.peek w key ≡ some v → Coherent tx_config key v

  pub IsCoherent-Drops : (w v : E.World) → Drops L.peek w v → IsCoherent w → IsCoherent v
  IsCoherent-Drops w v d h = record { at_key = λ key value p. h.at_key key value (d key value p) }

  -- A call that leaves the store alone keeps the cache coherent.
  pub Ensures-call :
      {R A : Type 0} (c : R → E.World → Answer A × E.World) (r : R)
      → OnlyDrops L.peek c
      → Ensures IsCoherent (λ _. Unit {0}) (call (c r))
  unfolding call
  Ensures-call c r d = record {
    at = λ w h. let (a, w') = c r w in (IsCoherent-Drops w w' (d r w) h, outcome-Post a);
  }

  held :
      (key : String) (w : E.World)
      → IsCoherent w
      → (v : CacheValue)
      → (item : TencentCloudCacheEntry) × ((E.store_get_by_key key w).0 ≡ reply (some item))
        × (v ≡ item.value)
      → Coherent tx_config key v
  held key w h v (item, e, p) = h.at_key key v (rw p (L.get_by_key_peek key w item e))

  added :
      (key : String) (v : CacheValue) (w : E.World)
      → IsCoherent w
      → Coherent tx_config key v
      → (k : String) (u : CacheValue) → ((k ≡ key) × (u ≡ v)) ⊎ (L.peek w k ≡ some u)
      → Coherent tx_config k u
  added key v w h c k u (inl (p, q)) = rw (p, q) c
  added key v w h c k u (inr p) = h.at_key k u p

  -- The value of a key is one that is coherent under it.
  pub Ensures-get :
      (key : String)
      → Ensures IsCoherent
          (λ o. (v : CacheValue) → o ≡ some v → Coherent tx_config key v)
          (Cache.get E key)
  unfolding Cache.get
  Ensures-get key = record {
    at = λ w h. (
      IsCoherent-Drops w _ (L.get_by_key_drops key w) h,
      λ v e. held key w h v (Cache.found-eq-some _ v e),
    );
  }

  -- A coherent value can be stored.
  pub Ensures-set :
      (key : String) (v : CacheValue)
      → Coherent tx_config key v
      → Ensures IsCoherent (λ _. Unit {0}) (Cache.set E key v)
  unfolding Cache.set
  Ensures-set key v c = record {
    at = λ w h. (record { at_key = λ k u p. added key v w h c k u (L.add_peek _ w k u p) }, tt);
  }
