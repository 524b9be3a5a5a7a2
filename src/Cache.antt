-- ===== src/Cache.antt =====
-- pkg/cache/cache.go: a cache with a time to live, over the store of client-go.
pub mod Sure
use cloud_provider_tencent.Base.{ℕ, ◌≡◌, refl, Bool, true, false, Option, none, some, String}
use cloud_provider_tencent.Go.Exec.{Exec, Outcome, ok, panic, continue}
use cloud_provider_tencent.Sdk.{CacheValue, Answer, reply, fail}
use cloud_provider_tencent.Sdk.Env.{Env, TencentCloudCacheEntry}

-- What the program hands to a store as an interface{}: an entry, behind a pointer, or a key.
pub data Object : Type 0 where
  an_entry : TencentCloudCacheEntry → Object
  a_string : String → Object

-- cacheKeyFunc: the assertion on the type of the object panics for anything but an entry.
abbrev pub cache_key_func : Object → Outcome String
cache_key_func (an_entry item) = ok item.key
cache_key_func (a_string _) = panic

-- TTLCache
pub record TtlCache (Store : Type 0) : Type 0 where
  pub store : Store
  pub ttl : ℕ

-- NewTTLCache, given cache.NewTTLStore
unfoldable pub new_ttl_cache :
    {Store : Type 0} → ((Object → Outcome String) → ℕ → Store) → ℕ → TtlCache Store
new_ttl_cache new_ttl_store ttl = record { store = new_ttl_store cache_key_func ttl; ttl = ttl }

pub found : Answer (Option TencentCloudCacheEntry) → Option CacheValue
found (fail e) = none
found (reply none) = none
found (reply (some item)) = some item.value

succeeded : Answer (Unit {0}) → Bool
succeeded (reply _) = true
succeeded (fail e) = false

-- What Get answers with is the data of the item that the store answered with.
pub found-eq-some :
    (a : Answer (Option TencentCloudCacheEntry)) (v : CacheValue)
    → found a ≡ some v
    → (item : TencentCloudCacheEntry) × (a ≡ reply (some item)) × (v ≡ item.value)
unfolding found
found-eq-some (fail e) v h = cc
found-eq-some (reply none) v h = cc
found-eq-some (reply (some item)) v h = (item, refl, cc)

module _ (E : Env) where
  -- Set drops the error of the store, which asks for the key of the entry.
  unfoldable pub set : String → CacheValue → Exec E.World (Unit {0})
  set key value w =
      let item : TencentCloudCacheEntry = record { key = key; value = value } in
      continue (cache_key_func (an_entry item))
        (λ _ v. let (_, w') = E.store_add item v in (ok tt, w')) w

  -- Get answers with nothing where the store fails or has no item.
  unfoldable pub get : String → Exec E.World (Option CacheValue)
  unfolding found
  get key w = let (item, w') = E.store_get_by_key key w in (ok (found item), w')

  -- Delete hands the key itself to the store, which asks cacheKeyFunc for the key of an object.
  unfoldable pub delete : String → Exec E.World Bool
  unfolding succeeded
  delete key w =
      continue (cache_key_func (a_string key))
        (λ k v. let (r, w') = E.store_delete k v in (ok (succeeded r), w')) w
