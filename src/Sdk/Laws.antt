-- ===== src/Sdk/Laws.antt =====
-- What is relied on of the store of client-go and of the calls around it: the store hands out what
-- was added under the key, and loses entries (they expire, or are deleted) but never invents one.
use cloud_provider_tencent.Base.{◌≡◌, ◌⊎◌, Option, some, String}
use cloud_provider_tencent.Sdk.{CacheValue, Answer, reply}
use cloud_provider_tencent.Sdk.Env.{Env, TencentCloudCacheEntry}

-- Every entry of the second world stands in the first.
abbrev pub Drops : {W : Type 0} → (W → String → Option CacheValue) → W → W → Type 0
Drops peek w v =
    (key : String) (value : CacheValue) → peek v key ≡ some value → peek w key ≡ some value

-- A call that leaves the store alone, but for what expires meanwhile.
abbrev pub OnlyDrops :
    {W R A : Type 0} → (W → String → Option CacheValue) → (R → W → Answer A × W) → Type 0
OnlyDrops {W} {R} peek c = (r : R) (w : W) → Drops peek w (c r w).1

pub record StoreLaws (E : Env) : Type 0 where
  -- the entry that the store holds under a key
  pub peek : E.World → String → Option CacheValue
  pub get_by_key_peek :
      (key : String) (w : E.World) (item : TencentCloudCacheEntry)
      → (E.store_get_by_key key w).0 ≡ reply (some item)
      → peek w key ≡ some item.value
  pub add_peek :
      (item : TencentCloudCacheEntry) (w : E.World) (key : String) (value : CacheValue)
      → peek (E.store_add item w).1 key ≡ some value
      → ((key ≡ item.key) × (value ≡ item.value)) ⊎ (peek w key ≡ some value)
  pub get_by_key_drops : OnlyDrops peek E.store_get_by_key
  pub delete_drops : OnlyDrops peek E.store_delete
  pub sleep_drops : (w : E.World) → Drops peek w (E.sleep w)
  pub describe_instances_drops : OnlyDrops peek E.describe_instances
  pub describe_load_balancers_drops : OnlyDrops peek E.describe_load_balancers
  pub create_load_balancer_drops : OnlyDrops peek E.create_load_balancer
  pub delete_load_balancer_drops : OnlyDrops peek E.delete_load_balancer
  pub describe_listeners_drops : OnlyDrops peek E.describe_listeners
  pub create_listener_drops : OnlyDrops peek E.create_listener
  pub delete_listener_drops : OnlyDrops peek E.delete_listener
  pub describe_targets_drops : OnlyDrops peek E.describe_targets
  pub register_targets_drops : OnlyDrops peek E.register_targets
  pub deregister_targets_drops : OnlyDrops peek E.deregister_targets
  pub describe_task_status_drops : OnlyDrops peek E.describe_task_status
  pub describe_cluster_routes_drops : OnlyDrops peek E.describe_cluster_routes
  pub create_cluster_route_drops : OnlyDrops peek E.create_cluster_route
  pub delete_cluster_route_drops : OnlyDrops peek E.delete_cluster_route
