-- ===== src/LoadBalancer/Lookup.antt =====
-- pkg/tencentcloud/tencentcloud_loadbalancer.go: the name of a service's balancer, and the balancer
-- and its listeners by way of the cache.
pub mod Again
pub mod Footprint
use cloud_provider_tencent.Base.{
  none, some, List, [], ◌∷◌, ◌++◌, String, ltb, length, take, if◌then◌else◌,
}
use cloud_provider_tencent.Go.Strings.{bytes}
use cloud_provider_tencent.Go.Errors.{load_balancer_not_found}
use cloud_provider_tencent.Go.Exec.{Exec, pure, raise, panics, ◌>>=◌, ◌>>◌}
use cloud_provider_tencent.Sdk.{
  LoadBalancer, Listener, Service, CacheValue, instance_value, load_balancer_value, listeners_value,
}
use cloud_provider_tencent.Sdk.Env.{Env, call}
use cloud_provider_tencent.Cache
use cloud_provider_tencent.Cloud.{TxCloudConfig}
use cloud_provider_tencent.LoadBalancer.Annotations.{get_load_balancer_filter}

abbrev pub cache_name_pre_clb_listener : String
cache_name_pre_clb_listener = bytes "clb_listener_id_"

abbrev pub cache_name_pre_clb : String
cache_name_pre_clb = bytes "clb_id_"

-- The name before it is cut.
unfoldable pub full_name : TxCloudConfig → Service → String
full_name tx_config service =
    tx_config.clb_name_prefix ++ (bytes "_" ++ (service.namespace ++ (bytes "_" ++ service.name)))

module _ {W : Type 0} where
  -- A name of more than 60 bytes becomes its first 50, an underscore and uid[:8], which panics
  -- where the uid is shorter than that.
  unfoldable pub shorten : String → String → Exec W String
  shorten name uid =
      if ltb 60 (length name)
      then if ltb (length uid) 8 then panics else pure (take 50 name ++ (bytes "_" ++ take 8 uid))
      else pure name

  -- cacheValue.(*clb.LoadBalancer)
  unfoldable pub as_load_balancer : CacheValue → Exec W LoadBalancer
  as_load_balancer (load_balancer_value lb) = pure lb
  as_load_balancer (instance_value _) = panics
  as_load_balancer (listeners_value _) = panics

  -- cacheValue.([]*clb.Listener)
  unfoldable pub as_listeners : CacheValue → Exec W (List Listener)
  as_listeners (listeners_value ls) = pure ls
  as_listeners (instance_value _) = panics
  as_listeners (load_balancer_value _) = panics

module _ (E : Env) (tx_config : TxCloudConfig) where
  -- getLoadBalancerName
  unfoldable pub get_load_balancer_name : Service → Exec E.World String
  get_load_balancer_name service = shorten (full_name tx_config service) service.uid

  -- getLoadBalancerListeners
  unfoldable pub get_load_balancer_listeners : String → Exec E.World (List Listener)
  get_load_balancer_listeners load_balancer_id =
      let cache_key = cache_name_pre_clb_listener ++ load_balancer_id in
      Cache.get E cache_key >>= λ cache_value. elim cache_value [
        | some v ↦ as_listeners v
        | none ↦ call (E.describe_listeners load_balancer_id) >>= λ listeners.
            Cache.set E cache_key (listeners_value listeners) >> pure listeners
      ]

  -- The switch over the number of balancers found.
  unfoldable pub only_one : String → List LoadBalancer → Exec E.World LoadBalancer
  only_one cache_key [] = raise load_balancer_not_found
  only_one cache_key (lb ∷ []) = do Cache.set E cache_key (load_balancer_value lb); pure lb
  only_one cache_key (_ ∷ _ ∷ _) = raise load_balancer_not_found

  -- getLoadBalancer
  unfoldable pub get_load_balancer : String → Service → Exec E.World LoadBalancer
  get_load_balancer name service =
      let cache_key = cache_name_pre_clb ++ name in
      Cache.get E cache_key >>= λ cache_value. elim cache_value [
        | some v ↦ as_load_balancer v
        | none ↦
            call (
              E.describe_load_balancers
                (record { load_balancer_name = name; filters = get_load_balancer_filter service }))
            >>= only_one cache_key
      ]
