-- ===== src/LoadBalancer/Name.antt =====
-- pkg/tencentcloud/tencentcloud_loadbalancer.go: what getLoadBalancerName promises, the limit of 60
-- bytes that the service sets for a name.
pub mod Distinct
use cloud_provider_tencent.Base.{
  ◌≤◌, ◌<◌, ◌≡◌, refl, ◌++◌, String, length, length-append, length-take, take, ltb, ltb→lt, arith,
  ◌⊎◌, if◌then◌else◌, Bool-cases, inl, inr,
}
use cloud_provider_tencent.Go.Strings.{bytes}
use cloud_provider_tencent.Go.Exec.{ok, pure}
use cloud_provider_tencent.Sdk.{Service}
use cloud_provider_tencent.Sdk.Env.{Env}
use cloud_provider_tencent.Cloud.{TxCloudConfig}
use cloud_provider_tencent.LoadBalancer.Lookup.{full_name, shorten, get_load_balancer_name}

-- The name that getLoadBalancerName settles on where it does not panic.
abbrev pub short_name : String → String → String
short_name name uid =
    if ltb 60 (length name) then take 50 name ++ (bytes "_" ++ take 8 uid) else name

cut_length : (name uid : String) → length (take 50 name ++ (bytes "_" ++ take 8 uid)) ≤ 59
unfolding bytes
cut_length name uid = omega (
  arith,
  length-append (take 50 name) (bytes "_" ++ take 8 uid),
  length-take 50 name,
  length-take 8 uid,
)

short_name-le : (name uid : String) → length (short_name name uid) ≤ 60
short_name-le name uid = ground (arith, cut_length name uid)

module _ {W : Type 0} where
  pub shorten_ok :
      (name uid : String) (w : W)
      → 8 ≤ length uid
      → shorten name uid w ≡ (ok (short_name name uid), w)
  unfolding shorten pure
  shorten_ok name uid w h = ground arith

module _ (E : Env) (tx_config : TxCloudConfig) where
  -- For a service whose uid has at least eight bytes, getLoadBalancerName returns a name without
  -- touching the world. The name has at most 60 bytes: it is prefix_namespace_name where that has,
  -- and else the first 50 bytes of it, an underscore and the first 8 bytes of the uid.
  pub get_load_balancer_name-le :
      (service : Service) (w : E.World)
      → 8 ≤ length service.uid
      → (name : String) × (get_load_balancer_name E tx_config service w ≡ (ok name, w))
        × (length name ≤ 60)
        × (((length (full_name tx_config service) ≤ 60) × (name ≡ full_name tx_config service))
            ⊎ ((60 < length (full_name tx_config service))
                × (name
                    ≡ take 50 (full_name tx_config service) ++ (bytes "_" ++ take 8 service.uid))))
  unfolding get_load_balancer_name
  get_load_balancer_name-le service w h = (
    short_name (full_name tx_config service) service.uid,
    shorten_ok (full_name tx_config service) service.uid w h,
    short_name-le (full_name tx_config service) service.uid,
    elim (Bool-cases (ltb 60 (length (full_name tx_config service)))) [
      | inl long ↦ inr (ltb→lt _ _ long, rw long refl)
      | inr short ↦ inl (ground (arith, short), rw short refl)
    ],
  )
