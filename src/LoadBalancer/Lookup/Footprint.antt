-- ===== src/LoadBalancer/Lookup/Footprint.antt =====
-- pkg/tencentcloud/tencentcloud_loadbalancer.go: the calls that the search for a balancer makes.
use cloud_provider_tencent.Base.{none, some, List, [], ◌∷◌, String, ltb, length}
use cloud_provider_tencent.Go.Exec.Keeps.{
  Keeps, Keeps-pure, Keeps-raise, Keeps-panics, Keeps-if, Keeps-bind,
}
use cloud_provider_tencent.Sdk.{
  Service, LoadBalancer, CacheValue, instance_value, load_balancer_value, listeners_value, Answer,
}
use cloud_provider_tencent.Sdk.Env.{Env, call}
use cloud_provider_tencent.Cache
use cloud_provider_tencent.Cloud.{TxCloudConfig}
use cloud_provider_tencent.LoadBalancer.Lookup.{
  full_name, shorten, as_load_balancer, get_load_balancer_name, only_one, get_load_balancer,
}

-- The call keeps what is known of the world.
abbrev pub KeptBy : {W R A : Type 0} → (W → Type 0) → (R → W → Answer A × W) → Type 0
KeptBy {W} {R} J c = (r : R) (w : W) → J w → J (c r w).1

-- What the search for a balancer keeps, by way of the cache.
pub record KeptBySearch (E : Env) (J : E.World → Type 0) : Type 0 where
  pub describe_load_balancers : KeptBy J E.describe_load_balancers
  pub store_add : KeptBy J E.store_add
  pub store_get_by_key : KeptBy J E.store_get_by_key

module _ (E : Env) (tx_config : TxCloudConfig) (J : E.World → Type 0) where
  pub call-Keeps :
      {R A : Type 0} (c : R → E.World → Answer A × E.World) (r : R)
      → KeptBy J c
      → Keeps J (call (c r))
  unfolding call
  call-Keeps c r k = record { at = λ w h. k r w h }

  pub name-Keeps : (service : Service) → Keeps J (get_load_balancer_name E tx_config service)
  unfolding get_load_balancer_name shorten
  name-Keeps service =
      Keeps-if (ltb 60 (length (full_name tx_config service))) _ _
        (Keeps-if (ltb (length service.uid) 8) _ _ Keeps-panics (Keeps-pure _)) (Keeps-pure _)

  as_load_balancer-Keeps : (v : CacheValue) → Keeps {W = E.World} J (as_load_balancer v)
  unfolding as_load_balancer
  as_load_balancer-Keeps (load_balancer_value lb) = Keeps-pure lb
  as_load_balancer-Keeps (instance_value i) = Keeps-panics
  as_load_balancer-Keeps (listeners_value ls) = Keeps-panics

  module _ (K : KeptBySearch E J) where
    pub get-Keeps : (key : String) → Keeps J (Cache.get E key)
    unfolding Cache.get
    get-Keeps key = record { at = λ w h. K.store_get_by_key key w h }

    pub set-Keeps : (key : String) (v : CacheValue) → Keeps J (Cache.set E key v)
    unfolding Cache.set
    set-Keeps key v = record { at = λ w h. K.store_add _ w h }

    only_one-Keeps :
        (key : String) (set : List LoadBalancer) → Keeps J (only_one E tx_config key set)
    unfolding only_one
    only_one-Keeps key [] = Keeps-raise _
    only_one-Keeps key (lb ∷ []) = Keeps-bind _ _ (set-Keeps key _) (λ _. Keeps-pure lb)
    only_one-Keeps key (_ ∷ _ ∷ _) = Keeps-raise _

    pub get_load_balancer-Keeps :
        (name : String) (service : Service) → Keeps J (get_load_balancer E tx_config name service)
    unfolding get_load_balancer
    get_load_balancer-Keeps name service = Keeps-bind _ _ (get-Keeps _) (elim [
      | none ↦
          Keeps-bind _ _ (call-Keeps E.describe_load_balancers _ K.describe_load_balancers)
            (λ set. only_one-Keeps _ set)
      | some v ↦ as_load_balancer-Keeps v
    ])
