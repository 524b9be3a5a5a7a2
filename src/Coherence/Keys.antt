-- ===== src/Coherence/Keys.antt =====
-- The four prefixes of the cache's keys, of pkg/tencentcloud, and the type assertions on the values
-- under them.
use cloud_provider_tencent.Base.{◌≡◌, ◌++◌, inl, inr, subst, sym, String, arith}
use cloud_provider_tencent.Go.Strings.{bytes}
use cloud_provider_tencent.Go.Exec.Ensures.{Ensures, Ensures-pure}
use cloud_provider_tencent.Sdk.{CacheValue, instance_value, load_balancer_value, listeners_value}
use cloud_provider_tencent.Cloud.{TxCloudConfig}
use cloud_provider_tencent.Instances.Lookup.{
  cache_name_pre_vm_ip, cache_name_pre_vm_id, as_instance,
}
use cloud_provider_tencent.LoadBalancer.Lookup.{
  cache_name_pre_clb, cache_name_pre_clb_listener, as_load_balancer, as_listeners,
}
use cloud_provider_tencent.Coherence.{Coherent, HasIp, HasId}

module _ (a b : String) where
  vm_ip_inj : cache_name_pre_vm_ip ++ a ≡ cache_name_pre_vm_ip ++ b → a ≡ b
  unfolding bytes
  vm_ip_inj e = cc

  vm_id_inj : cache_name_pre_vm_id ++ a ≡ cache_name_pre_vm_id ++ b → a ≡ b
  unfolding bytes
  vm_id_inj e = cc

  vm_ip-ne-vm_id : ¬ (cache_name_pre_vm_ip ++ a ≡ cache_name_pre_vm_id ++ b)
  unfolding bytes
  vm_ip-ne-vm_id e = ground arith

  vm_ip-ne-clb : ¬ (cache_name_pre_vm_ip ++ a ≡ cache_name_pre_clb ++ b)
  unfolding bytes
  vm_ip-ne-clb e = ground arith

  vm_ip-ne-clb_listener : ¬ (cache_name_pre_vm_ip ++ a ≡ cache_name_pre_clb_listener ++ b)
  unfolding bytes
  vm_ip-ne-clb_listener e = ground arith

  vm_id-ne-clb : ¬ (cache_name_pre_vm_id ++ a ≡ cache_name_pre_clb ++ b)
  unfolding bytes
  vm_id-ne-clb e = ground arith

  vm_id-ne-clb_listener : ¬ (cache_name_pre_vm_id ++ a ≡ cache_name_pre_clb_listener ++ b)
  unfolding bytes
  vm_id-ne-clb_listener e = ground arith

  pub clb-ne-clb_listener : ¬ (cache_name_pre_clb ++ a ≡ cache_name_pre_clb_listener ++ b)
  unfolding bytes
  clb-ne-clb_listener e = ground arith

module _ {W : Type 0} {I : W → Type 0} (tx_config : TxCloudConfig) where
  -- A value cached under an address is an instance that has the address.
  pub as_instance-HasIp :
      (ip : String) (v : CacheValue)
      → Coherent tx_config (cache_name_pre_vm_ip ++ ip) v
      → Ensures I (HasIp tx_config ip) (as_instance v)
  unfolding as_instance
  as_instance-HasIp ip (instance_value i) (inl (ip', e, h)) =
      Ensures-pure i (subst (λ x. HasIp tx_config x i) (sym (vm_ip_inj ip ip' e)) h)
  as_instance-HasIp ip (instance_value i) (inr (id, e, h)) = absurd (vm_ip-ne-vm_id ip id e)
  as_instance-HasIp ip (load_balancer_value lb) (name, e) = absurd (vm_ip-ne-clb ip name e)
  as_instance-HasIp ip (listeners_value ls) (id, e) = absurd (vm_ip-ne-clb_listener ip id e)

  -- A value cached under an instance id is the instance with the id.
  pub as_instance-HasId :
      (id : String) (v : CacheValue)
      → Coherent tx_config (cache_name_pre_vm_id ++ id) v
      → Ensures I (HasId tx_config id) (as_instance v)
  unfolding as_instance
  as_instance-HasId id (instance_value i) (inl (ip, e, h)) = absurd (vm_ip-ne-vm_id ip id (sym e))
  as_instance-HasId id (instance_value i) (inr (id', e, h)) =
      Ensures-pure i (subst (λ x. HasId tx_config x i) (sym (vm_id_inj id id' e)) h)
  as_instance-HasId id (load_balancer_value lb) (name, e) = absurd (vm_id-ne-clb id name e)
  as_instance-HasId id (listeners_value ls) (id', e) = absurd (vm_id-ne-clb_listener id id' e)

  pub as_load_balancer-Ensures :
      (name : String) (v : CacheValue)
      → Coherent tx_config (cache_name_pre_clb ++ name) v
      → Ensures I (λ _. Unit {0}) (as_load_balancer v)
  unfolding as_load_balancer
  as_load_balancer-Ensures name (instance_value i) (inl (ip, e, h)) =
      absurd (vm_ip-ne-clb ip name (sym e))
  as_load_balancer-Ensures name (instance_value i) (inr (id, e, h)) =
      absurd (vm_id-ne-clb id name (sym e))
  as_load_balancer-Ensures name (load_balancer_value lb) c = Ensures-pure lb tt
  as_load_balancer-Ensures name (listeners_value ls) (id, e) =
      absurd (clb-ne-clb_listener name id e)

  pub as_listeners-Ensures :
      (id : String) (v : CacheValue)
      → Coherent tx_config (cache_name_pre_clb_listener ++ id) v
      → Ensures I (λ _. Unit {0}) (as_listeners v)
  unfolding as_listeners
  as_listeners-Ensures id (instance_value i) (inl (ip, e, h)) =
      absurd (vm_ip-ne-clb_listener ip id (sym e))
  as_listeners-Ensures id (instance_value i) (inr (id', e, h)) =
      absurd (vm_id-ne-clb_listener id' id (sym e))
  as_listeners-Ensures id (load_balancer_value lb) (name, e) =
      absurd (clb-ne-clb_listener name id (sym e))
  as_listeners-Ensures id (listeners_value ls) c = Ensures-pure ls tt
