-- ===== src/LoadBalancer/Service/Ensured.antt =====
-- pkg/tencentcloud/loadbalancer.go: EnsureLoadBalancer over the three steps that it is made of.
use cloud_provider_tencent.Base.{
  ◌≡◌, ◌∙◌, refl, sym, Bool-cases, inl, inr, not, List, string_eq, ◌==◌, true, false,
}
use cloud_provider_tencent.Go.Errors.{Error}
use cloud_provider_tencent.Go.Strings.{bytes}
use cloud_provider_tencent.Go.Exec.{Exec, Outcome, ok, err, pure, raise, ◌>>=◌}
use cloud_provider_tencent.Go.Exec.Inversion.{bind-ok, same_outcome}
use cloud_provider_tencent.Go.Exec.Keeps.{Keeps}
use cloud_provider_tencent.Sdk.{Service, Node, LoadBalancer}
use cloud_provider_tencent.Sdk.Env.{Env}
use cloud_provider_tencent.Cloud.{TxCloudConfig}
use cloud_provider_tencent.LoadBalancer.Lookup.{get_load_balancer_name, get_load_balancer}
use cloud_provider_tencent.LoadBalancer.Instance.{ensure_load_balancer_instance}
use cloud_provider_tencent.LoadBalancer.Listeners.{ensure_load_balancer_listeners}
use cloud_provider_tencent.LoadBalancer.Backends.{ensure_load_balancer_backends}
use cloud_provider_tencent.LoadBalancer.Service.{
  LoadBalancerStatus, status_of, service_affinity_none, affinity_unsupported, ensure_parts,
  ensure_load_balancer,
}

module _ (E : Env) (tx_config : TxCloudConfig) (service : Service) (nodes : List Node) where
  -- The worlds after the first step and after the second.
  abbrev pub after_instance : E.World → E.World
  after_instance w = (ensure_load_balancer_instance E tx_config service w).1

  abbrev pub after_listeners : E.World → E.World
  after_listeners w = (ensure_load_balancer_listeners E tx_config service (after_instance w)).1

  -- What follows the second step.
  abbrev pub rest : Exec E.World LoadBalancerStatus
  rest = ensure_load_balancer_backends E tx_config service nodes >>= λ _.
      get_load_balancer_name E tx_config service >>= λ name.
      get_load_balancer E tx_config name service >>= λ lb. pure (status_of lb)

  -- A run that returned went through the first two steps with no error.
  pub record Stepped (w : E.World) : Type 0 where
    pub instance_ok : (ensure_load_balancer_instance E tx_config service w).0 ≡ ok tt
    pub listeners_ok :
        (ensure_load_balancer_listeners E tx_config service (after_instance w)).0 ≡ ok tt
    pub run : ensure_load_balancer E tx_config service nodes w ≡ rest (after_listeners w)

  ensure_parts-Stepped :
      (w : E.World) (status : LoadBalancerStatus)
      → (ensure_parts E tx_config service nodes w).0 ≡ ok status
      → ensure_load_balancer E tx_config service nodes w ≡ ensure_parts E tx_config service nodes w
      → Stepped w
  unfolding ensure_parts
  ensure_parts-Stepped w status ran same =
      let (_, first, run1) =
        bind-ok (ensure_load_balancer_instance E tx_config service) _ w status ran in
      let (_, second, run2) =
        bind-ok (ensure_load_balancer_listeners E tx_config service) _ (after_instance w) status
          (same_outcome (sym run1) ∙ ran) in
      record { instance_ok = first; listeners_ok = second; run = same ∙ run1 ∙ run2 }

  pub ensure_load_balancer-Stepped :
      (w : E.World) (status : LoadBalancerStatus)
      → (ensure_load_balancer E tx_config service nodes w).0 ≡ ok status
      → Stepped w
  unfolding ensure_load_balancer raise bytes
  ensure_load_balancer-Stepped w status ran =
      elim (Bool-cases (not (service.session_affinity == service_affinity_none))) [
        | inl other ↦ absurd (refused (refuses other) ran)
        | inr none_asked ↦
            let same = accepts none_asked in
            ensure_parts-Stepped w status (same_outcome (sym same) ∙ ran) same
      ]
    where
      refused :
          {o : Outcome LoadBalancerStatus} {e : Error} {s : LoadBalancerStatus}
          → o ≡ err e
          → o ≡ ok s
          → ⊥
      refused a b = cc

      refuses :
          not (service.session_affinity == service_affinity_none) ≡ true
          → (ensure_load_balancer E tx_config service nodes w).0 ≡ err affinity_unsupported
      refuses h = rw h refl

      accepts :
          not (service.session_affinity == service_affinity_none) ≡ false
          → ensure_load_balancer E tx_config service nodes w
            ≡ ensure_parts E tx_config service nodes w
      accepts h = rw h refl
