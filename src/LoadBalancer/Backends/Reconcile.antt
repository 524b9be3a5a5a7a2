-- ===== src/LoadBalancer/Backends/Reconcile.antt =====
-- pkg/tencentcloud/tencentcloud_loadbalancer.go: what deleting the unused backends of a listener and
-- adding the needed ones comes to.
use cloud_provider_tencent.Base.{
  ◌≡◌, ◌∙◌, refl, sym, ap, Bool, true, false, not, ◌&&◌, List, [], ◌∷◌, ◌++◌, map, Eq, string_eq,
  int_eq, string_beq_iff, int_beq_iff, ◌==◌, ◌↔◌, contains, contains-append, eq_refl, keep, arith,
  All, All-mono, All-of_contains, Bool-cases, inl, inr,
}
use cloud_provider_tencent.Sdk.{Instance, ServicePort, Target}
use cloud_provider_tencent.LoadBalancer.Backends.{
  is_backend, has_instance, has_backend, backends_to_delete, target_of, backends_to_add,
}

pub target_beq : Target → Target → Bool
target_beq t u = t.instance_id == u.instance_id && t.port == u.port

pub target_beq_iff : (t u : Target) → (target_beq t u ≡ true) ↔ (t ≡ u)
unfolding target_beq
target_beq_iff t u =
    ground (arith, string_beq_iff t.instance_id u.instance_id, int_beq_iff t.port u.port)

instance abbrev pub target_eq : Eq Target
target_eq = record { beq = target_beq; beq_iff = target_beq_iff }

module _ {ℓ} {A : Type ℓ} ⦃e : Eq A⦄ where
  -- Membership in what a test keeps.
  pub contains-keep :
      (p : A → Bool) (a : A) (xs : List A) → contains a (keep p xs) ≡ (contains a xs && p a)
  unfolding contains keep
  contains-keep p a [] = refl
  contains-keep p a (x ∷ xs) = elim (Bool-cases (a == x)) [
    | inl same ↦ ground (arith, contains-keep p a xs, ap p ((e.beq_iff a x).0 same), same)
    | inr differs ↦ ground (arith, contains-keep p a xs, differs)
  ]

module _ (port : ServicePort) (instances : List Instance) where
  -- The backends of the listener after the deletions and the additions.
  unfoldable pub reconciled : List Target → List Target
  reconciled targets =
      keep (λ t. not (contains t (backends_to_delete port instances targets))) targets
      ++ backends_to_add port instances targets

  pub contains-backends_to_delete :
      (t : Target) (targets : List Target)
      → contains t (backends_to_delete port instances targets)
        ≡ (contains t targets && not (has_instance port instances t))
  unfolding backends_to_delete
  contains-backends_to_delete t targets = contains-keep _ t targets

-- A backend of an instance is there when its target is.
has_backend-contains :
    (port : ServicePort) (targets : List Target) (i : Instance)
    → has_backend port targets i ≡ contains (target_of port i) targets
unfolding has_backend contains target_of target_beq is_backend
has_backend-contains port [] i = refl
has_backend-contains port (b ∷ targets) i = ground (
  arith,
  has_backend-contains port targets i,
  string_beq_iff b.instance_id i.instance_id,
  string_beq_iff i.instance_id b.instance_id,
  int_beq_iff b.port port.node_port,
  int_beq_iff port.node_port b.port,
)

pub contains-backends_to_add :
    (port : ServicePort) (instances : List Instance) (t : Target) (targets : List Target)
    → contains t (backends_to_add port instances targets)
      ≡ (has_instance port instances t && not (contains t targets))
unfolding backends_to_add has_instance contains keep target_beq target_of is_backend
contains-backends_to_add port [] t targets = refl
contains-backends_to_add port (i ∷ instances) t targets =
    elim (Bool-cases (target_beq t (target_of port i))) [
      | inl same ↦ ground (
        arith,
        contains-backends_to_add port instances t targets,
        has_backend-contains port targets i,
        ap (λ u. contains u targets) ((target_beq_iff t (target_of port i)).0 same),
        same,
      )
      | inr differs ↦ ground (arith, contains-backends_to_add port instances t targets, differs)
    ]

-- For every port, instances and backends: after the deletions and the additions a target is a
-- backend of the listener exactly when it is one of the instances at the port's node port.
contains-reconciled :
    (port : ServicePort) (instances : List Instance) (targets : List Target) (t : Target)
    → contains t (reconciled port instances targets) ≡ has_instance port instances t
unfolding reconciled
contains-reconciled port instances targets t =
    rw (contains-append, contains-keep, contains-backends_to_delete port instances t targets)
      (ground (arith, contains-backends_to_add port instances t targets))

keep-eq-nil {ℓ} :
    {A : Type ℓ} (p : A → Bool) (xs : List A) → All (λ x. p x ≡ false) xs → keep p xs ≡ []
unfolding keep
keep-eq-nil p [] a = refl
keep-eq-nil p (x ∷ xs) (h, a) = rw h (keep-eq-nil p xs a)

-- Each instance of a list is wanted, also in a longer list.
has_instance-target_of :
    (port : ServicePort) (all instances : List Instance)
    → ((t : Target) → has_instance port instances t ≡ true → has_instance port all t ≡ true)
    → All (λ i. has_instance port all (target_of port i) ≡ true) instances
unfolding has_instance is_backend target_of
has_instance-target_of port all [] f = tt
has_instance-target_of port all (i ∷ instances) f = (
  f (target_of port i) (ground (arith, eq_refl i.instance_id, eq_refl port.node_port)),
  has_instance-target_of port all instances (λ t h. f t (ground (arith, h))),
)

-- For every port, instances and backends: once the backends are reconciled, another round deletes
-- nothing and adds nothing.
pub reconciled_idem :
    (port : ServicePort) (instances : List Instance) (targets : List Target)
    → (backends_to_delete port instances (reconciled port instances targets) ≡ [])
      × (backends_to_add port instances (reconciled port instances targets) ≡ [])
unfolding backends_to_delete backends_to_add
reconciled_idem port instances targets = (
  keep-eq-nil _ _ (
      All-of_contains (λ t. not (has_instance port instances t) ≡ false)
        (reconciled port instances targets)
        (λ t h. rw (sym (contains-reconciled port instances targets t) ∙ h))),
  ap (map (target_of port)) (
      keep-eq-nil _ instances (
        All-mono (λ i. has_instance port instances (target_of port i) ≡ true) _ instances
          (λ i h.
            rw (has_backend-contains port (reconciled port instances targets) i)
              (rw (contains-reconciled port instances targets (target_of port i) ∙ h)))
          (has_instance-target_of port instances instances (λ t h. h)))),
)
