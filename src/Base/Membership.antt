-- ===== src/Base/Membership.antt =====
-- The Boolean membership test against the predicates on lists.
use mathlib.Core.Path.{◌≡◌, refl, subst, sym}
use mathlib.Core.Logic.{◌⊎◌, inl, inr}
use mathlib.Core.Bool.{Bool, true, false, ◌||◌}
use mathlib.Core.List.{List, [], ◌∷◌}
use native.Mathlib.Omega.{arith}
use cloud_provider_tencent.Base.Logic.{Bool-cases}
use cloud_provider_tencent.Base.Lists.{All, keep}
use cloud_provider_tencent.Base.Equality.{Eq, ◌==◌, contains, eq_refl}

pub or-true : (a b : Bool) → (a || b) ≡ true → (a ≡ true) ⊎ (b ≡ true)
or-true true b h = inl refl
or-true false b h = inr h

module _ {ℓ κ} {A : Type ℓ} ⦃e : Eq A⦄ (P : A → Type κ) where
  pub All-contains : (x : A) (xs : List A) → All P xs → contains x xs ≡ true → P x
  unfolding contains
  All-contains x [] a h = absurd (cc)
  All-contains x (y ∷ ys) (p, a) h = elim (or-true (x == y) (contains x ys) h) [
    | inl q ↦ subst P (sym ((e.beq_iff x y).0 q)) p
    | inr q ↦ All-contains x ys a q
  ]

  pub All-of_contains : (xs : List A) → ((x : A) → contains x xs ≡ true → P x) → All P xs
  unfolding contains
  All-of_contains [] f = tt
  All-of_contains (x ∷ xs) f =
      (f x (rw (eq_refl x)), All-of_contains xs (λ y h. f y (ground (arith, h))))

module _ {ℓ κ} {A : Type ℓ} (P : A → Type κ) where
  -- A loop that keeps elements keeps a property of all of them.
  pub All-keep : (p : A → Bool) (xs : List A) → All P xs → All P (keep p xs)
  unfolding keep
  All-keep p [] a = tt
  All-keep p (x ∷ xs) (q, a) = elim (Bool-cases (p x)) [
    | inl h ↦ rw h (q, All-keep p xs a)
    | inr h ↦ rw h (All-keep p xs a)
  ]
