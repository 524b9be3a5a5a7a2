-- ===== src/Go/Exec/Inversion.antt =====
-- What is known of the parts of an action that returned a value.
use cloud_provider_tencent.Base.{◌≡◌, refl, ap}
use cloud_provider_tencent.Go.Exec.{Exec, Outcome, ok, err, panic, value, continue, ◌>>=◌}

pub ok_inj : {A : Type 0} {a b : A} → ok a ≡ ok b → a ≡ b
ok_inj e = cc

pub value_inj : {A : Type 0} {a b : A} → value a ≡ value b → a ≡ b
value_inj e = cc

-- Runs that are the same end the same.
pub same_outcome : {W A : Type 0} {p q : Outcome A × W} → p ≡ q → p.0 ≡ q.0
same_outcome e = ap (λ r. r.0) e

module _ {W A B : Type 0} where
  -- The first action returned a value, and the rest ran from there.
  abbrev pub Split : Exec W A → (A → Exec W B) → W → Type 0
  Split m k w = (a : A) × ((m w).0 ≡ ok a) × ((m >>= k) w ≡ k a (m w).1)

  continue-ok :
      (r : Outcome A) (k : A → Exec W B) (w : W) (b : B)
      → (continue r k w).0 ≡ ok b
      → (a : A) × (r ≡ ok a) × (continue r k w ≡ k a w)
  continue-ok (ok a) k w b e = (a, refl, refl)
  continue-ok (err x) k w b e = absurd (cc)
  continue-ok panic k w b e = absurd (cc)

  pub bind-ok :
      (m : Exec W A) (k : A → Exec W B) (w : W) (b : B) → ((m >>= k) w).0 ≡ ok b → Split m k w
  unfolding ◌>>=◌
  bind-ok m k w b e = continue-ok (m w).0 k (m w).1 b e
