-- ===== src/Go/Exec/Returns.antt =====
-- Actions that return a value from every world.
use cloud_provider_tencent.Base.{◌≡◌, refl, List, [], ◌∷◌, All}
use cloud_provider_tencent.Go.Exec.{Exec, Outcome, ok, err, panic, pure, continue, for_each, ◌>>=◌}

pub record Returns {W A : Type 0} (m : Exec W A) : Type 0 where
  pub at : (w : W) → (a : A) × ((m w).0 ≡ ok a)

module _ {W A : Type 0} where
  pub Returns-pure : (a : A) → Returns {W = W} (pure a)
  unfolding pure
  Returns-pure a = record { at = λ w. (a, refl) }

module _ {W A B : Type 0} where
  continue-Returns :
      (r : Outcome A) (k : A → Exec W B) (w : W) (a : A)
      → r ≡ ok a
      → ((x : A) → Returns (k x))
      → (b : B) × ((continue r k w).0 ≡ ok b)
  continue-Returns (ok x) k w a e t = (t x).at w
  continue-Returns (err x) k w a e t = absurd (cc)
  continue-Returns panic k w a e t = absurd (cc)

  pub Returns-bind :
      (m : Exec W A) (k : A → Exec W B) → Returns m → ((a : A) → Returns (k a)) → Returns (m >>= k)
  unfolding ◌>>=◌
  Returns-bind m k s t = record {
    at = λ w. continue-Returns (m w).0 k (m w).1 (s.at w).0 (s.at w).1 t;
  }

module _ {W A : Type 0} where
  pub Returns-for_each :
      (f : A → Exec W (Unit {0})) (xs : List A)
      → All (λ x. Returns (f x)) xs
      → Returns (for_each f xs)
  unfolding for_each
  Returns-for_each f [] a = Returns-pure tt
  Returns-for_each f (x ∷ xs) (s, a) = Returns-bind (f x) _ s (λ _. Returns-for_each f xs a)
