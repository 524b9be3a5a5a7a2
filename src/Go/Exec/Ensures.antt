-- ===== src/Go/Exec/Ensures.antt =====
-- Triples for actions: from a world that keeps an invariant the action ends in one that keeps it,
-- it does not panic, and a value that it returns meets the postcondition. One rule for each way to
-- build an action.
use cloud_provider_tencent.Base.{◌≡◌, refl, Bool, true, false, List, [], ◌∷◌, if◌then◌else◌}
use cloud_provider_tencent.Go.Errors.{Error}
use cloud_provider_tencent.Go.Exec.{
  Exec, Outcome, ok, err, panic, Result, value, error, pure, raise, rethrow, attempt, returned,
  continue, for_each, ◌>>=◌,
}

module _ {A : Type 0} (Q : A → Type 0) where
  abbrev pub Post : Outcome A → Type 0
  Post (ok a) = Q a
  Post (err e) = Unit {0}
  Post panic = ⊥

  -- The postcondition of `attempt`.
  abbrev pub OnValue : Result A → Type 0
  OnValue (value a) = Q a
  OnValue (error e) = Unit {0}

pub record Ensures {W A : Type 0} (I : W → Type 0) (Q : A → Type 0) (m : Exec W A) : Type 0 where
  pub at : (w : W) → I w → I (m w).1 × Post Q (m w).0

module _ {W A : Type 0} (I : W → Type 0) (Q : A → Type 0) where
  returned_ensures :
      (r : Outcome A) (w : W)
      → I w × Post Q r
      → I (returned r w).1 × Post (OnValue Q) (returned r w).0
  returned_ensures (ok a) w h = h
  returned_ensures (err e) w h = h
  returned_ensures panic w h = absurd h.1

module _ {A : Type 0} (P Q : A → Type 0) where
  weaken-Post : (r : Outcome A) → ((a : A) → P a → Q a) → Post P r → Post Q r
  weaken-Post (ok a) f h = f a h
  weaken-Post (err e) f h = h
  weaken-Post panic f h = h

module _ {W A : Type 0} {I : W → Type 0} {Q : A → Type 0} where
  pub Ensures-pure : (a : A) → Q a → Ensures I Q (pure a)
  unfolding pure
  Ensures-pure a q = record { at = λ w h. (h, q) }

  pub Ensures-raise : (e : Error) → Ensures I Q (raise e)
  unfolding raise
  Ensures-raise e = record { at = λ w h. (h, tt) }

  pub Ensures-rethrow : (r : Result A) → OnValue Q r → Ensures I Q (rethrow r)
  unfolding rethrow
  Ensures-rethrow (value a) q = record { at = λ w h. (h, q) }
  Ensures-rethrow (error e) q = record { at = λ w h. (h, tt) }

  pub Ensures-if :
      (b : Bool) (m n : Exec W A)
      → (b ≡ true → Ensures I Q m)
      → (b ≡ false → Ensures I Q n)
      → Ensures I Q (if b then m else n)
  Ensures-if true m n f g = f refl
  Ensures-if false m n f g = g refl

  pub Ensures-attempt : (m : Exec W A) → Ensures I Q m → Ensures I (OnValue Q) (attempt m)
  unfolding attempt
  Ensures-attempt m k = record {
    at = λ w h. let (r, w') = m w in returned_ensures I Q r w' (k.at w h);
  }

module _ {W A B : Type 0} {I : W → Type 0} {P : A → Type 0} {Q : B → Type 0} where
  continue-Ensures :
      (r : Outcome A) (w : W) (f : A → Exec W B)
      → I w × Post P r
      → ((a : A) → P a → Ensures I Q (f a))
      → I (continue r f w).1 × Post Q (continue r f w).0
  continue-Ensures (ok a) w f h k = (k a h.1).at w h.0
  continue-Ensures (err e) w f h k = h
  continue-Ensures panic w f h k = absurd h.1

  pub Ensures-bind :
      (m : Exec W A) (f : A → Exec W B)
      → Ensures I P m
      → ((a : A) → P a → Ensures I Q (f a))
      → Ensures I Q (m >>= f)
  unfolding ◌>>=◌
  Ensures-bind m f km kf = record {
    at = λ w h. let (r, w') = m w in continue-Ensures r w' f (km.at w h) kf;
  }

module _ {W A : Type 0} {I : W → Type 0} where
  pub Ensures-for_each :
      (f : A → Exec W (Unit {0})) (xs : List A)
      → ((x : A) → Ensures I (λ _. Unit {0}) (f x))
      → Ensures I (λ _. Unit {0}) (for_each f xs)
  unfolding for_each
  Ensures-for_each f [] k = Ensures-pure tt tt
  Ensures-for_each f (x ∷ xs) k =
      Ensures-bind (f x) (λ _. for_each f xs) (k x) (λ _ _. Ensures-for_each f xs k)

-- A weaker postcondition.
module _ {W A : Type 0} {I : W → Type 0} {P Q : A → Type 0} where
  pub Ensures-weaken : (m : Exec W A) → ((a : A) → P a → Q a) → Ensures I P m → Ensures I Q m
  Ensures-weaken m f k = record {
    at = λ w h. let (r, w') = m w in let hp = k.at w h in (hp.0, weaken-Post P Q r f hp.1);
  }
