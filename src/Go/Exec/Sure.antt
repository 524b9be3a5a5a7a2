-- ===== src/Go/Exec/Sure.antt =====
-- Actions that return no error, though they may panic.
use cloud_provider_tencent.Base.{
  ℕ, suc, ◌≡◌, refl, Bool, true, false, List, [], ◌∷◌, ◌++◌, if◌then◌else◌,
}
use cloud_provider_tencent.Go.Exec.{Exec, Outcome, ok, err, panic, pure, panics, continue, ◌>>=◌}
use cloud_provider_tencent.Go.Exec.Ensures.{Ensures, Post}
use cloud_provider_tencent.Batch.{is_full, batch_loop}

-- The outcome is no error.
abbrev pub Fine : {A : Type 0} → Outcome A → Type 0
Fine (ok a) = Unit {0}
Fine (err e) = ⊥
Fine panic = Unit {0}

pub record Sure {W A : Type 0} (m : Exec W A) : Type 0 where
  pub at : (w : W) → Fine (m w).0

module _ {W A : Type 0} where
  pub Sure-pure : (a : A) → Sure {W = W} (pure a)
  unfolding pure
  Sure-pure a = record { at = λ w. tt }

  pub Sure-panics : Sure {W = W} {A = A} panics
  unfolding panics
  Sure-panics = record { at = λ w. tt }

  pub Sure-if : (b : Bool) (m n : Exec W A) → Sure m → Sure n → Sure (if b then m else n)
  Sure-if true m n s t = s
  Sure-if false m n s t = t

module _ {W A B : Type 0} where
  continue-Sure :
      (r : Outcome A) (k : A → Exec W B) (w : W)
      → Fine r
      → ((a : A) → Sure (k a))
      → Fine (continue r k w).0
  continue-Sure (ok a) k w h t = (t a).at w
  continue-Sure (err x) k w h t = h
  continue-Sure panic k w h t = h

  pub Sure-bind :
      (m : Exec W A) (k : A → Exec W B) → Sure m → ((a : A) → Sure (k a)) → Sure (m >>= k)
  unfolding ◌>>=◌
  Sure-bind m k s t = record { at = λ w. continue-Sure (m w).0 k (m w).1 (s.at w) t }

module _ {W A S : Type 0} where
  pub Sure-batch_loop :
      (size count : ℕ) (body : List A → S → Exec W S)
      → ((batch : List A) (s : S) → Sure (body batch s))
      → (i : ℕ) (pending xs : List A) (s : S) → Sure (batch_loop size count body i pending xs s)
  unfolding batch_loop
  Sure-batch_loop size count body k i pending [] s = Sure-pure s
  Sure-batch_loop size count body k i pending (x ∷ xs) s =
      Sure-if (is_full size count i) _ _
        (Sure-bind (body (pending ++ (x ∷ [])) s) _ (k _ s)
          (λ t. Sure-batch_loop size count body k (suc i) [] xs t))
        (Sure-batch_loop size count body k (suc i) (pending ++ (x ∷ [])) xs s)

-- No panic and no error is left but a value.
outcome_value :
    {A : Type 0} (Q : A → Type 0) (r : Outcome A) → Post Q r → Fine r → (a : A) × (r ≡ ok a)
outcome_value Q (ok a) p f = (a, refl)
outcome_value Q (err e) p f = absurd f
outcome_value Q panic p f = absurd p

module _ {W A : Type 0} {I : W → Type 0} {Q : A → Type 0} where
  pub Ensures-Sure :
      (m : Exec W A) → Ensures I Q m → Sure m → (w : W) → I w → (a : A) × ((m w).0 ≡ ok a)
  Ensures-Sure m s t w h = outcome_value Q (m w).0 ((s.at w h).1) (t.at w)
