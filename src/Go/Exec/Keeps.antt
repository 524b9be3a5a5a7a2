-- ===== src/Go/Exec/Keeps.antt =====
-- Actions that keep a property of the world, whether they return, fail or panic.
use cloud_provider_tencent.Base.{ℕ, suc, Bool, true, false, List, [], ◌∷◌, ◌++◌, if◌then◌else◌}
use cloud_provider_tencent.Go.Errors.{Error}
use cloud_provider_tencent.Go.Exec.{
  Exec, Outcome, ok, err, panic, pure, raise, panics, continue, for_each, ◌>>=◌,
}
use cloud_provider_tencent.Go.Exec.Ensures.{Ensures}
use cloud_provider_tencent.Batch.{is_full, batch_loop}

pub record Keeps {W A : Type 0} (J : W → Type 0) (m : Exec W A) : Type 0 where
  pub at : (w : W) → J w → J (m w).1

module _ {W A : Type 0} {J : W → Type 0} where
  pub Keeps-pure : (a : A) → Keeps J (pure a)
  unfolding pure
  Keeps-pure a = record { at = λ w h. h }

  pub Keeps-raise : (e : Error) → Keeps {A = A} J (raise e)
  unfolding raise
  Keeps-raise e = record { at = λ w h. h }

  pub Keeps-panics : Keeps {A = A} J panics
  unfolding panics
  Keeps-panics = record { at = λ w h. h }

  pub Keeps-if : (b : Bool) (m n : Exec W A) → Keeps J m → Keeps J n → Keeps J (if b then m else n)
  Keeps-if true m n s t = s
  Keeps-if false m n s t = t

  pub Keeps-Ensures : {Q : A → Type 0} (m : Exec W A) → Ensures J Q m → Keeps J m
  Keeps-Ensures m t = record { at = λ w h. (t.at w h).0 }

module _ {W A B : Type 0} {J : W → Type 0} where
  continue-Keeps :
      (r : Outcome A) (k : A → Exec W B) (w : W)
      → J w
      → ((a : A) → Keeps J (k a))
      → J (continue r k w).1
  continue-Keeps (ok a) k w h t = (t a).at w h
  continue-Keeps (err x) k w h t = h
  continue-Keeps panic k w h t = h

  pub Keeps-bind :
      (m : Exec W A) (k : A → Exec W B) → Keeps J m → ((a : A) → Keeps J (k a)) → Keeps J (m >>= k)
  unfolding ◌>>=◌
  Keeps-bind m k s t = record { at = λ w h. continue-Keeps (m w).0 k (m w).1 (s.at w h) t }

module _ {W A : Type 0} {J : W → Type 0} where
  pub Keeps-for_each :
      (f : A → Exec W (Unit {0})) (xs : List A)
      → ((x : A) → Keeps J (f x))
      → Keeps J (for_each f xs)
  unfolding for_each
  Keeps-for_each f [] t = Keeps-pure tt
  Keeps-for_each f (x ∷ xs) t = Keeps-bind (f x) _ (t x) (λ _. Keeps-for_each f xs t)

module _ {W A S : Type 0} {J : W → Type 0} where
  pub Keeps-batch_loop :
      (size count : ℕ) (body : List A → S → Exec W S)
      → ((batch : List A) (s : S) → Keeps J (body batch s))
      → (i : ℕ) (pending xs : List A) (s : S) → Keeps J (batch_loop size count body i pending xs s)
  unfolding batch_loop
  Keeps-batch_loop size count body k i pending [] s = Keeps-pure s
  Keeps-batch_loop size count body k i pending (x ∷ xs) s =
      Keeps-if (is_full size count i) _ _
        (Keeps-bind (body (pending ++ (x ∷ [])) s) _ (k _ s)
          (λ t. Keeps-batch_loop size count body k (suc i) [] xs t))
        (Keeps-batch_loop size count body k (suc i) (pending ++ (x ∷ [])) xs s)
