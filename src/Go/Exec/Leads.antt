-- ===== src/Go/Exec/Leads.antt =====
-- Triples for actions that return: from a world with a property, an action that returns a value
-- ends in a world with another. Of an action that fails they say nothing.
use cloud_provider_tencent.Base.{◌≡◌, refl, List, [], ◌∷◌, ◌++◌, All}
use cloud_provider_tencent.Go.Errors.{Error}
use cloud_provider_tencent.Go.Exec.{
  Exec, Outcome, ok, err, panic, pure, raise, continue, for_each, ◌>>=◌,
}
use cloud_provider_tencent.Go.Exec.Ensures.{Ensures}

pub record Leads {W A : Type 0} (I J : W → Type 0) (m : Exec W A) : Type 0 where
  pub at : (w : W) → I w → (a : A) → (m w).0 ≡ ok a → J (m w).1

module _ {W A : Type 0} {I J : W → Type 0} where
  pub Leads-pure : (a : A) → ((w : W) → I w → J w) → Leads I J (pure a)
  unfolding pure
  Leads-pure a f = record { at = λ w h b e. f w h }

  pub Leads-raise : (e : Error) → Leads {A = A} I J (raise e)
  unfolding raise
  Leads-raise x = record { at = λ w h b e. absurd (cc) }

module _ {W A : Type 0} {I : W → Type 0} where
  pub Leads-Ensures : {Q : A → Type 0} (m : Exec W A) → Ensures I Q m → Leads I I m
  Leads-Ensures m t = record { at = λ w h b e. (t.at w h).0 }

module _ {W A B : Type 0} {J K : W → Type 0} where
  continue-Leads :
      (r : Outcome A) (k : A → Exec W B) (w : W)
      → ((a : A) → r ≡ ok a → J w)
      → ((a : A) → Leads J K (k a))
      → (b : B) → (continue r k w).0 ≡ ok b
      → K (continue r k w).1
  continue-Leads (ok a) k w h t b e = (t a).at w (h a refl) b e
  continue-Leads (err x) k w h t b e = absurd (cc)
  continue-Leads panic k w h t b e = absurd (cc)

module _ {W A B : Type 0} {I J K : W → Type 0} where
  pub Leads-bind :
      (m : Exec W A) (k : A → Exec W B)
      → Leads I J m
      → ((a : A) → Leads J K (k a))
      → Leads I K (m >>= k)
  unfolding ◌>>=◌
  Leads-bind m k s t = record { at = λ w h b e. continue-Leads (m w).0 k (m w).1 (s.at w h) t b e }

module _ {W A : Type 0} {I J K : W → Type 0} where
  pub Leads-mono : (m : Exec W A) → ((w : W) → J w → K w) → Leads I J m → Leads I K m
  Leads-mono m f t = record { at = λ w h a e. f (m w).1 (t.at w h a e) }

module _ {W A : Type 0} {I : W → Type 0} where
  -- A loop that keeps what holds.
  pub Leads-for_each :
      (f : A → Exec W (Unit {0})) (P : A → Type 0)
      → ((x : A) → P x → Leads I I (f x))
      → (xs : List A) → All P xs
      → Leads I I (for_each f xs)
  unfolding for_each
  Leads-for_each f P t [] a = Leads-pure tt (λ w h. h)
  Leads-for_each f P t (x ∷ xs) (p, a) = Leads-bind (f x) _ (t x p) (λ _. Leads-for_each f P t xs a)

module _ {W A : Type 0} {I J : W → Type 0} where
  -- A loop that does its work at one element.
  pub Leads-for_each_at :
      (f : A → Exec W (Unit {0})) (P : A → Type 0)
      → ((x : A) → P x → Leads I I (f x))
      → ((x : A) → P x → Leads J J (f x))
      → (x : A) → Leads I J (f x)
      → (before after : List A) → All P before
      → All P after
      → Leads I J (for_each f (before ++ (x ∷ after)))
  unfolding for_each
  Leads-for_each_at f P s t x m [] after a b =
      Leads-bind (f x) _ m (λ _. Leads-for_each f P t after b)
  Leads-for_each_at f P s t x m (y ∷ before) after (p, a) b =
      Leads-bind (f y) _ (s y p) (λ _. Leads-for_each_at f P s t x m before after a b)
