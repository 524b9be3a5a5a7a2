-- ===== src/Go/Exec.antt =====
-- Functions that act on the world outside and return a value, return an error or panic. What was
-- done before an error stays done, so the world comes back beside it.
pub mod Ensures
pub mod Leads
pub mod Returns
pub mod Inversion
pub mod Keeps
pub mod Sure
use cloud_provider_tencent.Base.{List, [], ◌∷◌}
use cloud_provider_tencent.Go.Errors.{Error}

pub data Outcome {ℓ} (A : Type ℓ) : Type ℓ where
  ok : A → Outcome A
  err : Error → Outcome A
  panic : Outcome A

-- Go's pair of a value and an error, looked at by the caller.
pub data Result {ℓ} (A : Type ℓ) : Type ℓ where
  value : A → Result A
  error : Error → Result A

abbrev pub Exec {ℓ} : Type ℓ → Type ℓ → Type ℓ
Exec W A = W → Outcome A × W

module _ {ℓ} {W A : Type ℓ} where
  unfoldable pub pure : A → Exec W A
  pure a w = (ok a, w)

  unfoldable pub raise : Error → Exec W A
  raise e w = (err e, w)

  unfoldable pub panics : Exec W A
  panics w = (panic, w)

  unfoldable pub lift : Outcome A → Exec W A
  lift r w = (r, w)

  -- `if err != nil { return err }`
  unfoldable pub rethrow : Result A → Exec W A
  rethrow (value a) w = (ok a, w)
  rethrow (error e) w = (err e, w)

  abbrev pub returned : Outcome A → W → Outcome (Result A) × W
  returned (ok a) w = (ok (value a), w)
  returned (err e) w = (ok (error e), w)
  returned panic w = (panic, w)

  -- `a, err := m`, where the error is not passed on at once.
  unfoldable pub attempt : Exec W A → Exec W (Result A)
  attempt m w = let (r, w') = m w in returned r w'

module _ {ℓ} {W A B : Type ℓ} where
  abbrev pub continue : Outcome A → (A → Exec W B) → Exec W B
  continue (ok a) f w = f a w
  continue (err e) f w = (err e, w)
  continue panic f w = (panic, w)

  infixl 10 ◌>>=◌ ◌>>◌
  unfoldable pub ◌>>=◌ : Exec W A → (A → Exec W B) → Exec W B
  unfolding pure raise panics lift rethrow attempt
  ◌>>=◌ m f w = let (r, w') = m w in continue r f w'

  abbrev pub ◌>>◌ : Exec W A → Exec W B → Exec W B
  m >> n = m >>= λ _. n

module _ {W A : Type 0} where
  -- A loop over a list that stops at the first error.
  unfoldable pub for_each : (A → Exec W (Unit {0})) → List A → Exec W (Unit {0})
  unfolding ◌>>=◌
  for_each f [] = pure tt
  for_each f (x ∷ xs) = f x >>= λ _. for_each f xs
