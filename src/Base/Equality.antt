-- ===== src/Base/Equality.antt =====
-- Equality tests as an interface, and the searches of a list by them.
use Prim.Native.Nat.{ℕ}
use mathlib.Core.Path.{◌≡◌, refl}
use mathlib.Core.Logic.{◌↔◌}
use mathlib.Core.Bool.{Bool, true, false, ◌||◌, ◌&&◌}
use mathlib.Core.Option.{Option, none, some}
use mathlib.Core.List.{List, [], ◌∷◌, ◌++◌}
use native.Mathlib.Omega.{arith}
use cloud_provider_tencent.Base.Logic.{eqb, if◌then◌else◌}

-- A test that decides the equality of a type.
pub record Eq {κ} (T : Type κ) : Type κ where
  pub beq : T → T → Bool
  -- it says true of equal values, and of no others
  pub beq_iff : (x y : T) → (beq x y ≡ true) ↔ (x ≡ y)

module _ {κ} {T : Type κ} ⦃test : Eq T⦄ where
  infix 50 ◌==◌
  abbrev pub ◌==◌ : T → T → Bool
  x == y = test.beq x y

module _ {ℓ} {A : Type ℓ} ⦃e : Eq A⦄ where
  pub eq_refl : (a : A) → (a == a) ≡ true
  eq_refl a = (e.beq_iff a a).1 refl

  -- Whether a value stands in a list.
  unfoldable pub contains : A → List A → Bool
  contains a [] = false
  contains a (x ∷ xs) = a == x || contains a xs

  pub contains-append :
      (a : A) (xs ys : List A) → contains a (xs ++ ys) ≡ (contains a xs || contains a ys)
  unfolding contains
  contains-append a [] ys = refl
  contains-append a (x ∷ xs) ys = ground (arith, contains-append a xs ys)

  -- A Go map as an association list: `m[k]` with its second result.
  unfoldable pub get {κ} : {V : Type κ} → A → List (A × V) → Option V
  get k [] = none
  get k ((j, v) ∷ m) = if j == k then some v else get k m

list_beq : List ℕ → List ℕ → Bool
list_beq [] [] = true
list_beq (x ∷ xs) (y ∷ ys) = eqb x y && list_beq xs ys
list_beq _ _ = false

list_beq_iff : (xs ys : List ℕ) → (list_beq xs ys ≡ true) ↔ (xs ≡ ys)
unfolding list_beq
list_beq_iff [] [] = ground arith
list_beq_iff [] (y ∷ ys) = ground arith
list_beq_iff (x ∷ xs) [] = ground arith
list_beq_iff (x ∷ xs) (y ∷ ys) = ground (arith, list_beq_iff xs ys)

-- A Go string is its bytes.
abbrev pub String : Type 0
String = List ℕ

unfoldable pub string_beq : String → String → Bool
unfolding list_beq
string_beq s t = list_beq s t

pub string_beq_iff : (s t : String) → (string_beq s t ≡ true) ↔ (s ≡ t)
unfolding string_beq
string_beq_iff s t = list_beq_iff s t

instance abbrev pub string_eq : Eq String
string_eq = record { beq = string_beq; beq_iff = string_beq_iff }
