-- ===== src/Go/Sort/Search.antt =====
-- The binary search finds the first place that is not below the target.
use cloud_provider_tencent.Base.{
  ℕ, zero, suc, ◌+◌, ◌-◌, ◌/◌, ◌≤◌, ◌<◌, ◌≡◌, refl, Bool, true, false, not, Option, none, some,
  List, [], ◌∷◌, arith, String, string_eq, string_beq_iff, ◌==◌, contains, All, ltb, length,
  get_elem?, if◌then◌else◌, Bool-cases, inl, inr,
}
use cloud_provider_tencent.Go.Strings.{less}
use cloud_provider_tencent.Go.Sort.{search_from, at_least, search_strings}
use cloud_provider_tencent.Go.Sort.Order.{IsSorted, less_irrefl, less_antisymm, All-le_trans}

-- A test that turns true at `k` is searched to `k`.
search_from_lem :
    (fuel : ℕ) (f : ℕ → Bool) (k i j : ℕ)
    → ((h : ℕ) → h < j → f h ≡ not (ltb h k))
    → i ≤ k
    → k ≤ j
    → j - i < fuel
    → search_from fuel f i j ≡ k
unfolding search_from
search_from_lem zero f k i j t p q m = absurd (omega arith)
search_from_lem (suc fuel) f k i j t p q m = ground (
  arith,
  t ((i + j) / 2),
  search_from_lem fuel f k ((i + j) / 2 + 1) j t,
  search_from_lem fuel f k i ((i + j) / 2) (λ h lt. t h (omega arith)),
)

-- How many strings of a sorted list are below `x`.
abbrev pub below : String → List String → ℕ
below x [] = 0
below x (y ∷ ys) = if less y x then suc (below x ys) else 0

below-le : (x : String) (ys : List String) → below x ys ≤ length ys
below-le x [] = omega arith
below-le x (y ∷ ys) = ground (arith, below-le x ys)

at_least-All :
    (x : String) (ys : List String) (h : ℕ)
    → All (λ z. less z x ≡ false) ys
    → at_least ys x h ≡ true
unfolding at_least
at_least-All x [] h a = refl
at_least-All x (z ∷ ys) zero (p, a) = rw p
at_least-All x (z ∷ ys) (suc h) (p, a) = at_least-All x ys h a

at_least-below :
    (x : String) (ys : List String) (h : ℕ)
    → IsSorted ys
    → h < length ys
    → at_least ys x h ≡ not (ltb h (below x ys))
unfolding at_least
at_least-below x [] h s lt = absurd (omega arith)
at_least-below x (y ∷ ys) zero s lt = ground arith
at_least-below x (y ∷ ys) (suc h) (a, s) lt = elim (Bool-cases (less y x)) [
  | inl e ↦ ground (arith, at_least-below x ys h s)
  | inr e ↦ ground (arith, at_least-All x ys h (All-le_trans x y ys e a))
]

pub search_strings-below :
    (x : String) (ys : List String) → IsSorted ys → search_strings ys x ≡ below x ys
unfolding search_strings
search_strings-below x ys s =
    search_from_lem (suc (length ys)) (at_least ys x) (below x ys) 0 (length ys)
      (λ h lt. at_least-below x ys h s lt) (omega arith) (below-le x ys) (omega arith)

-- Nothing after a string above `x` is `x`.
not-contains-All :
    (x y : String) (ys : List String)
    → less x y ≡ true
    → All (λ z. less z y ≡ false) ys
    → contains x ys ≡ false
unfolding contains
not-contains-All x y [] h a = refl
not-contains-All x y (z ∷ ys) h (p, a) =
    ground (arith, string_beq_iff x z, not-contains-All x y ys h a)

abbrev pub is_at : Option String → String → Bool
is_at none x = false
is_at (some s) x = s == x

-- In a sorted list the string at the place found is the target exactly when the list holds it.
pub is_at-below :
    (x : String) (ys : List String)
    → IsSorted ys
    → is_at (get_elem? ys (below x ys)) x ≡ contains x ys
unfolding contains
is_at-below x [] s = refl
is_at-below x (y ∷ ys) (a, s) = elim (Bool-cases (less y x)) [
  | inl e ↦
      rw e
        (ground (arith, is_at-below x ys s, less_irrefl x, string_beq_iff y x, string_beq_iff x y))
  | inr e ↦ rw e (
      ground
        (arith, string_beq_iff y x, string_beq_iff x y, less_antisymm y x, not-contains-All x y ys))
]
