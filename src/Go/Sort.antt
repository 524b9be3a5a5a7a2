-- ===== src/Go/Sort.antt =====
-- sort.Strings and sort.SearchStrings.
use cloud_provider_tencent.Base.{
  ℕ, zero, suc, ◌+◌, ◌/◌, Bool, true, false, not, Option, none, some, List, [], ◌∷◌, String, ltb,
  length, get_elem?, if◌then◌else◌,
}
use cloud_provider_tencent.Go.Strings.{less}
pub mod Order
pub mod Search

insert : String → List String → List String
insert x [] = x ∷ []
insert x (y ∷ ys) = let rest = insert x ys in if less y x then y ∷ rest else x ∷ y ∷ ys

-- sort.Strings. Equal strings cannot be told apart, so every way to sort gives this list.
unfoldable pub sort_strings : List String → List String
unfolding insert
sort_strings [] = []
sort_strings (x ∷ xs) = insert x (sort_strings xs)

-- sort.Search: the loop `for i < j`.
unfoldable pub search_from : ℕ → (ℕ → Bool) → ℕ → ℕ → ℕ
search_from zero f i j = i
search_from (suc fuel) f i j =
    let h = (i + j) / 2 in
    let right = search_from fuel f (h + 1) j in
    let left = search_from fuel f i h in if ltb i j then (if f h then left else right) else i

-- a[i] >= x, for the indexes i < len(a) at which the search asks.
unfoldable pub at_least : List String → String → ℕ → Bool
at_least a x i = elim (get_elem? a i) [ some s ↦ not (less s x) | none ↦ true ]

-- sort.SearchStrings
unfoldable pub search_strings : List String → String → ℕ
unfolding search_from at_least
search_strings a x = search_from (suc (length a)) (at_least a x) 0 (length a)
