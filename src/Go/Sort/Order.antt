-- ===== src/Go/Sort/Order.antt =====
-- The order of strings, and that sort.Strings sorts.
use cloud_provider_tencent.Base.{
  ◌≡◌, refl, true, false, List, [], ◌∷◌, ◌||◌, arith, String, string_eq, ◌==◌, contains, All,
  Bool-cases, inl, inr,
}
use cloud_provider_tencent.Go.Strings.{less}
use cloud_provider_tencent.Go.Sort.{insert, sort_strings}

pub less_irrefl : (s : String) → less s s ≡ false
unfolding less
less_irrefl [] = refl
less_irrefl (x ∷ s) = ground (arith, less_irrefl s)

less_asymm : (s t : String) → less s t ≡ true → less t s ≡ false
unfolding less
less_asymm [] [] h = refl
less_asymm [] (y ∷ t) h = refl
less_asymm (x ∷ s) [] h = ground arith
less_asymm (x ∷ s) (y ∷ t) h = ground (arith, less_asymm s t)

pub less_antisymm : (s t : String) → less s t ≡ false → less t s ≡ false → s ≡ t
unfolding less
less_antisymm [] [] h k = refl
less_antisymm [] (y ∷ t) h k = ground arith
less_antisymm (x ∷ s) [] h k = ground arith
less_antisymm (x ∷ s) (y ∷ t) h k = ground (arith, less_antisymm s t)

-- `less t s ≡ false` is s ≤ t.
le_trans : (s t u : String) → less t s ≡ false → less u t ≡ false → less u s ≡ false
unfolding less
le_trans [] t [] h k = refl
le_trans [] t (z ∷ u) h k = refl
le_trans (x ∷ s) [] u h k = ground arith
le_trans (x ∷ s) (y ∷ t) [] h k = ground arith
le_trans (x ∷ s) (y ∷ t) (z ∷ u) h k = ground (arith, le_trans s t u)

abbrev pub IsSorted : List String → Type 0
IsSorted [] = Unit {0}
IsSorted (x ∷ xs) = All (λ y. less y x ≡ false) xs × IsSorted xs

pub All-le_trans :
    (x y : String) (ys : List String)
    → less y x ≡ false
    → All (λ z. less z y ≡ false) ys
    → All (λ z. less z x ≡ false) ys
All-le_trans x y [] h a = tt
All-le_trans x y (z ∷ ys) h (p, a) = (le_trans x y z h p, All-le_trans x y ys h a)

All-insert :
    (P : String → Type 0) (x : String) (ys : List String) → P x → All P ys → All P (insert x ys)
unfolding insert
All-insert P x [] p a = (p, tt)
All-insert P x (y ∷ ys) p (q, a) = elim (Bool-cases (less y x)) [
  | inl e ↦ rw e (q, All-insert P x ys p a)
  | inr e ↦ rw e (p, (q, a))
]

insert-IsSorted : (x : String) (ys : List String) → IsSorted ys → IsSorted (insert x ys)
unfolding insert
insert-IsSorted x [] a = (tt, tt)
insert-IsSorted x (y ∷ ys) (a, s) = elim (Bool-cases (less y x)) [
  | inl e ↦
      rw e (All-insert (λ z. less z y ≡ false) x ys (less_asymm y x e) a, insert-IsSorted x ys s)
  | inr e ↦ rw e ((e, All-le_trans x y ys e a), (a, s))
]

pub sort_strings-IsSorted : (xs : List String) → IsSorted (sort_strings xs)
unfolding sort_strings
sort_strings-IsSorted [] = tt
sort_strings-IsSorted (x ∷ xs) = insert-IsSorted x (sort_strings xs) (sort_strings-IsSorted xs)

contains-insert :
    (a x : String) (ys : List String) → contains a (insert x ys) ≡ (a == x || contains a ys)
unfolding insert contains
contains-insert a x [] = refl
contains-insert a x (y ∷ ys) = ground (arith, contains-insert a x ys)

-- Sorting neither loses nor invents a string.
pub contains-sort_strings :
    (a : String) (xs : List String) → contains a (sort_strings xs) ≡ contains a xs
unfolding sort_strings contains
contains-sort_strings a [] = refl
contains-sort_strings a (x ∷ xs) =
    ground (arith, contains-insert a x (sort_strings xs), contains-sort_strings a xs)
