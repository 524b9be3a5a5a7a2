-- ===== src/Base/Quantifiers.antt =====
-- What all or some elements of a list have, through the loops that build lists.
use mathlib.Core.Path.{◌≡◌, refl}
use mathlib.Core.Logic.{◌⊎◌, inl, inr}
use mathlib.Core.Bool.{Bool, true}
use mathlib.Core.List.{List, [], ◌∷◌, ◌++◌, map}
use cloud_provider_tencent.Base.Logic.{Bool-cases}
use cloud_provider_tencent.Base.Lists.{All, keep}

module _ {A : Type 0} where
  -- Some element has the property.
  abbrev pub Any : (A → Type 0) → List A → Type 0
  Any P [] = ⊥
  Any P (x ∷ xs) = P x ⊎ Any P xs

module _ {A : Type 0} (P Q : A → Type 0) where
  pub Any-mono : (xs : List A) → ((x : A) → P x → Q x) → Any P xs → Any Q xs
  Any-mono [] f a = elim a [ ]
  Any-mono (x ∷ xs) f (inl p) = inl (f x p)
  Any-mono (x ∷ xs) f (inr a) = inr (Any-mono xs f a)

  pub All-mono : (xs : List A) → ((x : A) → P x → Q x) → All P xs → All Q xs
  All-mono [] f a = tt
  All-mono (x ∷ xs) f (p, a) = (f x p, All-mono xs f a)

  -- What all have and what some have meet.
  pub All-Any : (xs : List A) → All P xs → Any Q xs → Any (λ x. P x × Q x) xs
  All-Any [] _ b = elim b [ ]
  All-Any (x ∷ xs) (p, a) (inl q) = inl (p, q)
  All-Any (x ∷ xs) (p, a) (inr b) = inr (All-Any xs a b)

  pub All-both : (xs : List A) → All P xs → All Q xs → All (λ x. P x × Q x) xs
  All-both [] a b = tt
  All-both (x ∷ xs) (p, a) (q, b) = ((p, q), All-both xs a b)

module _ {A : Type 0} (P : A → Type 0) where
  pub Any-absurd : (xs : List A) → ((x : A) → ¬ (P x)) → ¬ (Any P xs)
  Any-absurd [] f a = a
  Any-absurd (x ∷ xs) f (inl p) = f x p
  Any-absurd (x ∷ xs) f (inr a) = Any-absurd xs f a

  pub Any-elim {ℓ} : {C : Type ℓ} (xs : List A) → ((x : A) → P x → C) → Any P xs → C
  Any-elim [] f a = elim a [ ]
  Any-elim (x ∷ xs) f (inl p) = f x p
  Any-elim (x ∷ xs) f (inr a) = Any-elim xs f a

  pub Any-append_left : (xs ys : List A) → Any P xs → Any P (xs ++ ys)
  Any-append_left [] ys a = elim a [ ]
  Any-append_left (x ∷ xs) ys (inl p) = inl p
  Any-append_left (x ∷ xs) ys (inr a) = inr (Any-append_left xs ys a)

  pub Any-append_right : (xs ys : List A) → Any P ys → Any P (xs ++ ys)
  Any-append_right [] ys a = a
  Any-append_right (x ∷ xs) ys a = inr (Any-append_right xs ys a)

  -- An element that passes the test is kept.
  pub Any-keep : (p : A → Bool) (xs : List A) → Any (λ x. (p x ≡ true) × P x) xs → Any P (keep p xs)
  unfolding keep
  Any-keep p [] a = elim a [ ]
  Any-keep p (x ∷ xs) (inl (h, q)) = rw h (inl q)
  Any-keep p (x ∷ xs) (inr a) = elim (Bool-cases (p x)) [
    | inl h ↦ rw h (inr (Any-keep p xs a))
    | inr h ↦ rw h (Any-keep p xs a)
  ]

  -- A kept element has passed the test.
  pub All-keep_test :
      (p : A → Bool) (xs : List A) → All (λ x. p x ≡ true → P x) xs → All P (keep p xs)
  unfolding keep
  All-keep_test p [] a = tt
  All-keep_test p (x ∷ xs) (f, a) = elim (Bool-cases (p x)) [
    | inl h ↦ rw h (f h, All-keep_test p xs a)
    | inr h ↦ rw h (All-keep_test p xs a)
  ]

module _ {A B : Type 0} where
  pub Any-map :
      (P : B → Type 0) (f : A → B) (xs : List A) → Any (λ x. P (f x)) xs → Any P (map f xs)
  Any-map P f [] a = elim a [ ]
  Any-map P f (x ∷ xs) (inl p) = inl p
  Any-map P f (x ∷ xs) (inr a) = inr (Any-map P f xs a)

module _ {A B : Type 0} where
  -- Two searches can be made in either order.
  pub Any-swap :
      (R : A → B → Type 0) (xs : List A) (ys : List B)
      → Any (λ x. Any (λ y. R x y) ys) xs
      → Any (λ y. Any (λ x. R x y) xs) ys
  Any-swap R [] ys a = elim a [ ]
  Any-swap R (x ∷ xs) ys (inl b) = Any-mono (R x) _ ys (λ y r. inl r) b
  Any-swap R (x ∷ xs) ys (inr a) =
      Any-mono (λ y. Any (λ z. R z y) xs) _ ys (λ y r. inr r) (Any-swap R xs ys a)

module _ {A : Type 0} where
  -- What does not depend on the element comes out.
  pub Any-const : (C : Type 0) (P : A → Type 0) (xs : List A) → Any (λ x. C × P x) xs → C × Any P xs
  Any-const C P [] a = elim a [ ]
  Any-const C P (x ∷ xs) (inl (c, p)) = (c, inl p)
  Any-const C P (x ∷ xs) (inr a) = let (c, b) = Any-const C P xs a in (c, inr b)

  -- Each element of a list is in it.
  pub All-self : (xs : List A) → All (λ x. Any (λ y. y ≡ x) xs) xs
  All-self [] = tt
  All-self (x ∷ xs) =
      (inl refl, All-mono (λ y. Any (λ z. z ≡ y) xs) _ xs (λ y a. inr a) (All-self xs))

  -- Each element that passes the test is kept.
  pub All-kept :
      (p : A → Bool) (xs : List A) → All (λ x. p x ≡ true → Any (λ y. y ≡ x) (keep p xs)) xs
  All-kept p xs =
      All-mono (λ x. Any (λ y. y ≡ x) xs) _ xs
        (λ x a h. Any-keep (λ y. y ≡ x) p xs (Any-mono (λ y. y ≡ x) _ xs (λ y e. (rw e h, e)) a))
        (All-self xs)
