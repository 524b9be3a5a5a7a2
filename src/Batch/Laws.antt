-- ===== src/Batch/Laws.antt =====
-- What the loop hands over, whatever its body does.
use native.Mathlib.Nat.{mod_self, suc-mod}
use native.Mathlib.Numerals.{add-one}
use cloud_provider_tencent.Base.{
  ℕ, suc, ◌+◌, ◌%◌, ◌≤◌, ◌<◌, ◌≡◌, ◌≢◌, refl, sym, ◌∙◌, ap, fun_ext, true, false, List, [], ◌∷◌,
  ◌++◌, arith, eqb, length, length-append, concat, All, append_assoc, append-nil, if◌then◌else◌,
  Bool-cases, inl, inr,
}
use cloud_provider_tencent.Go.Exec.{Exec, pure, ◌>>=◌}
use cloud_provider_tencent.Batch.{is_full, batch_loop, in_batches}

full_fits : (n size m : ℕ) → eqb (n + 1) size ≡ true → m ≡ n + 1 → m ≤ size
full_fits n size m e k = ground arith

longer_fits : (n size m : ℕ) → n < size → eqb (n + 1) size ≡ false → m ≡ n + 1 → m < size
longer_fits n size m h e k = ground arith

module _ {A : Type 0} where
  -- The batches of a list behind `pending`, cut by their length.
  unfoldable pub batches : ℕ → List A → List A → List (List A)
  batches size pending [] = []
  batches size pending (x ∷ []) = (pending ++ (x ∷ [])) ∷ []
  batches size pending (x ∷ y ∷ ys) =
      let cut = (pending ++ (x ∷ [])) ∷ batches size [] (y ∷ ys) in
      let longer = batches size (pending ++ (x ∷ [])) (y ∷ ys) in
      if eqb (length pending + 1) size then cut else longer

  -- Nothing is lost, repeated or reordered.
  concat-batches :
      (size : ℕ) (pending xs : List A) → xs ≢ [] → concat (batches size pending xs) ≡ pending ++ xs
  unfolding concat batches
  concat-batches size pending [] h = absurd (h refl)
  concat-batches size pending (x ∷ []) h = rw append-nil
  concat-batches size pending (x ∷ y ∷ ys) h = ground (
    arith,
    append_assoc pending (x ∷ []) (y ∷ ys),
    concat-batches size [] (y ∷ ys),
    concat-batches size (pending ++ (x ∷ [])) (y ∷ ys),
  )

  abbrev pub Fits : ℕ → List A → Type 0
  Fits size batch = (0 < length batch) × (length batch ≤ size)

  -- A batch is never empty and never longer than the size.
  batches-fit :
      (size : ℕ) (pending xs : List A)
      → length pending < size
      → All (Fits size) (batches size pending xs)
  unfolding batches
  batches-fit size pending [] h = tt
  batches-fit size pending (x ∷ []) h = omega (arith, length-append {0} pending (x ∷ []))
  batches-fit size pending (x ∷ y ∷ ys) h = elim (Bool-cases (eqb (length pending + 1) size)) [
    | inl e ↦ rw e (
      (
        omega (arith, length-append pending (x ∷ [])),
        full_fits (length pending) size _ e (length-append pending (x ∷ [])),
      ),
      batches-fit size [] (y ∷ ys) (omega arith),
    )
    | inr e ↦ rw e (
        batches-fit size (pending ++ (x ∷ [])) (y ∷ ys)
          (longer_fits (length pending) size _ h e (length-append pending (x ∷ []))))
  ]

module _ {W A S : Type 0} (body : List A → S → Exec W S) where
  -- The body is run on each batch in turn.
  unfoldable pub run_batches : List (List A) → S → Exec W S
  run_batches [] s = pure s
  run_batches (b ∷ bs) s = body b s >>= run_batches bs

wait_mod :
    (size i n : ℕ) → 1 < size → n ≡ i % size → eqb (n + 1) size ≡ false → n + 1 ≡ suc i % size
wait_mod size i n h e k = grind arith

flush_mod : (size i n : ℕ) → 1 < size → n ≡ i % size → eqb (n + 1) size ≡ true → suc i % size ≡ 0
flush_mod size i n h e k =
    let full : suc (i % size) ≡ size = ground arith in
    suc-mod i size ∙ ap (λ m. m % size) full ∙ mod_self size

-- In the middle of the list the test is that the batch has reached the size.
is_full_middle :
    (size count i n : ℕ)
    → 1 < size
    → n ≡ i % size
    → i + 1 < count
    → is_full size count i ≡ eqb (n + 1) size
unfolding is_full
is_full_middle size count i n h e lt = elim (Bool-cases (eqb (n + 1) size)) [
  | inl k ↦ ground (arith, flush_mod size i n h e k, add-one i)
  | inr k ↦ ground (arith, wait_mod size i n h e k, add-one i)
]

is_full_last : (size count i : ℕ) → i + 1 ≡ count → is_full size count i ≡ true
unfolding is_full
is_full_last size count i e = ground arith

module _ {W A S : Type 0} (size count : ℕ) (body : List A → S → Exec W S) where
  -- From any round on, the loop runs its body on the batches that are left.
  batch_loop-run_batches :
      (i : ℕ) (pending xs : List A) (s : S)
      → 1 < size
      → length pending ≡ i % size
      → i + length xs ≡ count
      → batch_loop size count body i pending xs s ≡ run_batches body (batches size pending xs) s
  unfolding batch_loop run_batches batches
  batch_loop-run_batches i pending [] s h e c = refl
  batch_loop-run_batches i pending (x ∷ []) s h e c =
      rw (is_full_last size count i (omega arith)) refl
  batch_loop-run_batches i pending (x ∷ y ∷ ys) s h e c =
      rw (is_full_middle size count i (length pending) h e (omega arith))
        (elim (Bool-cases (eqb (length pending + 1) size)) [
          | inl k ↦ rw k (
              ap (λ (f : S → Exec W S). body (pending ++ (x ∷ [])) s >>= f)
                (fun_ext λ t.
                  batch_loop-run_batches (suc i) [] (y ∷ ys) t h
                    (sym (flush_mod size i (length pending) h e k)) (omega arith)))
          | inr k ↦ rw k (
              batch_loop-run_batches (suc i) (pending ++ (x ∷ [])) (y ∷ ys) s h
                (length-append pending (x ∷ []) ∙ wait_mod size i (length pending) h e k)
                (omega arith))
        ])

concat-batches_all : {A : Type 0} (size : ℕ) (xs : List A) → concat (batches size [] xs) ≡ xs
unfolding batches concat
concat-batches_all size [] = refl
concat-batches_all size (x ∷ xs) = concat-batches size [] (x ∷ xs) (λ e. cc)

-- For a size above one, the whole loop runs its body on batches that joined give the list, in
-- order, each of them neither empty nor longer than the size.
pub in_batches_lem :
    {W A S : Type 0} (size : ℕ) (body : List A → S → Exec W S) (xs : List A) (s : S)
    → 1 < size
    → (in_batches size body xs s ≡ run_batches body (batches size [] xs) s)
      × (concat (batches size [] xs) ≡ xs)
      × All (Fits size) (batches size [] xs)
in_batches_lem size body xs s h = (
  batch_loop-run_batches size (length xs) body 0 [] xs s h (omega arith) (omega arith),
  concat-batches_all size xs,
  batches-fit size [] xs (omega arith),
)
