-- ===== src/Batch.antt =====
-- The loop that the program writes three times, in getInstanceByInstancePrivateIps and twice in
-- ensureLoadBalancerBackends: it gathers elements and hands over a batch when it is full, or at the
-- last element.
pub mod Laws
pub mod Ensures
use cloud_provider_tencent.Base.{
  ℕ, suc, ◌+◌, ◌-◌, ◌%◌, Bool, ◌&&◌, ◌||◌, List, [], ◌∷◌, ◌++◌, ltb, eqb, length, if◌then◌else◌,
}
use cloud_provider_tencent.Go.Exec.{Exec, pure, ◌>>=◌}

-- (i > 0 && (i+1)%size == 0) || i == count-1
unfoldable pub is_full : ℕ → ℕ → ℕ → Bool
is_full size count i = ltb 0 i && eqb ((i + 1) % size) 0 || eqb i (count - 1)

module _ {W A S : Type 0} (size count : ℕ) (body : List A → S → Exec W S) where
  -- for i := ...; `s` is what the body changes, `pending` what it has not been handed yet.
  unfoldable pub batch_loop : ℕ → List A → List A → S → Exec W S
  unfolding is_full
  batch_loop i pending [] s = pure s
  batch_loop i pending (x ∷ xs) s =
      let flush = body (pending ++ (x ∷ [])) s >>= batch_loop (suc i) [] xs in
      let wait = batch_loop (suc i) (pending ++ (x ∷ [])) xs s in
      if is_full size count i then flush else wait

module _ {W A S : Type 0} (size : ℕ) (body : List A → S → Exec W S) (xs : List A) where
  abbrev pub in_batches : S → Exec W S
  in_batches s = batch_loop size (length xs) body 0 [] xs s
