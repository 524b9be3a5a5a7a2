-- ===== src/Batch/Ensures.antt =====
-- The triple of the batch loop.
use cloud_provider_tencent.Base.{ℕ, suc, List, [], ◌∷◌, ◌++◌}
use cloud_provider_tencent.Go.Exec.{Exec}
use cloud_provider_tencent.Go.Exec.Ensures.{Ensures, Ensures-pure, Ensures-bind, Ensures-if}
use cloud_provider_tencent.Batch.{is_full, batch_loop}

module _ {W A S : Type 0} {I : W → Type 0} {Q : S → Type 0} where
  -- What every batch keeps, the loop keeps.
  pub Ensures-batch_loop :
      (size count : ℕ) (body : List A → S → Exec W S)
      → ((batch : List A) (s : S) → Q s → Ensures I Q (body batch s))
      → (i : ℕ) (pending xs : List A) (s : S) → Q s
      → Ensures I Q (batch_loop size count body i pending xs s)
  unfolding batch_loop
  Ensures-batch_loop size count body k i pending [] s q = Ensures-pure s q
  Ensures-batch_loop size count body k i pending (x ∷ xs) s q =
      Ensures-if (is_full size count i) _ _
        (λ _.
          Ensures-bind (body (pending ++ (x ∷ [])) s) _ (k _ s q)
            (λ t qt. Ensures-batch_loop size count body k (suc i) [] xs t qt))
        (λ _. Ensures-batch_loop size count body k (suc i) (pending ++ (x ∷ [])) xs s q)
