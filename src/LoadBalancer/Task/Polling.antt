-- ===== src/LoadBalancer/Task/Polling.antt =====
-- pkg/tencentcloud/tencentcloud_loadbalancer.go: how waitApiTaskDone comes to its answer.
use cloud_provider_tencent.Base.{
  ℕ, zero, suc, ◌<◌, ◌≡◌, ◌≢◌, refl, String, ℤ, pos, int_eq, int_beq, int_beq_iff, ap, ◌∙◌, ◌==◌,
  ◌||◌, arith, if◌then◌else◌, Bool-cases, inl, inr,
}
use cloud_provider_tencent.Go.Exec.{Exec, Outcome, ok, err, pure, raise, continue, ◌>>=◌}
use cloud_provider_tencent.Go.Exec.Ensures.{
  Ensures, Ensures-pure, Ensures-raise, Ensures-if, Ensures-bind,
}
use cloud_provider_tencent.Go.Errors
use cloud_provider_tencent.Sdk.{Answer, reply, fail}
use cloud_provider_tencent.Sdk.Env.{Env, call, outcome}
use cloud_provider_tencent.LoadBalancer.Task.{
  timed_out, not_expected, get_tencent_cloud_api_task_status, sleep, on_status, wait_rounds,
  wait_api_task_done,
}

module _ (E : Env) (task : String) where
  -- The world after some rounds in which the task ran: a question and a second of sleep each.
  abbrev pub after : ℕ → E.World → E.World
  after zero w = w
  after (suc n) w = after n (E.sleep (E.describe_task_status task w).1)

  -- The service's answer in a round, counted from zero.
  abbrev pub answer_in : ℕ → E.World → Answer ℤ
  answer_in n w = (E.describe_task_status task (after n w)).0

  -- What waitApiTaskDone returns for an answer other than "running".
  abbrev pub verdict : Answer ℤ → Outcome (Unit {0})
  verdict (fail e) = err (Errors.Error.api e)
  verdict (reply status) =
      if status == pos 0 || status == pos 1 then ok tt else err (not_expected task status)

  pub wait_rounds_running :
      (rounds : ℕ) (w : E.World)
      → answer_in 0 w ≡ reply (pos 2)
      → wait_rounds E (suc rounds) task w
        ≡ wait_rounds E rounds task (E.sleep (E.describe_task_status task w).1)
  unfolding wait_rounds get_tencent_cloud_api_task_status on_status sleep ◌>>=◌ call int_beq
  wait_rounds_running rounds w h = rw h refl

  on_status_settled :
      (status : ℤ) (again : Exec E.World (Unit {0})) (w : E.World)
      → status ≢ pos 2
      → on_status E task status again w ≡ (verdict (reply status), w)
  unfolding on_status pure raise
  on_status_settled status again w h = elim (Bool-cases (status == pos 0)) [
    | inl done ↦ rw done refl
    | inr p ↦ elim (Bool-cases (status == pos 1)) [
      | inl failed ↦ rw (p, failed) refl
      | inr q ↦ elim (Bool-cases (status == pos 2)) [
        | inl two ↦ absurd (h ((int_beq_iff status (pos 2)).0 two))
        | inr r ↦ rw (p, q, r) refl
      ]
    ]
  ]

  settled :
      (a : Answer ℤ) (again : Exec E.World (Unit {0})) (w : E.World)
      → a ≢ reply (pos 2)
      → continue (outcome a) (λ status. on_status E task status again) w ≡ (verdict a, w)
  settled (fail e) again w h = refl
  settled (reply status) again w h =
      on_status_settled status again w (λ e. h (ap (λ (s : ℤ). reply s) e))

  pub wait_rounds_answered :
      (rounds : ℕ) (w : E.World)
      → answer_in 0 w ≢ reply (pos 2)
      → wait_rounds E (suc rounds) task w
        ≡ (verdict (answer_in 0 w), (E.describe_task_status task w).1)
  unfolding wait_rounds get_tencent_cloud_api_task_status ◌>>=◌ call
  wait_rounds_answered rounds w h =
      settled (answer_in 0 w) (wait_rounds E rounds task) (E.describe_task_status task w).1 h

  wait_rounds_finished :
      (k rounds : ℕ) (w : E.World)
      → k < rounds
      → ((i : ℕ) → i < k → answer_in i w ≡ reply (pos 2))
      → answer_in k w ≢ reply (pos 2)
      → wait_rounds E rounds task w
        ≡ (verdict (answer_in k w), (E.describe_task_status task (after k w)).1)
  wait_rounds_finished k zero w lt running h = absurd (omega arith)
  wait_rounds_finished zero (suc rounds) w lt running h = wait_rounds_answered rounds w h
  wait_rounds_finished (suc k) (suc rounds) w lt running h =
      wait_rounds_running rounds w (running 0 (omega arith))
      ∙ wait_rounds_finished k rounds (E.sleep (E.describe_task_status task w).1) (omega arith)
          (λ i l. running (suc i) (omega arith)) h

  wait_rounds-timed_out :
      (rounds : ℕ) (w : E.World)
      → ((i : ℕ) → i < rounds → answer_in i w ≡ reply (pos 2))
      → wait_rounds E rounds task w ≡ (err (timed_out task), after rounds w)
  wait_rounds-timed_out zero w running = unfold wait_rounds raise in refl
  wait_rounds-timed_out (suc rounds) w running =
      wait_rounds_running rounds w (running 0 (omega arith))
      ∙ wait_rounds-timed_out rounds (E.sleep (E.describe_task_status task w).1)
          (λ i l. running (suc i) (omega arith))

-- The first answer other than "running", if it comes within thirty rounds, ends waitApiTaskDone:
-- with success for the status 0 and also for the status 1, which says that the task failed; with an
-- error for any other status; and with the error of the call where the call failed. After it
-- nothing more is asked.
pub wait_api_task_done_finished :
    (E : Env) (task : String) (k : ℕ) (w : E.World)
    → k < 30
    → ((i : ℕ) → i < k → answer_in E task i w ≡ reply (pos 2))
    → answer_in E task k w ≢ reply (pos 2)
    → wait_api_task_done E task w
      ≡ (verdict E task (answer_in E task k w), (E.describe_task_status task (after E task k w)).1)
unfolding wait_api_task_done
wait_api_task_done_finished E task k w = wait_rounds_finished E task k 30 w

-- A task that runs for thirty rounds makes waitApiTaskDone give up with the timeout error, after
-- thirty questions and thirty seconds of sleep.
pub wait_api_task_done-timed_out :
    (E : Env) (task : String) (w : E.World)
    → ((i : ℕ) → i < 30 → answer_in E task i w ≡ reply (pos 2))
    → wait_api_task_done E task w ≡ (err (timed_out task), after E task 30 w)
unfolding wait_api_task_done
wait_api_task_done-timed_out E task w = wait_rounds-timed_out E task 30 w

module _ (E : Env) {I : E.World → Type 0} (task : String) where
  wait_rounds-Ensures :
      (rounds : ℕ)
      → Ensures I (λ _. Unit {0}) (get_tencent_cloud_api_task_status E task)
      → Ensures I (λ _. Unit {0}) (sleep E)
      → Ensures I (λ _. Unit {0}) (wait_rounds E rounds task)
  unfolding wait_rounds on_status
  wait_rounds-Ensures zero ask rest = Ensures-raise _
  wait_rounds-Ensures (suc rounds) ask rest =
      Ensures-bind (get_tencent_cloud_api_task_status E task) _ ask (λ status _.
        Ensures-if (status == pos 0) _ _ (λ _. Ensures-pure tt tt)
          (λ _.
            Ensures-if (status == pos 1) _ _ (λ _. Ensures-pure tt tt)
              (λ _.
                Ensures-if (status == pos 2) _ _
                  (λ _. Ensures-bind (sleep E) _ rest (λ _ _. wait_rounds-Ensures rounds ask rest))
                  (λ _. Ensures-raise _))))

  -- What a question and a second of sleep keep, the wait keeps.
  pub wait_api_task_done-Ensures :
      Ensures I (λ _. Unit {0}) (get_tencent_cloud_api_task_status E task)
      → Ensures I (λ _. Unit {0}) (sleep E)
      → Ensures I (λ _. Unit {0}) (wait_api_task_done E task)
  unfolding wait_api_task_done
  wait_api_task_done-Ensures = wait_rounds-Ensures 30
