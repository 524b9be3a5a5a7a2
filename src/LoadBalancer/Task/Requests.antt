-- ===== src/LoadBalancer/Task/Requests.antt =====
-- The answers of calls that start a task.
use cloud_provider_tencent.Go.Exec.Inversion.{same_outcome}
use cloud_provider_tencent.Base.{◌≡◌, ◌∙◌, refl, sym, ℤ, ap, String, pos, int_eq, int_beq, arith}
use cloud_provider_tencent.Go.Exec.{ok, ◌>>=◌}
use cloud_provider_tencent.Go.Exec.Returns.{Returns, Returns-bind}
use cloud_provider_tencent.Sdk.{Answer, reply, fail}
use cloud_provider_tencent.Sdk.Env.{Env, call, outcome}
use cloud_provider_tencent.LoadBalancer.Task.{wait_api_task_done}
use cloud_provider_tencent.LoadBalancer.Task.Polling.{wait_api_task_done_finished}
use cloud_provider_tencent.Go.Exec.Ensures.{Post}

pub outcome_ok : {A : Type 0} (a : Answer A) (x : A) → outcome a ≡ ok x → a ≡ reply x
outcome_ok (reply a) x e = cc
outcome_ok (fail f) x e = absurd (cc)

pub settles : {A : Type 0} (a : Answer A) → Post (λ _. Unit {0}) (outcome a)
settles (reply a) = tt
settles (fail e) = tt

-- Every task is done when it is first asked for.
abbrev pub DoneAtOnce : Env → Type 0
DoneAtOnce E = (task : String) (w : E.World) → (E.describe_task_status task w).0 ≡ reply (pos 0)

done-ne-running : ¬ (◌≡◌ {A = Answer ℤ} (reply (pos 0)) (reply (pos 2)))
done-ne-running e = cc

module _ (E : Env) (done : DoneAtOnce E) where
  wait-Returns : (task : String) → Returns (wait_api_task_done E task)
  unfolding int_beq
  wait-Returns task = record {
    at = λ w. (
      tt,
      same_outcome (
            wait_api_task_done_finished E task 0 w (omega arith) (λ i lt. absurd (omega arith))
              (λ e. done-ne-running (sym (done task w) ∙ e)))
          ∙ rw (done task w) refl,
    );
  }

  pub request-Returns :
      (c : E.World → Answer String × E.World)
      → ((w : E.World) → (task : String) × ((c w).0 ≡ reply task))
      → Returns (call c >>= wait_api_task_done E)
  unfolding call
  request-Returns c f =
      Returns-bind _ _ (record { at = λ w. ((f w).0, ap outcome (f w).1) }) wait-Returns
