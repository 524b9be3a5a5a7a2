-- ===== src/LoadBalancer/Task/Effects.antt =====
-- pkg/tencentcloud/tencentcloud_loadbalancer.go: what a request has done once waitApiTaskDone
-- returned.
use cloud_provider_tencent.Base.{
  ℕ, zero, suc, ◌≡◌, ◌≢◌, refl, sym, ◌∙◌, subst, Bool, true, false, ◌⊎◌, inl, inr, ℤ, pos, int_eq,
  int_beq_iff, ◌==◌, String, ap, Bool-cases,
}
use cloud_provider_tencent.Go.Exec.{Outcome, ok, err, raise, ◌>>=◌}
use cloud_provider_tencent.Go.Exec.Inversion.{bind-ok, same_outcome}
use cloud_provider_tencent.Go.Exec.Leads.{Leads}
use cloud_provider_tencent.Go.Errors.{ApiError, Error}
use cloud_provider_tencent.Sdk.{Answer, reply, fail}
use cloud_provider_tencent.Sdk.Env.{Env, call}
use cloud_provider_tencent.LoadBalancer.Task.{not_expected, wait_rounds, wait_api_task_done}
use cloud_provider_tencent.LoadBalancer.Task.Polling.{
  verdict, wait_rounds_running, wait_rounds_answered,
}
use cloud_provider_tencent.LoadBalancer.Task.Requests.{outcome_ok}

fail-ne : {A : Type 0} {a : A} (e : ApiError) → fail e ≡ reply a → ⊥
fail-ne e h = cc

is_running : (a : Answer ℤ) → (a ≡ reply (pos 2)) ⊎ (a ≢ reply (pos 2))
is_running (fail e) = inr (λ h. fail-ne e h)
is_running (reply status) = elim (Bool-cases (status == pos 2)) [
  | inl two ↦ inl (ap (λ (s : ℤ). reply s) ((int_beq_iff status (pos 2)).0 two))
  | inr other ↦ inr (λ h. differs other (reply_inj h))
]
  where
    reply_inj : reply status ≡ reply (pos 2) → status ≡ pos 2
    reply_inj h = cc

    differs : (status == pos 2) ≡ false → status ≢ pos 2
    differs other e = true-ne (sym ((int_beq_iff status (pos 2)).1 e) ∙ other)
      where
        true-ne : true ≡ false → ⊥
        true-ne h = cc

ok-ne-err : {A : Type 0} {a : A} {e : Error} → ok a ≡ err e → ⊥
ok-ne-err h = cc

-- An answer that ends the wait with success says that the task succeeded, or that it failed.
verdict_ok :
    (E : Env) (task : String) (a : Answer ℤ)
    → verdict E task a ≡ ok tt
    → (a ≡ reply (pos 0)) ⊎ (a ≡ reply (pos 1))
verdict_ok E task (fail e) = λ h. absurd (cc)
verdict_ok E task (reply status) = elim (Bool-cases (status == pos 0)) [
  | inl done ↦ λ _. inl (ap (λ (s : ℤ). reply s) ((int_beq_iff status (pos 0)).0 done))
  | inr p ↦ elim (Bool-cases (status == pos 1)) [
    | inl failed ↦ λ _. inr (ap (λ (s : ℤ). reply s) ((int_beq_iff status (pos 1)).0 failed))
    | inr q ↦ λ h. absurd (ok-ne-err {e = not_expected task status} (sym h ∙ rw (p, q) refl))
  ]
]

-- What is known when the wait returned with no error: the last question was answered with success
-- or with failure.
module _ (E : Env) (task : String) (J K : E.World → Type 0)
    (ask : (w : E.World) → J w → J (E.describe_task_status task w).1)
    (rest : (w : E.World) → J w → J (E.sleep w))
    (done : (w : E.World)
      → J w
      → (E.describe_task_status task w).0 ≡ reply (pos 0)
      → K (E.describe_task_status task w).1)
    (lost : (w : E.World)
      → J w
      → (E.describe_task_status task w).0 ≡ reply (pos 1)
      → K (E.describe_task_status task w).1) where
  wait_rounds-ends :
      (rounds : ℕ) (w : E.World)
      → J w
      → (wait_rounds E rounds task w).0 ≡ ok tt
      → K (wait_rounds E rounds task w).1
  unfolding wait_rounds raise
  wait_rounds-ends zero w h e = absurd (gave_up e)
    where
      gave_up : (wait_rounds E zero task w).0 ≡ ok tt → ⊥
      gave_up e = cc
  wait_rounds-ends (suc rounds) w h e = elim (is_running (E.describe_task_status task w).0) [
    | inl running ↦
        let run = wait_rounds_running E task rounds w running in
        subst (λ (p : Outcome (Unit {0}) × E.World). K p.1) (sym run)
          (wait_rounds-ends rounds _ (rest _ (ask w h)) (same_outcome (sym run) ∙ e))
    | inr ended ↦
        let run = wait_rounds_answered E task rounds w ended in
        subst (λ (p : Outcome (Unit {0}) × E.World). K p.1) (sym run)
          (elim (verdict_ok E task _ (same_outcome (sym run) ∙ e)) [
            | inl success ↦ done w h success
            | inr failure ↦ lost w h failure
          ])
  ]

  pub wait_api_task_done-Leads : Leads J K (wait_api_task_done E task)
  unfolding wait_api_task_done
  wait_api_task_done-Leads = record { at = λ w h a e. wait_rounds-ends 30 w h e }

-- A part of the state of the service that requests change by way of tasks. An accepted request
-- promises what the state will be; it is so once the task is asked for and answers that it
-- succeeded. Nothing is said of the state meanwhile, nor after a task that answers that it failed
-- or that is given up. `has_failed` says that a task has answered that it failed, and stays.
pub record TaskLaws (E : Env) (Key Value : Type 0) : Type 0 where
  pub state_of : E.World → Key → Value
  pub promised : E.World → String → Key → Value
  pub has_failed : E.World → Bool
  pub status_keeps :
      (task : String) (w : E.World) (key : Key)
      → promised (E.describe_task_status task w).1 task key ≡ promised w task key
  pub sleep_keeps :
      (task : String) (w : E.World) (key : Key)
      → promised (E.sleep w) task key ≡ promised w task key
  pub succeeds :
      (task : String) (w : E.World) (key : Key)
      → (E.describe_task_status task w).0 ≡ reply (pos 0)
      → state_of (E.describe_task_status task w).1 key ≡ promised w task key
  pub fails :
      (task : String) (w : E.World)
      → (E.describe_task_status task w).0 ≡ reply (pos 1)
      → has_failed (E.describe_task_status task w).1 ≡ true
  pub status_stays :
      (task : String) (w : E.World)
      → has_failed w ≡ true
      → has_failed (E.describe_task_status task w).1 ≡ true
  pub sleep_stays : (w : E.World) → has_failed w ≡ true → has_failed (E.sleep w) ≡ true

module _ (E : Env) {Key Value : Type 0} (T : TaskLaws E Key Value) (key : Key) where
  -- Unless a task has failed, the state has the property, or will have it after the task.
  pub record Stands (P : Value → Type 0) (w : E.World) : Type 0 where
    pub at : (T.has_failed w ≡ true) ⊎ P (T.state_of w key)

  pub record Promised (task : String) (P : Value → Type 0) (w : E.World) : Type 0 where
    pub at : (T.has_failed w ≡ true) ⊎ P (T.promised w task key)

  pub Promised-wait :
      (task : String) (P : Value → Type 0)
      → Leads (Promised task P) (Stands P) (wait_api_task_done E task)
  Promised-wait task P =
      wait_api_task_done-Leads E task (Promised task P) (Stands P)
        (λ w h. record {
          at = elim h.at [
            | inl failed ↦ inl (T.status_stays task w failed)
            | inr p ↦ inr (subst P (sym (T.status_keeps task w key)) p)
          ];
        })
        (λ w h. record {
          at = elim h.at [
            | inl failed ↦ inl (T.sleep_stays w failed)
            | inr p ↦ inr (subst P (sym (T.sleep_keeps task w key)) p)
          ];
        })
        (λ w h success. record {
          at = elim h.at [
            | inl failed ↦ inl (T.status_stays task w failed)
            | inr p ↦ inr (subst P (sym (T.succeeds task w key success)) p)
          ];
        })
        (λ w h failure. record { at = inl (T.fails task w failure) })

  -- A request, and the wait for its task.
  pub Stands-request :
      (P Q : Value → Type 0) (c : E.World → Answer String × E.World)
      → ((w : E.World) → T.has_failed w ≡ true → T.has_failed (c w).1 ≡ true)
      → ((w : E.World) (task : String)
          → P (T.state_of w key)
          → (c w).0 ≡ reply task
          → Q (T.promised (c w).1 task key))
      → Leads (Stands P) (Stands Q) (call c >>= wait_api_task_done E)
  unfolding call
  Stands-request P Q c stays step = record {
    at = λ w h a e.
        let (task, started, run) = bind-ok (call c) (wait_api_task_done E) w a e in
        let accepted = outcome_ok _ task started in
        subst (λ (p : Outcome (Unit {0}) × E.World). Stands Q p.1) (sym run)
          ((Promised-wait task Q).at (c w).1
            (record {
              at = elim h.at [
                | inl failed ↦ inl (stays w failed)
                | inr p ↦ inr (step w task p accepted)
              ];
            })
            a (same_outcome (sym run) ∙ e));
  }

  pub Stands-mono :
      (P Q : Value → Type 0) → ((x : Value) → P x → Q x) → (w : E.World) → Stands P w → Stands Q w
  Stands-mono P Q f w h = record {
    at = elim h.at [ inl failed ↦ inl failed | inr p ↦ inr (f _ p) ];
  }

  -- Where no task has failed, the state has the property.
  pub Stands-state_of :
      (P : Value → Type 0) (w : E.World)
      → Stands P w
      → T.has_failed w ≡ false
      → P (T.state_of w key)
  Stands-state_of P w h none_failed = elim h.at [
    | inl failed ↦ absurd (both failed none_failed)
    | inr p ↦ p
  ]
    where
      both : {b : Bool} → b ≡ true → b ≡ false → ⊥
      both x y = cc
