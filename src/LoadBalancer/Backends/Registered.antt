-- ===== src/LoadBalancer/Backends/Registered.antt =====
-- pkg/tencentcloud/tencentcloud_loadbalancer.go: the two loops of ensureLoadBalancerBackends over
-- the ports, run against a service whose tasks do what they promise.
use cloud_provider_tencent.Base.{
  ◌≡◌, ◌≢◌, ◌∙◌, ap, Bool, true, false, not, ◌&&◌, ◌||◌, some, List, [], ◌∷◌, String, string_eq,
  contains, contains-append, concat, arith,
}
use cloud_provider_tencent.Go.Exec.Leads.{Leads, Leads-pure, Leads-bind, Leads-mono}
use cloud_provider_tencent.Sdk.{Instance, ServicePort, Target, TargetsRequest, reply}
use cloud_provider_tencent.Sdk.Env.{Env}
use cloud_provider_tencent.Cloud.{TxCloudConfig}
use cloud_provider_tencent.Batch.Laws.{batches, run_batches, in_batches_lem}
use cloud_provider_tencent.LoadBalancer.Task.Effects.{TaskLaws, Stands, Stands-request, Stands-mono}
use cloud_provider_tencent.LoadBalancer.Backends.{
  has_instance, backends_to_delete, backends_to_add, add_load_balancer_backends,
  delete_load_balancer_backends, remove_unused, add_needed,
}
use cloud_provider_tencent.LoadBalancer.Backends.Reconcile.{
  target_eq, contains-backends_to_delete, contains-backends_to_add,
}

-- A service where an accepted request on the targets of a listener promises what it asks for, and
-- nothing for any other listener. The promise is kept once the task is said to have succeeded.
pub record TargetLaws (E : Env) : Type 0 where
  -- the targets by the ids of the balancer and of the listener
  pub tasks : TaskLaws E (String × String) (List Target)
  pub register_targets_same :
      (r : TargetsRequest) (w : E.World) (task : String) (t : Target)
      → (E.register_targets r w).0 ≡ reply task
      → contains t
          (tasks.promised (E.register_targets r w).1 task (r.load_balancer_id, r.listener_id))
        ≡ (contains t (tasks.state_of w (r.load_balancer_id, r.listener_id))
            || contains t r.targets)
  pub deregister_targets_same :
      (r : TargetsRequest) (w : E.World) (task : String) (t : Target)
      → (E.deregister_targets r w).0 ≡ reply task
      → contains t
          (tasks.promised (E.deregister_targets r w).1 task (r.load_balancer_id, r.listener_id))
        ≡ (contains t (tasks.state_of w (r.load_balancer_id, r.listener_id))
            && not (contains t r.targets))
  pub register_targets_other :
      (r : TargetsRequest) (w : E.World) (task load_balancer_id listener_id : String)
      → (E.register_targets r w).0 ≡ reply task
      → r.listener_id ≢ listener_id
      → tasks.promised (E.register_targets r w).1 task (load_balancer_id, listener_id)
        ≡ tasks.state_of w (load_balancer_id, listener_id)
  pub deregister_targets_other :
      (r : TargetsRequest) (w : E.World) (task load_balancer_id listener_id : String)
      → (E.deregister_targets r w).0 ≡ reply task
      → r.listener_id ≢ listener_id
      → tasks.promised (E.deregister_targets r w).1 task (load_balancer_id, listener_id)
        ≡ tasks.state_of w (load_balancer_id, listener_id)
  pub register_targets_stays :
      (r : TargetsRequest) (w : E.World)
      → tasks.has_failed w ≡ true
      → tasks.has_failed (E.register_targets r w).1 ≡ true
  pub deregister_targets_stays :
      (r : TargetsRequest) (w : E.World)
      → tasks.has_failed w ≡ true
      → tasks.has_failed (E.deregister_targets r w).1 ≡ true

abbrev pub targets_of : {E : Env} → TargetLaws E → E.World → String → String → List Target
targets_of L w load_balancer_id listener_id = L.tasks.state_of w (load_balancer_id, listener_id)

-- No task has answered that it failed.
abbrev pub NoneFailed : {E : Env} → TargetLaws E → E.World → Type 0
NoneFailed L w = L.tasks.has_failed w ≡ false

module _ (E : Env) (tx_config : TxCloudConfig) (L : TargetLaws E)
    (load_balancer_id listener_id : String) where
  -- The list has the targets that the test accepts.
  abbrev pub Are : (Target → Bool) → List Target → Type 0
  Are f ts = (t : Target) → contains t ts ≡ f t

  -- The targets of the listener are those that the test accepts, unless a task has failed.
  abbrev pub Holds : (Target → Bool) → E.World → Type 0
  Holds f w = Stands E L.tasks (load_balancer_id, listener_id) (Are f) w

  Holds-add :
      (f : Target → Bool) (ts : List Target)
      → Leads
          (Holds f)
          (Holds (λ t. f t || contains t ts))
          (add_load_balancer_backends E tx_config load_balancer_id listener_id ts)
  unfolding add_load_balancer_backends
  Holds-add f ts =
      Stands-request E L.tasks (load_balancer_id, listener_id) (Are f)
        (Are (λ t. f t || contains t ts)) _ (L.register_targets_stays _)
        (λ w task h e t. L.register_targets_same _ w task t e ∙ ap (λ b. b || contains t ts) (h t))

  Holds-delete :
      (f : Target → Bool) (ts : List Target)
      → Leads
          (Holds f)
          (Holds (λ t. f t && not (contains t ts)))
          (delete_load_balancer_backends E tx_config load_balancer_id listener_id ts)
  unfolding delete_load_balancer_backends
  Holds-delete f ts =
      Stands-request E L.tasks (load_balancer_id, listener_id) (Are f)
        (Are (λ t. f t && not (contains t ts))) _ (L.deregister_targets_stays _)
        (λ w task h e t.
          L.deregister_targets_same _ w task t e ∙ ap (λ b. b && not (contains t ts)) (h t))

  -- Requests for another listener.
  pub Holds-add_elsewhere :
      (f : Target → Bool) (id : String) (ts : List Target)
      → id ≢ listener_id
      → Leads (Holds f) (Holds f) (add_load_balancer_backends E tx_config load_balancer_id id ts)
  unfolding add_load_balancer_backends
  Holds-add_elsewhere f id ts ne =
      Stands-request E L.tasks (load_balancer_id, listener_id) (Are f) (Are f) _
        (L.register_targets_stays _)
        (λ w task h e t.
          ap (contains t) (L.register_targets_other _ w task load_balancer_id listener_id e ne)
          ∙ h t)

  pub Holds-delete_elsewhere :
      (f : Target → Bool) (id : String) (ts : List Target)
      → id ≢ listener_id
      → Leads (Holds f) (Holds f) (delete_load_balancer_backends E tx_config load_balancer_id id ts)
  unfolding delete_load_balancer_backends
  Holds-delete_elsewhere f id ts ne =
      Stands-request E L.tasks (load_balancer_id, listener_id) (Are f) (Are f) _
        (L.deregister_targets_stays _)
        (λ w task h e t.
          ap (contains t) (L.deregister_targets_other _ w task load_balancer_id listener_id e ne)
          ∙ h t)

  Holds-same :
      (f g : Target → Bool) → ((t : Target) → f t ≡ g t) → (w : E.World) → Holds f w → Holds g w
  Holds-same f g e =
      Stands-mono E L.tasks (load_balancer_id, listener_id) (Are f) (Are g) (λ ts h t. h t ∙ e t)

  Holds-add_batches :
      (f : Target → Bool) (bs : List (List Target))
      → Leads (Holds f) (Holds (λ t. f t || contains t (concat bs))) (
          run_batches
            (λ b _. add_load_balancer_backends E tx_config load_balancer_id listener_id b)
            bs
            tt)
  unfolding run_batches concat
  Holds-add_batches f [] =
      Leads-pure tt
        (Holds-same f (λ t. f t || contains t []) (λ t. unfold contains in ground arith))
  Holds-add_batches f (b ∷ bs) =
      Leads-mono _
        (Holds-same (λ t. (f t || contains t b) || contains t (concat bs)) _
          (λ t. ground (arith, contains-append t b (concat bs))))
        (Leads-bind _ _ (Holds-add f b) (λ _. Holds-add_batches (λ t. f t || contains t b) bs))

  Holds-delete_batches :
      (f : Target → Bool) (bs : List (List Target))
      → Leads (Holds f) (Holds (λ t. f t && not (contains t (concat bs)))) (
          run_batches
            (λ b _. delete_load_balancer_backends E tx_config load_balancer_id listener_id b)
            bs
            tt)
  unfolding run_batches concat
  Holds-delete_batches f [] =
      Leads-pure tt
        (Holds-same f (λ t. f t && not (contains t [])) (λ t. unfold contains in ground arith))
  Holds-delete_batches f (b ∷ bs) =
      Leads-mono _
        (Holds-same (λ t. (f t && not (contains t b)) && not (contains t (concat bs))) _
          (λ t. ground (arith, contains-append t b (concat bs))))
        (Leads-bind _ _ (Holds-delete f b)
          (λ _. Holds-delete_batches (λ t. f t && not (contains t b)) bs))

  module _ (instances : List Instance) (port : ServicePort) (targets : List Target) where
    -- What the removals leave.
    abbrev pub kept : Target → Bool
    kept t = contains t targets && has_instance port instances t

    pub Holds-remove_unused :
        Leads
          (Holds (λ t. contains t targets))
          (Holds kept)
          (remove_unused E tx_config load_balancer_id instances port (some listener_id) targets)
    unfolding remove_unused
    Holds-remove_unused =
        let del = backends_to_delete port instances targets in
        let (run, joined, _) =
          in_batches_lem 20
            (λ b _. delete_load_balancer_backends E tx_config load_balancer_id listener_id b) del tt
            (omega arith) in
        rw run (
          Leads-mono _
            (Holds-same _ _ (λ t.
              rw joined (ground (arith, contains-backends_to_delete port instances t targets))))
            (Holds-delete_batches (λ t. contains t targets) (batches 20 [] del)))

    pub Holds-add_needed :
        Leads
          (Holds kept)
          (Holds (λ t. has_instance port instances t))
          (add_needed E tx_config load_balancer_id instances port (some listener_id) targets)
    unfolding add_needed
    Holds-add_needed =
        let new = backends_to_add port instances targets in
        let (run, joined, _) =
          in_batches_lem 20
            (λ b _. add_load_balancer_backends E tx_config load_balancer_id listener_id b) new tt
            (omega arith) in
        rw run (
          Leads-mono _
            (Holds-same _ _
              (λ t. rw joined (ground (arith, contains-backends_to_add port instances t targets))))
            (Holds-add_batches kept (batches 20 [] new)))
