-- ===== src/LoadBalancer/Backends/Loops.antt =====
-- pkg/tencentcloud/tencentcloud_loadbalancer.go: the two loops of ensureLoadBalancerBackends over all
-- ports of a service.
use cloud_provider_tencent.Base.{
  ◌≡◌, ◌≢◌, ap, inr, Bool, Option, none, some, List, [], ◌∷◌, ◌++◌, String, contains, arith, All,
}
use cloud_provider_tencent.Go.Exec.{Exec, ok}
use cloud_provider_tencent.Go.Exec.Leads.{
  Leads, Leads-pure, Leads-raise, Leads-bind, Leads-for_each_at,
}
use cloud_provider_tencent.Sdk.{Instance, ServicePort, Target, ListenerBackend}
use cloud_provider_tencent.Sdk.Env.{Env}
use cloud_provider_tencent.Cloud.{TxCloudConfig}
use cloud_provider_tencent.Batch.{in_batches}
use cloud_provider_tencent.Batch.Laws.{batches, run_batches, in_batches_lem}
use cloud_provider_tencent.LoadBalancer.Backends.{
  has_instance, find_forward_listener, remove_unused, add_needed, remove_loop, add_loop, both_loops,
}
use cloud_provider_tencent.LoadBalancer.Task.Effects.{Stands-state_of}
use cloud_provider_tencent.LoadBalancer.Backends.Reconcile.{target_eq}
use cloud_provider_tencent.LoadBalancer.Backends.Registered.{
  TargetLaws, targets_of, NoneFailed, Are, Holds, kept, Holds-add_elsewhere, Holds-delete_elsewhere,
  Holds-remove_unused, Holds-add_needed,
}

-- The port is served by another listener, or by none.
abbrev pub Elsewhere : String → List ListenerBackend → ServicePort → Type 0
Elsewhere id listeners q = (find_forward_listener listeners q).listener_id ≢ some id

-- A loop over batches keeps what each batch keeps.
module _ {W A : Type 0} {I : W → Type 0} (body : List A → Unit {0} → Exec W (Unit {0})) where
  Leads-run_batches :
      ((b : List A) → Leads I I (body b tt))
      → (bs : List (List A)) → Leads I I (run_batches body bs tt)
  unfolding run_batches
  Leads-run_batches f [] = Leads-pure tt (λ w h. h)
  Leads-run_batches f (b ∷ bs) = Leads-bind _ _ (f b) (λ _. Leads-run_batches f bs)

  Leads-in_batches :
      ((b : List A) → Leads I I (body b tt)) → (xs : List A) → Leads I I (in_batches 20 body xs tt)
  Leads-in_batches f xs =
      rw ((in_batches_lem 20 body xs tt (omega arith)).0) (Leads-run_batches f (batches 20 [] xs))

module _ (E : Env) (tx_config : TxCloudConfig) (L : TargetLaws E)
    (load_balancer_id listener_id : String) (instances : List Instance) where
  -- Requests for another listener.
  module _ (f : Target → Bool) (port : ServicePort) (targets : List Target) where
    removed_elsewhere :
        (o : Option String)
        → o ≢ some listener_id
        → Leads
            (Holds E tx_config L load_balancer_id listener_id f)
            (Holds E tx_config L load_balancer_id listener_id f)
            (remove_unused E tx_config load_balancer_id instances port o targets)
    unfolding remove_unused
    removed_elsewhere none ne = Leads-raise _
    removed_elsewhere (some id) ne =
        Leads-in_batches _
          (λ b.
            Holds-delete_elsewhere E tx_config L load_balancer_id listener_id f id b
              (λ (p : id ≡ listener_id). ne (ap (λ (x : String). some x) p)))
          _

    added_elsewhere :
        (o : Option String)
        → o ≢ some listener_id
        → Leads
            (Holds E tx_config L load_balancer_id listener_id f)
            (Holds E tx_config L load_balancer_id listener_id f)
            (add_needed E tx_config load_balancer_id instances port o targets)
    unfolding add_needed
    added_elsewhere none ne = Leads-raise _
    added_elsewhere (some id) ne =
        Leads-in_batches _
          (λ b.
            Holds-add_elsewhere E tx_config L load_balancer_id listener_id f id b
              (λ (p : id ≡ listener_id). ne (ap (λ (x : String). some x) p)))
          _

  module _ (listeners : List ListenerBackend) where
    both_loops-Leads :
        (port : ServicePort) (before after : List ServicePort)
        → (find_forward_listener listeners port).listener_id ≡ some listener_id
        → All (Elsewhere listener_id listeners) before
        → All (Elsewhere listener_id listeners) after
        → Leads
            (Holds E tx_config L load_balancer_id listener_id
              (λ t. contains t (find_forward_listener listeners port).targets))
            (Holds E tx_config L load_balancer_id listener_id (λ t. has_instance port instances t))
            (both_loops E tx_config load_balancer_id instances listeners (before ++ (port ∷ after)))
    unfolding both_loops remove_loop add_loop
    both_loops-Leads port before after e a b =
        Leads-bind
          {J = Holds E tx_config L load_balancer_id listener_id (
            kept E tx_config L load_balancer_id listener_id instances port
              (find_forward_listener listeners port).targets)}
          _ _
          (Leads-for_each_at _ (Elsewhere listener_id listeners) (λ q. removed_elsewhere _ q _ _)
            (λ q. removed_elsewhere _ q _ _) port
            (rw e (Holds-remove_unused E tx_config L load_balancer_id listener_id instances port _))
            before after a b)
          (λ _.
            Leads-for_each_at _ (Elsewhere listener_id listeners) (λ q. added_elsewhere _ q _ _)
              (λ q. added_elsewhere _ q _ _) port
              (rw e (Holds-add_needed E tx_config L load_balancer_id listener_id instances port _))
              before after a b)

-- For a service of Tencent Cloud where accepted requests take effect once their task succeeds,
-- ports of which exactly one is served by the listener with the id, and an answer of
-- DescribeTargets that has the listener's targets: if the two loops of ensureLoadBalancerBackends
-- return with no error and no task answered that it failed, then the listener's targets are exactly
-- the instances at the port's node port.
pub both_loops-targets_of :
    (E : Env) (tx_config : TxCloudConfig) (L : TargetLaws E) (load_balancer_id listener_id : String)
    (instances : List Instance) (listeners : List ListenerBackend) (port : ServicePort)
    (before after : List ServicePort) (w : E.World)
    → (find_forward_listener listeners port).listener_id ≡ some listener_id
    → All (Elsewhere listener_id listeners) before
    → All (Elsewhere listener_id listeners) after
    → ((t : Target)
        → contains t (targets_of L w load_balancer_id listener_id)
          ≡ contains t (find_forward_listener listeners port).targets)
    → (both_loops E tx_config load_balancer_id instances listeners (before ++ (port ∷ after)) w).0
      ≡ ok tt
    → NoneFailed L
        (both_loops E tx_config load_balancer_id instances listeners (before ++ (port ∷ after)) w).1
    → (t : Target)
    → contains t (
        targets_of L
          (both_loops E tx_config load_balancer_id instances listeners
            (before ++ (port ∷ after))
            w).1
          load_balancer_id
          listener_id)
      ≡ has_instance port instances t
both_loops-targets_of E tx_config L load_balancer_id listener_id instances listeners port before
      after w e a b h k none_failed =
    Stands-state_of E L.tasks (load_balancer_id, listener_id)
      (Are E tx_config L load_balancer_id listener_id (has_instance port instances)) _
      ((both_loops-Leads E tx_config L load_balancer_id listener_id instances listeners port before
          after e a b).at
        w (record { at = inr h }) tt k)
      none_failed
