-- ===== src/LoadBalancer/Backends/Accepted.antt =====
-- pkg/tencentcloud/tencentcloud_loadbalancer.go: the two loops of ensureLoadBalancerBackends over a
-- service that accepts every request.
use cloud_provider_tencent.Base.{
  ◌≡◌, Option, none, some, List, [], ◌∷◌, String, int_eq, All, All-mono, arith,
}
use cloud_provider_tencent.Go.Exec.{Exec, ok}
use cloud_provider_tencent.Go.Exec.Returns.{Returns, Returns-pure, Returns-bind, Returns-for_each}
use cloud_provider_tencent.Sdk.{
  Instance, ServicePort, Target, TargetsRequest, ListenerBackend, reply,
}
use cloud_provider_tencent.Sdk.Env.{Env}
use cloud_provider_tencent.Cloud.{TxCloudConfig}
use cloud_provider_tencent.Batch.{in_batches}
use cloud_provider_tencent.Batch.Laws.{batches, run_batches, in_batches_lem}
use cloud_provider_tencent.LoadBalancer.Task.Requests.{DoneAtOnce, request-Returns}
use cloud_provider_tencent.LoadBalancer.Backends.{
  find_forward_listener, add_load_balancer_backends, delete_load_balancer_backends, remove_unused,
  add_needed, remove_loop, add_loop, both_loops,
}

-- A service that accepts every request on targets and whose tasks are done at once.
pub record Accepts (E : Env) : Type 0 where
  pub registers :
      (r : TargetsRequest) (w : E.World)
      → (task : String) × ((E.register_targets r w).0 ≡ reply task)
  pub deregisters :
      (r : TargetsRequest) (w : E.World)
      → (task : String) × ((E.deregister_targets r w).0 ≡ reply task)
  pub done : DoneAtOnce E

-- The port has a listener.
abbrev pub IsServed : List ListenerBackend → ServicePort → Type 0
IsServed listeners port =
    (id : String) × ((find_forward_listener listeners port).listener_id ≡ some id)

module _ {W A : Type 0} (body : List A → Unit {0} → Exec W (Unit {0})) where
  Returns-run_batches :
      ((b : List A) → Returns (body b tt)) → (bs : List (List A)) → Returns (run_batches body bs tt)
  unfolding run_batches
  Returns-run_batches f [] = Returns-pure tt
  Returns-run_batches f (b ∷ bs) = Returns-bind _ _ (f b) (λ _. Returns-run_batches f bs)

  Returns-in_batches :
      ((b : List A) → Returns (body b tt)) → (xs : List A) → Returns (in_batches 20 body xs tt)
  Returns-in_batches f xs =
      rw ((in_batches_lem 20 body xs tt (omega arith)).0) (Returns-run_batches f (batches 20 [] xs))

module _ (E : Env) (tx_config : TxCloudConfig) (S : Accepts E) where
  remove-Returns :
      (load_balancer_id : String) (instances : List Instance) (port : ServicePort)
      (targets : List Target) (o : Option String)
      → (id : String) × (o ≡ some id)
      → Returns (remove_unused E tx_config load_balancer_id instances port o targets)
  unfolding remove_unused delete_load_balancer_backends
  remove-Returns lb instances port targets none (id, e) = absurd (cc)
  remove-Returns lb instances port targets (some i) h =
      Returns-in_batches _ (λ b. request-Returns E S.done _ (S.deregisters _)) _

  add-Returns :
      (load_balancer_id : String) (instances : List Instance) (port : ServicePort)
      (targets : List Target) (o : Option String)
      → (id : String) × (o ≡ some id)
      → Returns (add_needed E tx_config load_balancer_id instances port o targets)
  unfolding add_needed add_load_balancer_backends
  add-Returns lb instances port targets none (id, e) = absurd (cc)
  add-Returns lb instances port targets (some i) h =
      Returns-in_batches _ (λ b. request-Returns E S.done _ (S.registers _)) _

both_loops-Returns :
    (E : Env) (tx_config : TxCloudConfig) (load_balancer_id : String) (instances : List Instance)
    (listeners : List ListenerBackend) (ports : List ServicePort)
    → Accepts E
    → All (IsServed listeners) ports
    → Returns (both_loops E tx_config load_balancer_id instances listeners ports)
unfolding both_loops remove_loop add_loop
both_loops-Returns E tx_config lb instances listeners ports S served =
    Returns-bind _ _
      (Returns-for_each _ ports (
        All-mono (IsServed listeners) _ ports
          (λ p h. remove-Returns E tx_config S lb instances p _ _ h) served))
      (λ _. Returns-for_each _ ports (
        All-mono (IsServed listeners) _ ports
          (λ p h. add-Returns E tx_config S lb instances p _ _ h) served))

-- For a service of Tencent Cloud that accepts every request on targets and whose tasks are done at
-- once, and ports that all have a listener: the two loops of ensureLoadBalancerBackends return with
-- no error.
pub both_loops-ok :
    (E : Env) (tx_config : TxCloudConfig) (load_balancer_id : String) (instances : List Instance)
    (listeners : List ListenerBackend) (ports : List ServicePort) (w : E.World)
    → Accepts E
    → All (IsServed listeners) ports
    → (both_loops E tx_config load_balancer_id instances listeners ports w).0 ≡ ok tt
both_loops-ok E tx_config lb instances listeners ports w S served =
    ((both_loops-Returns E tx_config lb instances listeners ports S served).at w).1
