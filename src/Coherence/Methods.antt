-- ===== src/Coherence/Methods.antt =====
-- The methods of cloudProvider.LoadBalancer and cloudProvider.Instances, over a coherent cache.
use cloud_provider_tencent.Base.{
  ◌≤◌, ◌≡◌, ◌≢◌, refl, Bool, true, false, Option, none, some, List, [], ◌∷◌, String, string_eq,
  length,
}
use cloud_provider_tencent.Go.Errors.{Error, is_load_balancer_not_found}
use cloud_provider_tencent.Go.Exec.{
  Exec, Outcome, ok, err, panic, Result, value, error, pure, rethrow, returned, continue, attempt,
  ◌>>=◌,
}
use cloud_provider_tencent.Go.Exec.Ensures.{
  Post, Ensures-pure, Ensures-raise, Ensures-rethrow, Ensures-if, Ensures-bind, Ensures-attempt,
  Ensures-for_each, Ensures-weaken,
}
use cloud_provider_tencent.Sdk.{
  LoadBalancer, Service, ServicePort, Node, Instance, Target, Answer, reply, fail,
}
use cloud_provider_tencent.Sdk.Env.{Env, call, outcome}
use cloud_provider_tencent.Sdk.Laws.{StoreLaws}
use cloud_provider_tencent.Cloud.{TxCloudConfig}
use cloud_provider_tencent.Batch.Ensures.{Ensures-batch_loop}
use cloud_provider_tencent.LoadBalancer.Lookup.{get_load_balancer_name, get_load_balancer}
use cloud_provider_tencent.LoadBalancer.Instance.{
  create_load_balancer, after_delete, delete_found, delete_load_balancer, recreate, ensure_found,
  ensure_load_balancer_instance,
}
use cloud_provider_tencent.LoadBalancer.Task.{wait_api_task_done}
use cloud_provider_tencent.LoadBalancer.Listeners.{
  create_listener, delete_listener, ensure_load_balancer_listeners, reconcile,
}
use cloud_provider_tencent.LoadBalancer.Backends.{
  add_load_balancer_backends, delete_load_balancer_backends, remove_unused, add_needed, remove_loop,
  add_loop, both_loops, ensure_backends_of, ensure_load_balancer_backends,
}
use cloud_provider_tencent.Coherence.{IsCoherent, IsCoherent-Drops, Ensures-call}
use cloud_provider_tencent.Coherence.Instances.{get_instance_by_instance_private_ips-Ensures}
use cloud_provider_tencent.Coherence.Balancers.{
  IsSafe, any_result, name-IsSafe, get_load_balancer-IsSafe, get_load_balancer_listeners-IsSafe,
  started-IsSafe, wait_api_task_done-IsSafe,
}

module _ (E : Env) (L : StoreLaws E) (tx_config : TxCloudConfig) where
  -- Two safe steps.
  pub IsSafe-bind :
      {A B : Type 0} (m : Exec E.World A) (f : A → Exec E.World B)
      → IsSafe E L tx_config m
      → ((a : A) → IsSafe E L tx_config (f a))
      → IsSafe E L tx_config (m >>= f)
  IsSafe-bind m f k h = Ensures-bind m f k (λ a _. h a)

  pub IsSafe-attempt :
      {A : Type 0} (m : Exec E.World A) → IsSafe E L tx_config m → IsSafe E L tx_config (attempt m)
  IsSafe-attempt m k = Ensures-weaken (attempt m) (λ _ _. tt) (Ensures-attempt m k)

  pub IsSafe-rethrow : {A : Type 0} (r : Result A) → IsSafe E L tx_config (rethrow r)
  IsSafe-rethrow r = Ensures-rethrow r (any_result E L tx_config r)

module _ (E : Env) (L : StoreLaws E) (tx_config : TxCloudConfig) (service : Service)
    (uid : 8 ≤ length service.uid) where
  -- The search by name that most methods begin with.
  pub found_by_name-IsSafe :
      {A : Type 0} (f : String → Result LoadBalancer → Exec E.World A)
      → ((name : String) (found : Result LoadBalancer) → IsSafe E L tx_config (f name found))
      → IsSafe E L tx_config (
          get_load_balancer_name E tx_config service >>= λ name.
          attempt (get_load_balancer E tx_config name service) >>= λ found. f name found)
  found_by_name-IsSafe f k =
      IsSafe-bind E L tx_config _ _ (name-IsSafe E L tx_config service uid) (λ name.
        IsSafe-bind E L tx_config _ _
          (IsSafe-attempt E L tx_config _ (get_load_balancer-IsSafe E L tx_config name service))
          (λ found. k name found))

  pub create_load_balancer-IsSafe : IsSafe E L tx_config (create_load_balancer E tx_config service)
  unfolding create_load_balancer
  create_load_balancer-IsSafe =
      IsSafe-bind E L tx_config _ _ (name-IsSafe E L tx_config service uid) (λ name.
        IsSafe-bind E L tx_config _ _ (IsSafe-rethrow E L tx_config _) (λ request.
          started-IsSafe E L tx_config _ (
            Ensures-call E L tx_config E.create_load_balancer request
              L.create_load_balancer_drops)))

-- The wait for an accepted deletion of a balancer ends with no error. Where it ends with one, the
-- cache is told to forget the balancer by a string, at which its key function panics.
abbrev pub DeletionsSettle : Env → Type 0
DeletionsSettle E =
    (ids : List String) (w : E.World) (task : String)
    → (E.delete_load_balancer ids w).0 ≡ reply task
    → (e : Error) → (wait_api_task_done E task (E.delete_load_balancer ids w).1).0 ≢ err e

module _ (E : Env) (L : StoreLaws E) (tx_config : TxCloudConfig) (D : DeletionsSettle E)
    (service : Service) (uid : 8 ≤ length service.uid) where
  waited-Safe :
      (name : String) (r : Outcome (Unit {0})) (w : E.World)
      → IsCoherent E L tx_config w
      → Post (λ _. Unit {0}) r
      → ((e : Error) → r ≢ err e)
      → let run = continue (returned r w).0 (after_delete E tx_config name) (returned r w).1 in
        IsCoherent E L tx_config run.1 × Post (λ _. Unit {0}) run.0
  unfolding after_delete pure
  waited-Safe name (ok _) w h p settled = (h, tt)
  waited-Safe name (err e) w h p settled = absurd (settled e refl)
  waited-Safe name panic w h p settled = absurd p

  started-Safe :
      (name : String) (a : Answer String) (w : E.World)
      → IsCoherent E L tx_config w
      → ((task : String) → a ≡ reply task → (e : Error) → (wait_api_task_done E task w).0 ≢ err e)
      → let run =
          continue
            (outcome a)
            (λ id. attempt (wait_api_task_done E id) >>= after_delete E tx_config name)
            w in
        IsCoherent E L tx_config run.1 × Post (λ _. Unit {0}) run.0
  unfolding attempt ◌>>=◌
  started-Safe name (fail e) w h settled = (h, tt)
  started-Safe name (reply task) w h settled =
      let (h', p) = (wait_api_task_done-IsSafe E L tx_config task).at w h in
      waited-Safe name (wait_api_task_done E task w).0 (wait_api_task_done E task w).1 h' p
        (settled task refl)

  delete_found-IsSafe :
      (name : String) (found : Result LoadBalancer)
      → IsSafe E L tx_config (delete_found E tx_config name found)
  unfolding delete_found call ◌>>=◌
  delete_found-IsSafe name (error e) =
      Ensures-if (is_load_balancer_not_found e) _ _ (λ _. Ensures-pure tt tt) (λ _. Ensures-raise e)
  delete_found-IsSafe name (value lb) = record {
    at = λ w h.
        let ids = lb.load_balancer_id ∷ [] in
        started-Safe name (E.delete_load_balancer ids w).0 (E.delete_load_balancer ids w).1
          (IsCoherent-Drops E L tx_config w _ (L.delete_load_balancer_drops ids w) h) (D ids w);
  }

  pub delete_load_balancer-IsSafe : IsSafe E L tx_config (delete_load_balancer E tx_config service)
  unfolding delete_load_balancer
  delete_load_balancer-IsSafe =
      found_by_name-IsSafe E L tx_config service uid (delete_found E tx_config) delete_found-IsSafe

  recreate-IsSafe : (needed : Bool) → IsSafe E L tx_config (recreate E tx_config service needed)
  unfolding recreate
  recreate-IsSafe false = Ensures-pure tt tt
  recreate-IsSafe true =
      IsSafe-bind E L tx_config _ _ delete_load_balancer-IsSafe
        (λ _. create_load_balancer-IsSafe E L tx_config service uid)

  ensure_found-IsSafe :
      (found : Result LoadBalancer) → IsSafe E L tx_config (ensure_found E tx_config service found)
  unfolding ensure_found
  ensure_found-IsSafe (error e) =
      Ensures-if (is_load_balancer_not_found e) _ _
        (λ _. create_load_balancer-IsSafe E L tx_config service uid) (λ _. Ensures-raise e)
  ensure_found-IsSafe (value lb) =
      IsSafe-bind E L tx_config _ _ (IsSafe-rethrow E L tx_config _)
        (λ needed. recreate-IsSafe needed)

  pub instance-IsSafe : IsSafe E L tx_config (ensure_load_balancer_instance E tx_config service)
  unfolding ensure_load_balancer_instance
  instance-IsSafe =
      found_by_name-IsSafe E L tx_config service uid (λ _. ensure_found E tx_config service)
        (λ _. ensure_found-IsSafe)

module _ (E : Env) (L : StoreLaws E) (tx_config : TxCloudConfig) (service : Service)
    (uid : 8 ≤ length service.uid) where
  pub listeners-IsSafe : IsSafe E L tx_config (ensure_load_balancer_listeners E tx_config service)
  unfolding ensure_load_balancer_listeners reconcile create_listener delete_listener
  listeners-IsSafe = IsSafe-bind E L tx_config _ _ (name-IsSafe E L tx_config service uid) (λ name.
      IsSafe-bind E L tx_config _ _ (get_load_balancer-IsSafe E L tx_config name service) (λ lb.
        IsSafe-bind E L tx_config _ _
          (get_load_balancer_listeners-IsSafe E L tx_config lb.load_balancer_id)
          (λ ls.
            IsSafe-bind E L tx_config _ _
              (Ensures-for_each _ _ (λ r.
                started-IsSafe E L tx_config _
                  (Ensures-call E L tx_config E.create_listener r L.create_listener_drops)))
              (λ _. Ensures-for_each _ _ (λ r.
                started-IsSafe E L tx_config _
                  (Ensures-call E L tx_config E.delete_listener r L.delete_listener_drops))))))

  remove_unused-IsSafe :
      (lb_id : String) (instances : List Instance) (port : ServicePort) (id : Option String)
      (targets : List Target)
      → IsSafe E L tx_config (remove_unused E tx_config lb_id instances port id targets)
  unfolding remove_unused delete_load_balancer_backends
  remove_unused-IsSafe lb_id instances port none targets = Ensures-raise _
  remove_unused-IsSafe lb_id instances port (some id) targets =
      Ensures-batch_loop 20 _ _
        (λ batch _ _.
          started-IsSafe E L tx_config _
            (Ensures-call E L tx_config E.deregister_targets _ L.deregister_targets_drops))
        0 [] _ tt tt

  add_needed-IsSafe :
      (lb_id : String) (instances : List Instance) (port : ServicePort) (id : Option String)
      (targets : List Target)
      → IsSafe E L tx_config (add_needed E tx_config lb_id instances port id targets)
  unfolding add_needed add_load_balancer_backends
  add_needed-IsSafe lb_id instances port none targets = Ensures-raise _
  add_needed-IsSafe lb_id instances port (some id) targets =
      Ensures-batch_loop 20 _ _
        (λ batch _ _.
          started-IsSafe E L tx_config _
            (Ensures-call E L tx_config E.register_targets _ L.register_targets_drops))
        0 [] _ tt tt

  ensure_backends_of-IsSafe :
      (lb_id : String) (ips : List String)
      → IsSafe E L tx_config (ensure_backends_of E tx_config service lb_id ips)
  unfolding ensure_backends_of both_loops remove_loop add_loop
  ensure_backends_of-IsSafe lb_id [] = Ensures-raise _
  ensure_backends_of-IsSafe lb_id (ip ∷ ips) =
      Ensures-bind _ _ (get_instance_by_instance_private_ips-Ensures E L tx_config (ip ∷ ips))
        (λ found _.
          IsSafe-bind E L tx_config _ _
            (Ensures-call E L tx_config E.describe_targets lb_id L.describe_targets_drops)
            (λ ls.
              IsSafe-bind E L tx_config _ _
                (Ensures-for_each _ service.ports (λ port. remove_unused-IsSafe lb_id _ port _ _))
                (λ _.
                  Ensures-for_each _ service.ports (λ port. add_needed-IsSafe lb_id _ port _ _))))

  pub backends-IsSafe :
      (nodes : List Node)
      → IsSafe E L tx_config (ensure_load_balancer_backends E tx_config service nodes)
  unfolding ensure_load_balancer_backends
  backends-IsSafe nodes =
      IsSafe-bind E L tx_config _ _ (name-IsSafe E L tx_config service uid) (λ name.
        IsSafe-bind E L tx_config _ _ (get_load_balancer-IsSafe E L tx_config name service)
          (λ lb. ensure_backends_of-IsSafe lb.load_balancer_id _))
