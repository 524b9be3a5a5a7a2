-- ===== src/LoadBalancer/Listeners/Laws.antt =====
-- What is relied on of the listeners of the service of Tencent Cloud.
use cloud_provider_tencent.Base.{
  ◌≡◌, true, false, not, List, [], ◌∷◌, ◌++◌, String, ℤ, string_eq, int_eq, ◌==◌, contains, keep,
}
use cloud_provider_tencent.Sdk.{Listener, CreateListenerRequest, DeleteListenerRequest, reply}
use cloud_provider_tencent.Sdk.Env.{Env, TencentCloudCacheEntry}
use cloud_provider_tencent.LoadBalancer.Task.Effects.{TaskLaws}
use cloud_provider_tencent.LoadBalancer.Listeners.Growth.{ids}

-- A service where an accepted creation of one listener promises to add it, under an id that is not
-- taken, and an accepted deletion promises to remove the listener with the id. The promise is kept
-- once the task is said to have succeeded.
pub record ListenerLaws (E : Env) : Type 0 where
  -- the listeners of a balancer
  pub tasks : TaskLaws E String (List Listener)
  pub creates :
      (r : CreateListenerRequest) (w : E.World) (task : String) (port : ℤ)
      → (E.create_listener r w).0 ≡ reply task
      → r.ports ≡ port ∷ []
      → (id : String) × (tasks.promised (E.create_listener r w).1 task r.load_balancer_id
          ≡ tasks.state_of w r.load_balancer_id
            ++ (record { listener_id = id; port = port; protocol = r.protocol } ∷ []))
        × (contains id (ids (tasks.state_of w r.load_balancer_id)) ≡ false)
  pub deletes :
      (r : DeleteListenerRequest) (w : E.World) (task : String)
      → (E.delete_listener r w).0 ≡ reply task
      → tasks.promised (E.delete_listener r w).1 task r.load_balancer_id
        ≡ keep (λ l. not (l.listener_id == r.listener_id)) (tasks.state_of w r.load_balancer_id)
  pub create_listener_stays :
      (r : CreateListenerRequest) (w : E.World)
      → tasks.has_failed w ≡ true
      → tasks.has_failed (E.create_listener r w).1 ≡ true
  pub delete_listener_stays :
      (r : DeleteListenerRequest) (w : E.World)
      → tasks.has_failed w ≡ true
      → tasks.has_failed (E.delete_listener r w).1 ≡ true
  pub store_get_by_key_all :
      (key : String) (w : E.World) (load_balancer_id : String)
      → tasks.state_of (E.store_get_by_key key w).1 load_balancer_id
        ≡ tasks.state_of w load_balancer_id
  pub store_add_all :
      (item : TencentCloudCacheEntry) (w : E.World) (load_balancer_id : String)
      → tasks.state_of (E.store_add item w).1 load_balancer_id ≡ tasks.state_of w load_balancer_id
  pub describe_listeners_all :
      (id : String) (w : E.World) (load_balancer_id : String)
      → tasks.state_of (E.describe_listeners id w).1 load_balancer_id
        ≡ tasks.state_of w load_balancer_id

abbrev pub listeners_of : {E : Env} → ListenerLaws E → E.World → String → List Listener
listeners_of L w load_balancer_id = L.tasks.state_of w load_balancer_id

-- No task has answered that it failed.
abbrev pub NoneFailed : {E : Env} → ListenerLaws E → E.World → Type 0
NoneFailed L w = L.tasks.has_failed w ≡ false
