-- ===== src/Tests/Fake.antt =====
-- A service in memory behind the calls, with a store that never expires, and the laws of the store
-- proved of it.
use cloud_provider_tencent.Base.{
  not, ◌≢◌, false, contains, contains-append, eq_refl, ◌≡◌, refl, ◌⊎◌, inl, inr, not, Option, none,
  some, List, [], ◌∷◌, ◌++◌, map, String, ℤ, pos, int_eq, int_beq, int_beq_iff, string_eq,
  string_beq_iff, ◌==◌, keep, arith, if◌then◌else◌, Bool-cases,
}
use cloud_provider_tencent.Go.Strings.{bytes}
use cloud_provider_tencent.Sdk.{
  Instance, LoadBalancer, Listener, ListenerBackend, RouteInfo, CreateLoadBalancerRequest,
  CreateListenerRequest, ClusterRouteRequest, Target, TargetsRequest, CacheValue, reply,
}
use cloud_provider_tencent.Sdk.Env.{Env, TencentCloudCacheEntry}
use cloud_provider_tencent.Sdk.Laws.{StoreLaws}
use cloud_provider_tencent.LoadBalancer.Task.Effects.{TaskLaws}
use cloud_provider_tencent.LoadBalancer.Backends.Reconcile.{target_eq, contains-keep}
use cloud_provider_tencent.LoadBalancer.Backends.Registered.{TargetLaws, targets_of, NoneFailed}

pub record Fake : Type 0 where
  pub cached : String → Option CacheValue
  pub instances : List Instance
  pub balancers : List LoadBalancer
  pub listeners : List Listener
  pub backends : List ListenerBackend
  -- the targets by the id of their listener
  pub registered : String → List Target
  pub routes : List RouteInfo
  -- what every task answers
  pub status : ℤ

-- The balancer and the listeners that the service makes for a request.
abbrev pub made_balancer : CreateLoadBalancerRequest → LoadBalancer
made_balancer r = record {
  load_balancer_id = bytes "lb-new";
  load_balancer_name = r.load_balancer_name;
  load_balancer_type = r.load_balancer_type;
  vpc_id = r.vpc_id;
  subnet_id = elim r.subnet_id [ some s ↦ s | none ↦ [] ];
  load_balancer_vips = bytes "10.0.0.9" ∷ [];
}

-- An id that is longer than those of the listeners.
abbrev pub new_id : List Listener → String
new_id [] = bytes "l"
new_id (l ∷ ls) = bytes "l" ++ (l.listener_id ++ new_id ls)

abbrev pub made_listeners : CreateListenerRequest → List Listener → List Listener
made_listeners r ls =
    map (λ port. record { listener_id = new_id ls; port = port; protocol = r.protocol }) r.ports

abbrev pub route_of_request : ClusterRouteRequest → RouteInfo
route_of_request r = record {
  gateway_ip = r.gateway_ip;
  destination_cidr_block = r.destination_cidr_block;
}

-- The entry of the store under a key, and the store's three operations on the map.
abbrev pub item_of : String → Option CacheValue → Option TencentCloudCacheEntry
item_of key none = none
item_of key (some v) = some (record { key = key; value = v })

abbrev pub with_entry : TencentCloudCacheEntry → Fake → Fake
with_entry item w = record w { cached = λ k. if k == item.key then some item.value else w.cached k }

abbrev pub without_entry : String → Fake → Fake
without_entry key w = record w { cached = λ k. if k == key then none else w.cached k }

-- What a registration and its opposite do.
abbrev pub with_targets : TargetsRequest → Fake → Fake
with_targets r w = record w {
  registered = λ id. if r.listener_id == id then w.registered id ++ r.targets else w.registered id;
}

abbrev pub without_targets : TargetsRequest → Fake → Fake
without_targets r w = record w {
  registered = λ id.
      if r.listener_id == id
      then keep (λ t. not (contains t r.targets)) (w.registered id)
      else w.registered id;
}

abbrev pub fake : Env
fake = record {
  World = Fake;
  describe_instances = λ filters w. (reply w.instances, w);
  describe_load_balancers = λ r w. (reply w.balancers, w);
  create_load_balancer =
      λ r w. (reply (bytes "task"), record w { balancers = w.balancers ++ (made_balancer r ∷ []) });
  delete_load_balancer = λ ids w. (
    reply (bytes "task"),
    record w { balancers = keep (λ b. not (contains b.load_balancer_id ids)) w.balancers },
  );
  describe_listeners = λ id w. (reply w.listeners, w);
  create_listener = λ r w.
      (reply (bytes "task"), record w { listeners = w.listeners ++ made_listeners r w.listeners });
  delete_listener = λ r w. (
    reply (bytes "task"),
    record w { listeners = keep (λ l. not (l.listener_id == r.listener_id)) w.listeners },
  );
  describe_targets = λ id w. (reply w.backends, w);
  register_targets = λ r w. (reply (bytes "task"), with_targets r w);
  deregister_targets = λ r w. (reply (bytes "task"), without_targets r w);
  describe_task_status = λ task w. (reply w.status, w);
  describe_cluster_routes = λ table w. (reply w.routes, w);
  create_cluster_route = λ r w. (reply tt, record w { routes = route_of_request r ∷ w.routes });
  delete_cluster_route = λ r w. (reply tt, record w { routes = [] });
  store_add = λ item w. (reply tt, with_entry item w);
  store_get_by_key = λ key w. (reply (item_of key (w.cached key)), w);
  store_delete = λ key w. (reply tt, without_entry key w);
  sleep = λ w. w;
}

got :
    (key : String) (o : Option CacheValue) (item : TencentCloudCacheEntry)
    → reply (item_of key o) ≡ reply (some item)
    → o ≡ some item.value
got key none item e = absurd (cc)
got key (some v) item e = cc

added :
    (item : TencentCloudCacheEntry) (w : Fake) (key : String) (v : CacheValue)
    → (with_entry item w).cached key ≡ some v
    → ((key ≡ item.key) × (v ≡ item.value)) ⊎ (w.cached key ≡ some v)
added item w key v h = elim (Bool-cases (key == item.key)) [
  | inl same ↦ inl ((string_beq_iff key item.key).0 same, ground (arith, h, same))
  | inr differs ↦ inr (ground (arith, h, differs))
]

removed :
    (key : String) (w : Fake) (k : String) (v : CacheValue)
    → (without_entry key w).cached k ≡ some v
    → w.cached k ≡ some v
removed key w k v h = elim (Bool-cases (k == key)) [
  | inl same ↦ absurd (ground (arith, h, same))
  | inr differs ↦ ground (arith, h, differs)
]

pub fake-StoreLaws : StoreLaws fake
fake-StoreLaws = record {
  peek = λ w key. w.cached key;
  get_by_key_peek = λ key w item e. got key (w.cached key) item e;
  add_peek = λ item w key v h. added item w key v h;
  get_by_key_drops = λ r w key v h. h;
  delete_drops = λ r w key v h. removed r w key v h;
  sleep_drops = λ w key v h. h;
  describe_instances_drops = λ r w key v h. h;
  describe_load_balancers_drops = λ r w key v h. h;
  create_load_balancer_drops = λ r w key v h. h;
  delete_load_balancer_drops = λ r w key v h. h;
  describe_listeners_drops = λ r w key v h. h;
  create_listener_drops = λ r w key v h. h;
  delete_listener_drops = λ r w key v h. h;
  describe_targets_drops = λ r w key v h. h;
  register_targets_drops = λ r w key v h. h;
  deregister_targets_drops = λ r w key v h. h;
  describe_task_status_drops = λ r w key v h. h;
  describe_cluster_routes_drops = λ r w key v h. h;
  create_cluster_route_drops = λ r w key v h. h;
  delete_cluster_route_drops = λ r w key v h. h;
}

pub peek-fake : (w : Fake) (key : String) → fake-StoreLaws.peek w key ≡ w.cached key
unfolding fake-StoreLaws
peek-fake w key = refl

differ : (a b : String) → a ≢ b → (a == b) ≡ false
differ a b h = elim (Bool-cases (a == b)) [
  | inl same ↦ absurd (h ((string_beq_iff a b).0 same))
  | inr other ↦ other
]

pub reply_eq : {A : Type 0} {a b : A} → reply a ≡ reply b → a ≡ b
reply_eq e = cc

-- A request takes effect when it is accepted; a task has failed where every task answers so.
abbrev pub fake_tasks : {Key Value : Type 0} → (Fake → Key → Value) → TaskLaws fake Key Value
fake_tasks state = record {
  state_of = state;
  promised = λ w task key. state w key;
  has_failed = λ w. w.status == pos 1;
  status_keeps = λ task w key. refl;
  sleep_keeps = λ task w key. refl;
  succeeds = λ task w key e. refl;
  fails = λ task w e. (int_beq_iff w.status (pos 1)).1 (reply_eq e);
  status_stays = λ task w h. h;
  sleep_stays = λ w h. h;
}

pub none_failed_at : (w : Fake) → w.status ≡ pos 0 → (w.status == pos 1) ≡ false
unfolding int_beq
none_failed_at w h = rw h refl

pub fake-TargetLaws : TargetLaws fake
fake-TargetLaws = record {
  tasks = fake_tasks (λ w key. w.registered key.1);
  register_targets_same = λ r w task t e.
      rw (eq_refl r.listener_id) (contains-append t (w.registered r.listener_id) r.targets);
  deregister_targets_same = λ r w task t e.
      rw (eq_refl r.listener_id)
        (contains-keep (λ u. not (contains u r.targets)) t (w.registered r.listener_id));
  register_targets_other = λ r w task balancer id e ne. rw (differ r.listener_id id ne) refl;
  deregister_targets_other = λ r w task balancer id e ne. rw (differ r.listener_id id ne) refl;
  register_targets_stays = λ r w h. h;
  deregister_targets_stays = λ r w h. h;
}

pub targets_of-fake :
    (w : Fake) (balancer id : String) → targets_of fake-TargetLaws w balancer id ≡ w.registered id
unfolding fake-TargetLaws
targets_of-fake w balancer id = refl

pub fake-NoneFailed : (w : Fake) → w.status ≡ pos 0 → NoneFailed fake-TargetLaws w
unfolding fake-TargetLaws
fake-NoneFailed w h = none_failed_at w h
