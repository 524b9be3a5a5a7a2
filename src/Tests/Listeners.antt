-- ===== src/Tests/Listeners.antt =====
-- The theorems on the listeners of a balancer, at the service of `Data`.
use cloud_provider_tencent.Go.Exec.Inversion.{same_outcome}
use cloud_provider_tencent.Base.{
  ◌≡◌, ◌≢◌, ◌∙◌, eq_refl, ◌≤◌, ◌<◌, refl, ap, true, false, none, List, [], ◌∷◌, ◌++◌, map, String,
  ℤ, pos, length, length-append, contains, string_eq, string_beq, string_beq_iff, ◌==◌, arith, All,
  Any, Bool-cases, inl, inr,
}
use cloud_provider_tencent.Go.Strings.{bytes}
use cloud_provider_tencent.Go.Exec.{ok}
use cloud_provider_tencent.Sdk.{
  Listener, CreateListenerRequest, CacheValue, Answer, reply, load_balancer_value,
}
use cloud_provider_tencent.Sdk.Env.{Env, TencentCloudCacheEntry}
use cloud_provider_tencent.LoadBalancer.Lookup.{full_name}
use cloud_provider_tencent.LoadBalancer.Task.Effects.{TaskLaws}
use cloud_provider_tencent.LoadBalancer.Listeners.{ensure_load_balancer_listeners, reconcile}
use cloud_provider_tencent.LoadBalancer.Listeners.Plan.{DistinctNames, DistinctIds, Serves}
use cloud_provider_tencent.LoadBalancer.Listeners.Growth.{ids}
use cloud_provider_tencent.LoadBalancer.Listeners.Laws.{ListenerLaws}
use cloud_provider_tencent.LoadBalancer.Listeners.Accepted.{AcceptsListeners, reconcile-ok}
use cloud_provider_tencent.LoadBalancer.Listeners.Method.{
  listeners_key, after_miss, ensure_load_balancer_listeners_found, get_load_balancer_listeners_miss,
  ensure_load_balancer_listeners-listeners_of,
}
use cloud_provider_tencent.LoadBalancer.Instance.Matching.{name_of}
use cloud_provider_tencent.LoadBalancer.Instance.Stale.{get_load_balancer-Cached}
use cloud_provider_tencent.LoadBalancer.Listeners.Stale.{
  Answers, Lasting, ensure_load_balancer_listeners_stale,
}
use cloud_provider_tencent.Tests.Fake.{Fake, fake, with_entry, new_id, made_listeners}
use cloud_provider_tencent.Tests.Data.{
  settings, http, dns, web, balancer, listeners, name_key, start,
}

contains-shorter :
    (x : String) (ls : List Listener) → contains x (ids ls) ≡ true → length x < length (new_id ls)
unfolding contains bytes
contains-shorter x [] h = absurd (ground (arith, h))
contains-shorter x (l ∷ ls) h = elim (Bool-cases (x == l.listener_id)) [
  | inl same ↦
      ground
        (arith, (string_beq_iff x l.listener_id).0 same, length-append l.listener_id (new_id ls))
  | inr differs ↦ ground (
    arith,
    contains-shorter x ls (ground (arith, h, differs)),
    length-append l.listener_id (new_id ls),
  )
]

pub new_id-free : (ls : List Listener) → contains (new_id ls) (ids ls) ≡ false
new_id-free ls = elim (Bool-cases (contains (new_id ls) (ids ls))) [
  | inl found ↦ absurd (omega (arith, contains-shorter (new_id ls) ls found))
  | inr free ↦ free
]

pub made :
    (r : CreateListenerRequest) (ls : List Listener) (port : ℤ)
    → r.ports ≡ port ∷ []
    → ls ++ made_listeners r ls
      ≡ ls ++ (record { listener_id = new_id ls; port = port; protocol = r.protocol } ∷ [])
made r ls port e =
    ap
      (λ ports.
        ls ++ map (λ n. record { listener_id = new_id ls; port = n; protocol = r.protocol }) ports)
      e

-- The service in memory, where every task is done at once.
abbrev pub prompt : Env
prompt = record fake { describe_task_status = λ task w. (reply (pos 0), w) }

pub success-ne-failure : {A : Type 0} → ◌≡◌ {A = Answer ℤ} (reply (pos 0)) (reply (pos 1)) → A
success-ne-failure e = absurd (zero-ne-one (reply_inj e))
  where
    reply_inj : ◌≡◌ {A = Answer ℤ} (reply (pos 0)) (reply (pos 1)) → pos 0 ≡ pos 1
    reply_inj h = cc

    zero-ne-one : pos 0 ≡ pos 1 → ⊥
    zero-ne-one h = ground arith

-- A request takes effect when it is accepted, and no task fails.
abbrev pub prompt_tasks : {Key Value : Type 0} → (Fake → Key → Value) → TaskLaws prompt Key Value
prompt_tasks state = record {
  state_of = state;
  promised = λ w task key. state w key;
  has_failed = λ w. false;
  status_keeps = λ task w key. refl;
  sleep_keeps = λ task w key. refl;
  succeeds = λ task w key e. refl;
  fails = λ task w e. success-ne-failure e;
  status_stays = λ task w h. h;
  sleep_stays = λ w h. h;
}

abbrev pub prompt-ListenerLaws : ListenerLaws prompt
prompt-ListenerLaws = record {
  tasks = prompt_tasks (λ w balancer. w.listeners);
  creates = λ r w task port e one.
      (new_id w.listeners, made r w.listeners port one, new_id-free w.listeners);
  deletes = λ r w task e. refl;
  create_listener_stays = λ r w h. h;
  delete_listener_stays = λ r w h. h;
  store_get_by_key_all = λ key w id. refl;
  store_add_all = λ item w id. refl;
  describe_listeners_all = λ id w balancer. refl;
}

pub prompt-AcceptsListeners : AcceptsListeners prompt
prompt-AcceptsListeners = record {
  creates = λ r w. (bytes "task", refl);
  deletes = λ r w. (bytes "task", refl);
  done = λ task w. refl;
}

http-ne-dns : http.name ≢ dns.name
unfolding bytes
http-ne-dns e = ground arith

pub distinct_names : DistinctNames web.ports
distinct_names = ((http-ne-dns, tt), (tt, tt))

l1-ne-l2 : bytes "l1" ≢ bytes "l2"
unfolding bytes
l1-ne-l2 e = ground arith

pub distinct_ids : DistinctIds listeners
distinct_ids = ((l1-ne-l2, tt), (tt, tt))

pub uid_long : 8 ≤ length web.uid
unfolding bytes
uid_long = omega arith

pub cached_start : Answers prompt name_key (load_balancer_value balancer) start
unfolding string_beq bytes full_name
cached_start = refl

pub missed_start : (prompt.store_get_by_key (listeners_key balancer) start).0 ≡ reply none
unfolding string_beq bytes full_name
missed_start = refl

-- The world after the two searches.
abbrev searched : Fake
searched = after_miss prompt settings web balancer listeners start

pub ran_start : (ensure_load_balancer_listeners prompt settings web start).0 ≡ ok tt
ran_start =
    same_outcome (
      ensure_load_balancer_listeners_found prompt settings web balancer start start searched
        listeners uid_long
        (get_load_balancer-Cached prompt settings (name_of prompt settings web) balancer web start
          cached_start)
        (get_load_balancer_listeners_miss prompt settings web balancer start listeners missed_start
          refl))
    ∙ reconcile-ok prompt settings web balancer listeners searched prompt-AcceptsListeners

ensure_load_balancer_listeners-listeners_of_example :
    let ls = (ensure_load_balancer_listeners prompt settings web start).1.listeners in
    All (λ p. Any (Serves p) ls) web.ports × All (λ l. Any (λ p. Serves p l) web.ports) ls
ensure_load_balancer_listeners-listeners_of_example =
    ensure_load_balancer_listeners-listeners_of prompt settings prompt-ListenerLaws web balancer
      start start uid_long distinct_names
      (get_load_balancer-Cached prompt settings (name_of prompt settings web) balancer web start
        cached_start)
      missed_start refl distinct_ids ran_start refl

lookup_same :
    (item : TencentCloudCacheEntry) (w : Fake)
    → Answers prompt item.key item.value (with_entry item w)
lookup_same item w = rw (eq_refl item.key) refl

lookup_other :
    (item : TencentCloudCacheEntry) (w : Fake) (key : String) (value : CacheValue)
    → ¬ (key ≡ item.key)
    → Answers prompt key value w
    → Answers prompt key value (with_entry item w)
lookup_other item w key value ne h = elim (Bool-cases (key == item.key)) [
  | inl same ↦ absurd (ne ((string_beq_iff key item.key).0 same))
  | inr differs ↦ rw differs h
]

prompt-Lasting : Lasting prompt
prompt-Lasting = record {
  added = λ item w. lookup_same item w;
  added_other = λ item w key value ne h. lookup_other item w key value ne h;
  get_by_key_keeps = λ r w key value h. h;
  describe_listeners_keeps = λ r w key value h. h;
  create_listener_keeps = λ r w key value h. h;
  delete_listener_keeps = λ r w key value h. h;
  describe_task_status_keeps = λ r w key value h. h;
  sleep_keeps = λ w key value h. h;
}

ensure_load_balancer_listeners_stale_example :
    (v : Fake) × (ensure_load_balancer_listeners prompt settings web
        (ensure_load_balancer_listeners prompt settings web start).1
      ≡ reconcile prompt settings web balancer listeners v)
ensure_load_balancer_listeners_stale_example =
    ensure_load_balancer_listeners_stale prompt settings prompt-Lasting web balancer listeners start
      uid_long cached_start missed_start refl ran_start
