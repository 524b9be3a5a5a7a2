-- ===== src/Tests/Steady.antt =====
-- A second run of ensureLoadBalancerListeners, at the service of `Data`, once the cache has expired.
use cloud_provider_tencent.Base.{
  ◌≡◌, ◌≢◌, none, refl, subst, sym, arith, List, [], ◌∷◌, pos, keep, get, string_beq, int_beq,
}
use cloud_provider_tencent.Go.Strings.{bytes, less}
use cloud_provider_tencent.Go.Sort.{sort_strings, search_strings, search_from, at_least}
use cloud_provider_tencent.Go.Exec.{ok, pure, raise, for_each, ◌>>=◌}
use cloud_provider_tencent.Sdk.{Listener, reply}
use cloud_provider_tencent.Sdk.Env.{call}
use cloud_provider_tencent.Cache
use cloud_provider_tencent.Common.{is_exist}
use cloud_provider_tencent.LoadBalancer.Annotations.{build_health_check}
use cloud_provider_tencent.LoadBalancer.Lookup.{
  full_name, shorten, as_load_balancer, as_listeners, get_load_balancer_name, get_load_balancer,
  get_load_balancer_listeners,
}
use cloud_provider_tencent.LoadBalancer.Task.{
  get_tencent_cloud_api_task_status, on_status, wait_rounds, wait_api_task_done,
}
use cloud_provider_tencent.LoadBalancer.Instance.Matching.{name_of}
use cloud_provider_tencent.LoadBalancer.Instance.Stale.{get_load_balancer-Cached}
use cloud_provider_tencent.LoadBalancer.Listeners.{
  serves, find_one_listener_valid, is_served, created_service_port_names, used_listener_ids,
  ports_to_create, listeners_to_delete, create_listener_request, delete_listener_request,
  create_listener, delete_listener, reconcile, ensure_load_balancer_listeners,
}
use cloud_provider_tencent.LoadBalancer.Listeners.Method.{listeners_key, after_miss}
use cloud_provider_tencent.LoadBalancer.Listeners.Stale.{Answers}
use cloud_provider_tencent.LoadBalancer.Listeners.Steady.{
  DistinctSockets, Identified, ensure_load_balancer_listeners_steady,
}
use cloud_provider_tencent.Sdk.{load_balancer_value}
use cloud_provider_tencent.Tests.Fake.{Fake, new_id}
use cloud_provider_tencent.Tests.Data.{
  settings, web, balancer, listener, listeners, start, name_key,
}
use cloud_provider_tencent.Tests.Listeners.{
  prompt, prompt-ListenerLaws, distinct_names, distinct_ids, uid_long, missed_start, ran_start,
  cached_start,
}

abbrev left : List Listener
left = (ensure_load_balancer_listeners prompt settings web start).1.listeners

-- The world once the entries of the first run have expired, and the balancer is cached anew.
abbrev later : Fake
later = record start { listeners = left }

-- One listener was there, and the other one is new.
abbrev expected : List Listener
expected =
    listener (bytes "l1") (pos 80) (bytes "TCP")
    ∷ listener (new_id listeners) (pos 53) (bytes "UDP")
    ∷ []

left_lem : left ≡ expected
unfolding ensure_load_balancer_listeners get_load_balancer_listeners as_listeners
    find_one_listener_valid is_served created_service_port_names used_listener_ids ports_to_create
    listeners_to_delete create_listener_request delete_listener_request create_listener
    delete_listener reconcile build_health_check get_load_balancer_name shorten get_load_balancer
    as_load_balancer Cache.get Cache.set sort_strings less is_exist at_least search_from
    search_strings full_name get for_each int_beq string_beq bytes keep call wait_api_task_done
    wait_rounds get_tencent_cloud_api_task_status pure raise serves on_status ◌>>=◌
left_lem = refl

ports-ne : pos 80 ≢ pos 53
ports-ne e = ground arith

expected-DistinctSockets : DistinctSockets expected
expected-DistinctSockets = (((λ (p, _). ports-ne p), tt), (tt, tt))

expected-Identified : Identified expected
unfolding bytes
expected-Identified = ((λ e. ground arith), ((λ e. ground arith), tt))

missed_later : (prompt.store_get_by_key (listeners_key balancer) later).0 ≡ reply none
unfolding string_beq bytes full_name
missed_later = refl

cached_later : Answers prompt name_key (load_balancer_value balancer) later
unfolding string_beq bytes full_name
cached_later = refl

ensure_load_balancer_listeners_steady_example :
    ensure_load_balancer_listeners prompt settings web later
    ≡ (ok tt, after_miss prompt settings web balancer left later)
ensure_load_balancer_listeners_steady_example =
    ensure_load_balancer_listeners_steady prompt settings prompt-ListenerLaws web balancer left
      start start later later uid_long distinct_names
      (get_load_balancer-Cached prompt settings (name_of prompt settings web) balancer web start
        cached_start)
      missed_start refl distinct_ids ran_start refl refl
      (get_load_balancer-Cached prompt settings (name_of prompt settings web) balancer web later
        cached_later)
      missed_later refl (subst Identified (sym left_lem) expected-Identified)
      (subst DistinctSockets (sym left_lem) expected-DistinctSockets)
