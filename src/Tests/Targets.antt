-- ===== src/Tests/Targets.antt =====
-- EnsureLoadBalancer, followed to the targets of a listener, at the service of `Data`.
use cloud_provider_tencent.Base.{
  ◌≡◌, ◌∙◌, refl, sym, ap, List, [], ◌∷◌, String, pos, keep, get, contains, string_beq, int_beq,
  string_eq,
}
use cloud_provider_tencent.Go.Strings.{bytes, less}
use cloud_provider_tencent.Go.Sort.{sort_strings, search_strings, search_from, at_least}
use cloud_provider_tencent.Go.Exec.{ok, pure, raise, panics, attempt, for_each, ◌>>=◌}
use cloud_provider_tencent.Sdk.{ListenerBackend, Target, listeners_value, reply}
use cloud_provider_tencent.Sdk.Env.{call}
use cloud_provider_tencent.Cache
use cloud_provider_tencent.Common.{is_exist}
use cloud_provider_tencent.Batch.{batch_loop, is_full}
use cloud_provider_tencent.Instances.Lookup.{
  get_instance_by_instance_private_ips, scan_cache, request_instances, collect_instances,
  collect_addresses, as_instance,
}
use cloud_provider_tencent.LoadBalancer.Annotations.{
  get_node_label_key, get_node_label_value, desired_type, build_health_check,
}
use cloud_provider_tencent.LoadBalancer.Lookup.{
  full_name, shorten, as_load_balancer, as_listeners, get_load_balancer_name, get_load_balancer,
  get_load_balancer_listeners,
}
use cloud_provider_tencent.LoadBalancer.Lookup.Footprint.{KeptBySearch}
use cloud_provider_tencent.LoadBalancer.Task.{
  get_tencent_cloud_api_task_status, on_status, wait_rounds, wait_api_task_done,
}
use cloud_provider_tencent.LoadBalancer.Instance.{
  need_recreate, ensure_found, recreate, ensure_load_balancer_instance,
}
use cloud_provider_tencent.LoadBalancer.Instance.Matching.{name_of}
use cloud_provider_tencent.LoadBalancer.Instance.Stale.{Cached, get_load_balancer-Cached}
use cloud_provider_tencent.LoadBalancer.Listeners.{
  serves, find_one_listener_valid, is_served, created_service_port_names, used_listener_ids,
  ports_to_create, listeners_to_delete, create_listener_request, delete_listener_request,
  create_listener, delete_listener, reconcile, ensure_load_balancer_listeners,
}
use cloud_provider_tencent.LoadBalancer.Listeners.Method.{listeners_key}
use cloud_provider_tencent.LoadBalancer.Backends.{
  is_labelled, node_lan_ips, find_forward_listener, is_backend, has_instance, has_backend,
  backends_to_delete, target_of, backends_to_add, add_load_balancer_backends,
  delete_load_balancer_backends, remove_unused, add_needed, remove_loop, add_loop, both_loops,
  ensure_backends_of, ensure_load_balancer_backends,
}
use cloud_provider_tencent.LoadBalancer.Backends.Reconcile.{target_eq}
use cloud_provider_tencent.LoadBalancer.Backends.Registered.{targets_of}
use cloud_provider_tencent.LoadBalancer.Backends.Found.{looked_up, told_targets}
use cloud_provider_tencent.LoadBalancer.Backends.Method.{AreBackends}
use cloud_provider_tencent.LoadBalancer.Service.{status_of, ensure_parts, ensure_load_balancer}
use cloud_provider_tencent.LoadBalancer.Service.Ensured.{after_listeners}
use cloud_provider_tencent.LoadBalancer.Service.Targets.{ensure_load_balancer-targets_of}
use cloud_provider_tencent.Tests.Fake.{
  Fake, fake, fake-StoreLaws, fake-TargetLaws, targets_of-fake, fake-NoneFailed, with_entry,
}
use cloud_provider_tencent.Tests.Data.{
  settings, http, dns, web, nodes, balancer, listeners, backends, start, start-IsCoherent,
}
use cloud_provider_tencent.Tests.Loops.{found_http, dns-Elsewhere}
use cloud_provider_tencent.Tests.Listeners.{uid_long}

-- After the first two steps the list of listeners is in the cache, and the listeners are others.
abbrev listened : Fake
listened =
    record (with_entry (record { key = listeners_key balancer; value = listeners_value listeners })
      start) { listeners = (after_listeners fake settings web nodes start).listeners }

after_start : after_listeners fake settings web nodes start ≡ listened
unfolding ensure_load_balancer_instance ensure_found recreate need_recreate desired_type attempt
    ensure_load_balancer_listeners get_load_balancer_listeners as_listeners find_one_listener_valid
    is_served created_service_port_names used_listener_ids ports_to_create listeners_to_delete
    create_listener_request delete_listener_request create_listener delete_listener reconcile
    build_health_check get_load_balancer_name shorten get_load_balancer as_load_balancer Cache.get
    Cache.set sort_strings less is_exist panics at_least search_from search_strings full_name get
    for_each int_beq string_beq bytes keep call wait_api_task_done wait_rounds
    get_tencent_cloud_api_task_status pure raise serves on_status ◌>>=◌
after_start = refl

Cached-listened : Cached fake (name_of fake settings web) balancer listened
unfolding string_beq bytes full_name
Cached-listened = refl

-- What the search for the instances leaves.
looked_listened :
    ((looked_up fake settings (node_lan_ips web nodes) listened).backends ≡ backends)
    × ((looked_up fake settings (node_lan_ips web nodes) listened).registered ≡ start.registered)
unfolding get_instance_by_instance_private_ips scan_cache node_lan_ips is_labelled keep get
    string_beq bytes get_node_label_key get_node_label_value Cache.get Cache.set batch_loop
    sort_strings less request_instances call collect_instances collect_addresses is_full is_exist
    panics pure at_least search_from search_strings as_instance full_name ◌>>=◌
looked_listened = (refl, refl)

told_listened :
    (fake.describe_targets balancer.load_balancer_id
      (looked_up fake settings (node_lan_ips web nodes) listened)).0
    ≡ reply backends
told_listened = ap (λ (ls : List ListenerBackend). reply ls) looked_listened.0

registered_listened :
    (t : Target)
    → contains t (
        targets_of fake-TargetLaws
          (told_targets fake settings (node_lan_ips web nodes) listened balancer)
          (bytes "lb1")
          (bytes "l1"))
      ≡ contains t (find_forward_listener backends http).targets
unfolding find_forward_listener serves string_beq int_beq bytes
registered_listened t =
    rw
      (targets_of-fake (told_targets fake settings (node_lan_ips web nodes) listened balancer)
        (bytes "lb1") (bytes "l1"))
      (ap (λ (r : String → List Target). contains t (r (bytes "l1"))) looked_listened.1)

targets-KeptBySearch :
    (balancer_id listener_id : String) (ts : List Target)
    → KeptBySearch fake (λ v. targets_of fake-TargetLaws v balancer_id listener_id ≡ ts)
targets-KeptBySearch balancer_id listener_id ts = record {
  describe_load_balancers = λ r w h. kept (fake.describe_load_balancers r w).1 w refl h;
  store_add = λ r w h. kept (fake.store_add r w).1 w refl h;
  store_get_by_key = λ r w h. kept (fake.store_get_by_key r w).1 w refl h;
}
  where
    kept :
        (v w : Fake)
        → v.registered ≡ w.registered
        → targets_of fake-TargetLaws w balancer_id listener_id ≡ ts
        → targets_of fake-TargetLaws v balancer_id listener_id ≡ ts
    kept v w same h =
        targets_of-fake v balancer_id listener_id
        ∙ ap (λ (r : String → List Target). r listener_id) same
        ∙ sym (targets_of-fake w balancer_id listener_id)
        ∙ h

ran_start : (ensure_load_balancer fake settings web nodes start).0 ≡ ok balancer.load_balancer_vips
unfolding ensure_load_balancer ensure_parts status_of ensure_load_balancer_instance ensure_found
    recreate need_recreate desired_type attempt ensure_load_balancer_listeners
    get_load_balancer_listeners as_listeners find_one_listener_valid is_served
    created_service_port_names used_listener_ids ports_to_create listeners_to_delete
    create_listener_request delete_listener_request create_listener delete_listener reconcile
    build_health_check ensure_load_balancer_backends ensure_backends_of get_load_balancer_name
    shorten get_load_balancer as_load_balancer get_instance_by_instance_private_ips scan_cache
    node_lan_ips is_labelled get get_node_label_key get_node_label_value Cache.get Cache.set
    sort_strings less request_instances collect_instances collect_addresses is_exist panics at_least
    search_from search_strings as_instance full_name both_loops for_each remove_loop remove_unused
    find_forward_listener int_beq string_beq bytes batch_loop backends_to_delete keep
    delete_load_balancer_backends call wait_api_task_done wait_rounds
    get_tencent_cloud_api_task_status is_full pure raise add_load_balancer_backends add_loop
    add_needed backends_to_add has_backend has_instance is_backend target_of serves on_status ◌>>=◌
ran_start = refl

-- No task of the three steps failed.
status_backends :
    (ensure_load_balancer_backends fake settings web nodes
      (after_listeners fake settings web nodes start)).1.status
    ≡ pos 0
unfolding ensure_load_balancer ensure_parts status_of ensure_load_balancer_instance ensure_found
    recreate need_recreate desired_type attempt ensure_load_balancer_listeners
    get_load_balancer_listeners as_listeners find_one_listener_valid is_served
    created_service_port_names used_listener_ids ports_to_create listeners_to_delete
    create_listener_request delete_listener_request create_listener delete_listener reconcile
    build_health_check ensure_load_balancer_backends ensure_backends_of get_load_balancer_name
    shorten get_load_balancer as_load_balancer get_instance_by_instance_private_ips scan_cache
    node_lan_ips is_labelled get get_node_label_key get_node_label_value Cache.get Cache.set
    sort_strings less request_instances collect_instances collect_addresses is_exist panics at_least
    search_from search_strings as_instance full_name both_loops for_each remove_loop remove_unused
    find_forward_listener int_beq string_beq bytes batch_loop backends_to_delete keep
    delete_load_balancer_backends call wait_api_task_done wait_rounds
    get_tencent_cloud_api_task_status is_full pure raise add_load_balancer_backends add_loop
    add_needed backends_to_add has_backend has_instance is_backend target_of serves on_status ◌>>=◌
status_backends = refl

ensure_load_balancer-targets_of_example : AreBackends settings http (node_lan_ips web nodes) (
    targets_of fake-TargetLaws
      (ensure_load_balancer fake settings web nodes start).1
      balancer.load_balancer_id
      (bytes "l1"))
ensure_load_balancer-targets_of_example =
    ensure_load_balancer-targets_of fake settings fake-StoreLaws fake-TargetLaws web nodes balancer
      (bytes "l1") backends http [] (dns ∷ []) balancer.load_balancer_vips start listened
      (targets-KeptBySearch balancer.load_balancer_id (bytes "l1")) uid_long start-IsCoherent
      (rw after_start (
        get_load_balancer-Cached fake settings (name_of fake settings web) balancer web listened
          Cached-listened))
      refl told_listened found_http tt (dns-Elsewhere, tt) registered_listened ran_start
      (fake-NoneFailed _ status_backends)
