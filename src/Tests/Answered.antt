-- ===== src/Tests/Answered.antt =====
-- EnsureLoadBalancer, at the service of `Data` whose tasks are done at once.
use cloud_provider_tencent.Base.{◌≡◌, refl, ap, List, keep, get, string_beq, int_beq, string_eq}
use cloud_provider_tencent.Go.Strings.{bytes, less}
use cloud_provider_tencent.Go.Sort.{sort_strings, search_strings, search_from, at_least}
use cloud_provider_tencent.Go.Exec.{ok, pure, raise, panics, attempt, for_each, ◌>>=◌}
use cloud_provider_tencent.Sdk.{ListenerBackend, listeners_value, reply}
use cloud_provider_tencent.Sdk.Env.{call}
use cloud_provider_tencent.Cache
use cloud_provider_tencent.Common.{is_exist}
use cloud_provider_tencent.Batch.{batch_loop, is_full}
use cloud_provider_tencent.Instances.Lookup.{
  get_instance_by_instance_private_ips, scan_cache, request_instances, collect_instances,
  collect_addresses, as_instance,
}
use cloud_provider_tencent.LoadBalancer.Annotations.{
  get_node_label_key, get_node_label_value, desired_type, build_health_check,
}
use cloud_provider_tencent.LoadBalancer.Lookup.{
  full_name, shorten, as_load_balancer, as_listeners, get_load_balancer_name, get_load_balancer,
  get_load_balancer_listeners,
}
use cloud_provider_tencent.LoadBalancer.Task.{
  get_tencent_cloud_api_task_status, on_status, wait_rounds, wait_api_task_done,
}
use cloud_provider_tencent.LoadBalancer.Instance.{
  need_recreate, ensure_found, recreate, ensure_load_balancer_instance,
}
use cloud_provider_tencent.LoadBalancer.Instance.Matching.{name_of}
use cloud_provider_tencent.LoadBalancer.Instance.Stale.{Cached, get_load_balancer-Cached}
use cloud_provider_tencent.LoadBalancer.Listeners.{
  serves, find_one_listener_valid, is_served, created_service_port_names, used_listener_ids,
  ports_to_create, listeners_to_delete, create_listener_request, delete_listener_request,
  create_listener, delete_listener, reconcile, ensure_load_balancer_listeners,
}
use cloud_provider_tencent.LoadBalancer.Listeners.Method.{listeners_key}
use cloud_provider_tencent.LoadBalancer.Backends.{
  is_labelled, node_lan_ips, find_forward_listener, is_backend, has_instance, has_backend,
  backends_to_delete, target_of, backends_to_add, add_load_balancer_backends,
  delete_load_balancer_backends, remove_unused, add_needed, remove_loop, add_loop, both_loops,
  ensure_backends_of, ensure_load_balancer_backends,
}
use cloud_provider_tencent.LoadBalancer.Backends.Reconcile.{target_eq}
use cloud_provider_tencent.LoadBalancer.Backends.Found.{looked_up}
use cloud_provider_tencent.LoadBalancer.Service.{ensure_load_balancer}
use cloud_provider_tencent.LoadBalancer.Service.Ensured.{after_listeners}
use cloud_provider_tencent.LoadBalancer.Service.Answered.{
  AnswersListeners, at_last, ensure_load_balancer-ok,
}
use cloud_provider_tencent.Tests.Fake.{Fake, with_entry}
use cloud_provider_tencent.Tests.Data.{settings, web, nodes, balancer, listeners, backends, start}
use cloud_provider_tencent.Tests.Loops.{found_http}
use cloud_provider_tencent.Tests.Listeners.{uid_long}
use cloud_provider_tencent.LoadBalancer.Instance.{subnet_of}
use cloud_provider_tencent.LoadBalancer.Instance.Matching.{Matches}
use cloud_provider_tencent.Tests.Loops.{prompt-Accepts, found_dns}
use cloud_provider_tencent.Tests.Listeners.{prompt, prompt-AcceptsListeners}
use cloud_provider_tencent.Tests.Ensured.{found_start, after_start}
use cloud_provider_tencent.Tests.Updated.{
  prompt-StoreLaws, prompt-IsCoherent, prompt-AnswersInstances, some_node,
}

prompt-AnswersListeners : AnswersListeners prompt
prompt-AnswersListeners = λ id w. (w.listeners, refl)

web-Matches : Matches settings balancer (desired_type web) (subnet_of web)
unfolding desired_type string_beq get bytes
web-Matches = (refl, refl)

-- After the first two steps the list of listeners is in the cache, and the listeners are others.
abbrev listened : Fake
listened =
    record (with_entry (record { key = listeners_key balancer; value = listeners_value listeners })
      start) { listeners = (after_listeners prompt settings web nodes start).listeners }

after_listened : after_listeners prompt settings web nodes start ≡ listened
unfolding ensure_load_balancer_instance ensure_found recreate need_recreate desired_type attempt
    ensure_load_balancer_listeners get_load_balancer_listeners as_listeners find_one_listener_valid
    is_served created_service_port_names used_listener_ids ports_to_create listeners_to_delete
    create_listener_request delete_listener_request create_listener delete_listener reconcile
    build_health_check get_load_balancer_name shorten get_load_balancer as_load_balancer Cache.get
    Cache.set sort_strings less is_exist panics at_least search_from search_strings full_name get
    for_each int_beq string_beq bytes keep call wait_api_task_done wait_rounds
    get_tencent_cloud_api_task_status pure raise serves on_status ◌>>=◌
after_listened = refl

Cached-listened : Cached prompt (name_of prompt settings web) balancer listened
unfolding string_beq bytes full_name
Cached-listened = refl

looked_listened : (looked_up prompt settings (node_lan_ips web nodes) listened).backends ≡ backends
unfolding get_instance_by_instance_private_ips scan_cache node_lan_ips is_labelled keep get
    string_beq bytes get_node_label_key get_node_label_value Cache.get Cache.set batch_loop
    sort_strings less request_instances call collect_instances collect_addresses is_full is_exist
    panics pure at_least search_from search_strings as_instance full_name ◌>>=◌
looked_listened = refl

found_last :
    (get_load_balancer prompt settings
      (name_of prompt settings web)
      web
      (at_last prompt settings web nodes start)).0
    ≡ ok balancer
unfolding ensure_load_balancer_instance ensure_found recreate need_recreate desired_type attempt
    ensure_load_balancer_listeners get_load_balancer_listeners as_listeners find_one_listener_valid
    is_served created_service_port_names used_listener_ids ports_to_create listeners_to_delete
    create_listener_request delete_listener_request create_listener delete_listener reconcile
    build_health_check ensure_load_balancer_backends ensure_backends_of get_load_balancer_name
    shorten get_load_balancer as_load_balancer get_instance_by_instance_private_ips scan_cache
    node_lan_ips is_labelled get get_node_label_key get_node_label_value Cache.get Cache.set
    sort_strings less request_instances collect_instances collect_addresses is_exist panics at_least
    search_from search_strings as_instance full_name both_loops for_each remove_loop remove_unused
    find_forward_listener int_beq string_beq bytes batch_loop backends_to_delete keep
    delete_load_balancer_backends call wait_api_task_done wait_rounds
    get_tencent_cloud_api_task_status is_full pure raise add_load_balancer_backends add_loop
    add_needed backends_to_add has_backend has_instance is_backend target_of serves on_status ◌>>=◌
found_last = refl

ensure_load_balancer-ok_example :
    (ensure_load_balancer prompt settings web nodes start).0 ≡ ok balancer.load_balancer_vips
ensure_load_balancer-ok_example =
    ensure_load_balancer-ok prompt settings prompt-StoreLaws web nodes balancer backends start start
      start listened prompt-AcceptsListeners prompt-Accepts prompt-AnswersListeners
      prompt-AnswersInstances prompt-IsCoherent uid_long refl web-Matches found_start
      (rw after_start found_start)
      (rw after_listened (
        get_load_balancer-Cached prompt settings (name_of prompt settings web) balancer web listened
          Cached-listened))
      some_node (ap (λ (ls : List ListenerBackend). reply ls) looked_listened)
      ((bytes "l1", found_http), ((bytes "l3", found_dns), tt)) found_last
