-- ===== src/Tests/Loops.antt =====
-- The theorems on the loops over the ports, at the service of `Data`.
use cloud_provider_tencent.Base.{
  Any, inl, inr, subst, true, string_eq, ap, List, String, get, ◌≤◌, length, some, keep, int_beq,
  string_beq, ◌≡◌, refl, [], ◌∷◌, pos, contains, arith,
}
use cloud_provider_tencent.Go.Strings.{bytes, less}
use cloud_provider_tencent.Go.Exec.{panics, ok, pure, raise, for_each, ◌>>=◌}
use cloud_provider_tencent.Sdk.{Instance, ListenerBackend, Target, reply}
use cloud_provider_tencent.Sdk.Env.{Env, call}
use cloud_provider_tencent.LoadBalancer.Backends.Accepted.{Accepts}
use cloud_provider_tencent.LoadBalancer.Task.{
  get_tencent_cloud_api_task_status, on_status, wait_rounds, wait_api_task_done,
}
use cloud_provider_tencent.LoadBalancer.Backends.{
  is_labelled, node_lan_ips, ensure_backends_of, ensure_load_balancer_backends, backends_to_delete,
  backends_to_add, has_instance, find_forward_listener, both_loops, remove_loop, remove_unused,
  delete_load_balancer_backends, add_load_balancer_backends, add_loop, add_needed, has_backend,
  is_backend, target_of,
}
use cloud_provider_tencent.Batch.{batch_loop, is_full}
use cloud_provider_tencent.LoadBalancer.Listeners.{serves}
use cloud_provider_tencent.LoadBalancer.Backends.Loops.{Elsewhere}
use cloud_provider_tencent.LoadBalancer.Backends.Reconcile.{target_eq}
use cloud_provider_tencent.LoadBalancer.Backends.Registered.{targets_of}
use cloud_provider_tencent.Cache
use cloud_provider_tencent.Go.Sort.{sort_strings, search_strings, search_from, at_least}
use cloud_provider_tencent.Common.{is_exist}
use cloud_provider_tencent.Instances.Lookup.{
  get_instance_by_instance_private_ips, scan_cache, request_instances, collect_instances,
  collect_addresses, as_instance,
}
use cloud_provider_tencent.LoadBalancer.Annotations.{get_node_label_key, get_node_label_value}
use cloud_provider_tencent.LoadBalancer.Lookup.{
  full_name, shorten, as_load_balancer, get_load_balancer, get_load_balancer_name,
}
use cloud_provider_tencent.LoadBalancer.Instance.Matching.{name_of}
use cloud_provider_tencent.LoadBalancer.Instance.Stale.{Cached, get_load_balancer-Cached}
use cloud_provider_tencent.LoadBalancer.Backends.Found.{looked_up, told_targets}
use cloud_provider_tencent.LoadBalancer.Backends.Method.{
  AreBackends, ensure_load_balancer_backends-targets_of, targets_after,
  ensure_load_balancer_backends-contains,
}
use cloud_provider_tencent.Instances.Complete.{Findable}
use cloud_provider_tencent.Instances.Complete.Whole.{get_instance_by_instance_private_ips-HasIp}
use cloud_provider_tencent.Coherence.{HasIp}
use cloud_provider_tencent.Tests.Fake.{
  fake, fake-StoreLaws, fake-TargetLaws, targets_of-fake, fake-NoneFailed,
}
use cloud_provider_tencent.Tests.Data.{
  settings, one, two, http, dns, backends, web, nodes, balancer, start, start-IsCoherent,
}

pub found_http : (find_forward_listener backends http).listener_id ≡ some (bytes "l1")
unfolding find_forward_listener serves string_beq int_beq bytes
found_http = refl

pub dns-Elsewhere : Elsewhere (bytes "l1") backends dns
unfolding find_forward_listener serves string_beq int_beq bytes
dns-Elsewhere e = ground arith

-- The service in memory, where every task is done at once.
abbrev pub prompt : Env
prompt = record fake { describe_task_status = λ task w. (reply (pos 0), w) }

pub prompt-Accepts : Accepts prompt
prompt-Accepts = record {
  registers = λ r w. (bytes "task", refl);
  deregisters = λ r w. (bytes "task", refl);
  done = λ task w. refl;
}

pub found_dns : (find_forward_listener backends dns).listener_id ≡ some (bytes "l3")
unfolding find_forward_listener serves string_beq int_beq bytes
found_dns = refl

Cached-start : Cached fake (name_of fake settings web) balancer start
unfolding string_beq bytes full_name
Cached-start = refl

uid_long : 8 ≤ length web.uid
unfolding bytes
uid_long = omega arith

-- What the search for the instances gives, and what it leaves.
looked_start :
    ((looked_up fake settings (node_lan_ips web nodes) start).backends ≡ backends)
    × ((looked_up fake settings (node_lan_ips web nodes) start).registered ≡ start.registered)
unfolding get_instance_by_instance_private_ips scan_cache node_lan_ips is_labelled keep get
    string_beq bytes get_node_label_key get_node_label_value Cache.get Cache.set batch_loop
    sort_strings less request_instances call collect_instances collect_addresses is_full is_exist
    panics pure at_least search_from search_strings as_instance full_name ◌>>=◌
looked_start = (refl, refl)

got_start :
    (get_instance_by_instance_private_ips fake settings (node_lan_ips web nodes) start).0
    ≡ ok (one ∷ two ∷ [])
unfolding get_instance_by_instance_private_ips scan_cache node_lan_ips is_labelled keep get
    string_beq bytes get_node_label_key get_node_label_value Cache.get Cache.set batch_loop
    sort_strings less request_instances call collect_instances collect_addresses is_full is_exist
    panics pure at_least search_from search_strings as_instance full_name ◌>>=◌
got_start = refl

told_start :
    (fake.describe_targets balancer.load_balancer_id
      (looked_up fake settings (node_lan_ips web nodes) start)).0
    ≡ reply backends
told_start = ap (λ (ls : List ListenerBackend). reply ls) looked_start.0

registered_start :
    (t : Target)
    → contains t (
        targets_of fake-TargetLaws
          (told_targets fake settings (node_lan_ips web nodes) start balancer)
          (bytes "lb1")
          (bytes "l1"))
      ≡ contains t (find_forward_listener backends http).targets
unfolding find_forward_listener serves string_beq int_beq bytes
registered_start t =
    rw
      (targets_of-fake (told_targets fake settings (node_lan_ips web nodes) start balancer)
        (bytes "lb1") (bytes "l1"))
      (ap (λ (r : String → List Target). contains t (r (bytes "l1"))) looked_start.1)

ran_start : (ensure_load_balancer_backends fake settings web nodes start).0 ≡ ok tt
unfolding ensure_load_balancer_backends ensure_backends_of get_load_balancer_name shorten
    get_load_balancer as_load_balancer get_instance_by_instance_private_ips scan_cache node_lan_ips
    is_labelled get get_node_label_key get_node_label_value Cache.get Cache.set sort_strings less
    request_instances collect_instances collect_addresses is_exist panics at_least search_from
    search_strings as_instance full_name both_loops for_each remove_loop remove_unused
    find_forward_listener int_beq string_beq bytes batch_loop backends_to_delete keep
    delete_load_balancer_backends call wait_api_task_done wait_rounds
    get_tencent_cloud_api_task_status is_full pure raise add_load_balancer_backends add_loop
    add_needed backends_to_add has_backend has_instance is_backend target_of serves on_status ◌>>=◌
ran_start = refl

status_start : (ensure_load_balancer_backends fake settings web nodes start).1.status ≡ pos 0
unfolding ensure_load_balancer_backends ensure_backends_of get_load_balancer_name shorten
    get_load_balancer as_load_balancer get_instance_by_instance_private_ips scan_cache node_lan_ips
    is_labelled get get_node_label_key get_node_label_value Cache.get Cache.set sort_strings less
    request_instances collect_instances collect_addresses is_exist panics at_least search_from
    search_strings as_instance full_name both_loops for_each remove_loop remove_unused
    find_forward_listener int_beq string_beq bytes batch_loop backends_to_delete keep
    delete_load_balancer_backends call wait_api_task_done wait_rounds
    get_tencent_cloud_api_task_status is_full pure raise add_load_balancer_backends add_loop
    add_needed backends_to_add has_backend has_instance is_backend target_of serves on_status ◌>>=◌
status_start = refl

ensure_load_balancer_backends-targets_of_example :
    AreBackends settings http
      (node_lan_ips web nodes)
      (targets_after fake settings fake-TargetLaws web nodes balancer (bytes "l1") start)
ensure_load_balancer_backends-targets_of_example =
    ensure_load_balancer_backends-targets_of fake settings fake-StoreLaws fake-TargetLaws web nodes
      balancer (bytes "l1") backends http [] (dns ∷ []) start start uid_long start-IsCoherent
      (get_load_balancer-Cached fake settings (name_of fake settings web) balancer web start
        Cached-start)
      refl told_start found_http tt (dns-Elsewhere, tt) registered_start ran_start
      (fake-NoneFailed _ status_start)

-- The second machine is in the VPC, and DescribeInstances tells of it.
two-Findable : Findable fake settings (bytes "ip2")
two-Findable = record {
  stands = λ w. Any (HasIp settings (bytes "ip2")) w.instances;
  told = λ values w is c h e. subst (Any (HasIp settings (bytes "ip2"))) (reply_inj e) h;
  describe_instances_keeps = λ filters w h. h;
  store_add_keeps = λ item w h. h;
  store_get_by_key_keeps = λ key w h. h;
}
  where
    reply_inj : {xs ys : List Instance} → reply xs ≡ reply ys → xs ≡ ys
    reply_inj e = cc

two-stands : two-Findable.stands start
unfolding two-Findable contains string_beq bytes
two-stands = inr (inl (refl, refl))

ip2-asked : contains (bytes "ip2") (node_lan_ips web nodes) ≡ true
unfolding node_lan_ips is_labelled keep get string_beq bytes get_node_label_key get_node_label_value
    contains
ip2-asked = refl

ensure_load_balancer_backends-contains_example :
    (i : Instance) × HasIp settings (bytes "ip2") i
    × (contains
          (target_of http i)
          (targets_after fake settings fake-TargetLaws web nodes balancer (bytes "l1") start)
        ≡ true)
ensure_load_balancer_backends-contains_example =
    ensure_load_balancer_backends-contains fake settings fake-StoreLaws fake-TargetLaws web nodes
      balancer (bytes "l1") backends http [] (dns ∷ []) start start uid_long start-IsCoherent
      (get_load_balancer-Cached fake settings (name_of fake settings web) balancer web start
        Cached-start)
      refl told_start found_http tt (dns-Elsewhere, tt) registered_start ran_start
      (fake-NoneFailed _ status_start) (bytes "ip2") two-Findable two-stands ip2-asked

get_instance_by_instance_private_ips-HasIp_example :
    Any (HasIp settings (bytes "ip2")) (one ∷ two ∷ [])
get_instance_by_instance_private_ips-HasIp_example =
    get_instance_by_instance_private_ips-HasIp fake fake-StoreLaws settings (node_lan_ips web nodes)
      (bytes "ip2") two-Findable start (one ∷ two ∷ []) start-IsCoherent two-stands ip2-asked
      got_start
