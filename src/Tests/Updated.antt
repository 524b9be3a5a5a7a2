-- ===== src/Tests/Updated.antt =====
-- UpdateLoadBalancer, at the service of `Data` whose tasks are done at once.
use cloud_provider_tencent.Base.{
  ◌≡◌, ◌≢◌, refl, ap, arith, List, [], keep, get, int_beq, string_beq,
}
use cloud_provider_tencent.Go.Strings.{bytes, less}
use cloud_provider_tencent.Go.Sort.{sort_strings, search_strings, search_from, at_least}
use cloud_provider_tencent.Go.Exec.{ok, pure, panics, ◌>>=◌}
use cloud_provider_tencent.Sdk.{ListenerBackend, reply}
use cloud_provider_tencent.Sdk.Env.{call}
use cloud_provider_tencent.Sdk.Laws.{StoreLaws}
use cloud_provider_tencent.Cache
use cloud_provider_tencent.Common.{is_exist}
use cloud_provider_tencent.Batch.{batch_loop, is_full}
use cloud_provider_tencent.Coherence.{IsCoherent}
use cloud_provider_tencent.Coherence.Methods.{DeletionsSettle}
use cloud_provider_tencent.LoadBalancer.Task.{
  get_tencent_cloud_api_task_status, on_status, wait_rounds, wait_api_task_done,
}
use cloud_provider_tencent.Instances.Lookup.{
  get_instance_by_instance_private_ips, scan_cache, request_instances, collect_instances,
  collect_addresses, as_instance,
}
use cloud_provider_tencent.Instances.Answered.{AnswersInstances}
use cloud_provider_tencent.LoadBalancer.Annotations.{get_node_label_key, get_node_label_value}
use cloud_provider_tencent.LoadBalancer.Lookup.{full_name}
use cloud_provider_tencent.LoadBalancer.Instance.Matching.{name_of}
use cloud_provider_tencent.LoadBalancer.Instance.Stale.{Cached, get_load_balancer-Cached}
use cloud_provider_tencent.LoadBalancer.Backends.{is_labelled, node_lan_ips}
use cloud_provider_tencent.LoadBalancer.Backends.Found.{looked_up}
use cloud_provider_tencent.LoadBalancer.Service.{update_load_balancer}
use cloud_provider_tencent.LoadBalancer.Service.Updated.{update_load_balancer-ok}
use cloud_provider_tencent.Tests.Fake.{fake-StoreLaws}
use cloud_provider_tencent.Tests.Data.{
  settings, web, nodes, balancer, backends, start, start-IsCoherent,
}
use cloud_provider_tencent.Tests.Loops.{prompt, prompt-Accepts, found_http, found_dns}
use cloud_provider_tencent.Tests.Listeners.{uid_long}

pub prompt-DeletionsSettle : DeletionsSettle prompt
unfolding wait_api_task_done wait_rounds get_tencent_cloud_api_task_status on_status call pure
    int_beq ◌>>=◌
prompt-DeletionsSettle ids w task accepted e h = cc

abbrev pub prompt-StoreLaws : StoreLaws prompt
prompt-StoreLaws = record {
  peek = fake-StoreLaws.peek;
  get_by_key_peek = fake-StoreLaws.get_by_key_peek;
  add_peek = fake-StoreLaws.add_peek;
  get_by_key_drops = fake-StoreLaws.get_by_key_drops;
  delete_drops = fake-StoreLaws.delete_drops;
  sleep_drops = fake-StoreLaws.sleep_drops;
  describe_instances_drops = fake-StoreLaws.describe_instances_drops;
  describe_load_balancers_drops = fake-StoreLaws.describe_load_balancers_drops;
  create_load_balancer_drops = fake-StoreLaws.create_load_balancer_drops;
  delete_load_balancer_drops = fake-StoreLaws.delete_load_balancer_drops;
  describe_listeners_drops = fake-StoreLaws.describe_listeners_drops;
  create_listener_drops = fake-StoreLaws.create_listener_drops;
  delete_listener_drops = fake-StoreLaws.delete_listener_drops;
  describe_targets_drops = fake-StoreLaws.describe_targets_drops;
  register_targets_drops = fake-StoreLaws.register_targets_drops;
  deregister_targets_drops = fake-StoreLaws.deregister_targets_drops;
  describe_task_status_drops = λ task w key v h. h;
  describe_cluster_routes_drops = fake-StoreLaws.describe_cluster_routes_drops;
  create_cluster_route_drops = fake-StoreLaws.create_cluster_route_drops;
  delete_cluster_route_drops = fake-StoreLaws.delete_cluster_route_drops;
}

pub prompt-IsCoherent : IsCoherent prompt prompt-StoreLaws settings start
prompt-IsCoherent = record { at_key = start-IsCoherent.at_key }

pub prompt-AnswersInstances : AnswersInstances prompt
prompt-AnswersInstances = λ filters w. (w.instances, refl)

pub Cached-start : Cached prompt (name_of prompt settings web) balancer start
unfolding string_beq bytes full_name
Cached-start = refl

pub some_node : node_lan_ips web nodes ≢ []
unfolding node_lan_ips is_labelled keep get string_beq bytes get_node_label_key get_node_label_value
some_node e = ground arith

looked_start : (looked_up prompt settings (node_lan_ips web nodes) start).backends ≡ backends
unfolding get_instance_by_instance_private_ips scan_cache node_lan_ips is_labelled keep get
    string_beq bytes get_node_label_key get_node_label_value Cache.get Cache.set batch_loop
    sort_strings less request_instances call collect_instances collect_addresses is_full is_exist
    panics pure at_least search_from search_strings as_instance full_name ◌>>=◌
looked_start = refl

update_load_balancer-ok_example : (update_load_balancer prompt settings web nodes start).0 ≡ ok tt
update_load_balancer-ok_example =
    update_load_balancer-ok prompt settings prompt-StoreLaws web nodes balancer backends start start
      prompt-Accepts prompt-AnswersInstances prompt-IsCoherent uid_long
      (get_load_balancer-Cached prompt settings (name_of prompt settings web) balancer web start
        Cached-start)
      some_node (ap (λ (ls : List ListenerBackend). reply ls) looked_start)
      ((bytes "l1", found_http), ((bytes "l3", found_dns), tt))
