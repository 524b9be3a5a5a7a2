-- ===== src/Instances/Answered.antt =====
-- pkg/tencentcloud/instances.go: getInstanceByInstancePrivateIps over a service that answers.
use cloud_provider_tencent.Base.{◌≡◌, none, some, List, [], ◌∷◌, ◌++◌, String, not, string_eq, ◌==◌}
use cloud_provider_tencent.Go.Sort.{sort_strings}
use cloud_provider_tencent.Go.Exec.{ok}
use cloud_provider_tencent.Go.Exec.Sure.{
  Sure, Sure-pure, Sure-panics, Sure-if, Sure-bind, Sure-batch_loop, Ensures-Sure,
}
use cloud_provider_tencent.Sdk.{
  Instance, Filter, CacheValue, instance_value, load_balancer_value, listeners_value, reply,
}
use cloud_provider_tencent.Sdk.Env.{Env}
use cloud_provider_tencent.Sdk.Laws.{StoreLaws}
use cloud_provider_tencent.Cache.Sure.{call-Sure, get-Sure, set-Sure}
use cloud_provider_tencent.Cloud.{TxCloudConfig}
use cloud_provider_tencent.Common.{is_exist}
use cloud_provider_tencent.Instances.Lookup.{
  cache_name_pre_vm_ip, as_instance, scan_cache, collect_addresses, collect_instances,
  request_instances, get_instance_by_instance_private_ips,
}
use cloud_provider_tencent.Coherence.{IsCoherent}
use cloud_provider_tencent.Coherence.Instances.{get_instance_by_instance_private_ips-Ensures}

-- The service answers every DescribeInstances.
abbrev pub AnswersInstances : Env → Type 0
AnswersInstances E =
    (filters : List Filter) (w : E.World)
    → (set : List Instance) × ((E.describe_instances filters w).0 ≡ reply set)

module _ (E : Env) (tx_config : TxCloudConfig) where
  as_instance-Sure : (v : CacheValue) → Sure {W = E.World} (as_instance v)
  unfolding as_instance
  as_instance-Sure (instance_value i) = Sure-pure i
  as_instance-Sure (load_balancer_value _) = Sure-panics
  as_instance-Sure (listeners_value _) = Sure-panics

  scan_cache-Sure :
      (private_ips ips : List String) (instances : List Instance)
      → Sure (scan_cache E tx_config private_ips ips instances)
  unfolding scan_cache
  scan_cache-Sure [] ips instances = Sure-pure _
  scan_cache-Sure (ip ∷ private_ips) ips instances =
      Sure-bind _ _ (get-Sure E (cache_name_pre_vm_ip ++ ip)) (elim [
        | none ↦ scan_cache-Sure private_ips (ips ++ (ip ∷ [])) instances
        | some v ↦
            Sure-bind (as_instance v) _ (as_instance-Sure v)
              (λ i. scan_cache-Sure private_ips ips (instances ++ (i ∷ [])))
      ])

  collect_addresses-Sure :
      (ips : List String) (i : Instance) (addresses : List String) (instances : List Instance)
      → Sure (collect_addresses E tx_config ips i addresses instances)
  unfolding collect_addresses
  collect_addresses-Sure ips i [] instances = Sure-pure instances
  collect_addresses-Sure ips i (ip ∷ addresses) instances =
      Sure-if (is_exist ip ips) _ _
        (Sure-bind _ _ (set-Sure E (cache_name_pre_vm_ip ++ ip) (instance_value i))
          (λ _. collect_addresses-Sure ips i addresses (instances ++ (i ∷ []))))
        (collect_addresses-Sure ips i addresses instances)

  collect_instances-Sure :
      (ips : List String) (set instances : List Instance)
      → Sure (collect_instances E tx_config ips set instances)
  unfolding collect_instances
  collect_instances-Sure ips [] instances = Sure-pure instances
  collect_instances-Sure ips (i ∷ set) instances =
      Sure-if (not (i.vpc_id == tx_config.vpc_id)) _ _ (collect_instances-Sure ips set instances) (
        Sure-bind _ _ (collect_addresses-Sure ips i i.private_ip_addresses instances)
          (λ more. collect_instances-Sure ips set more))

  request_instances-Sure :
      (ips batch : List String) (instances : List Instance)
      → AnswersInstances E
      → Sure (request_instances E tx_config ips batch instances)
  unfolding request_instances
  request_instances-Sure ips batch instances T =
      Sure-bind _ _ (call-Sure _ (T _)) (λ set. collect_instances-Sure ips set instances)

  get_instance_by_instance_private_ips-Sure :
      (private_ips : List String)
      → AnswersInstances E
      → Sure (get_instance_by_instance_private_ips E tx_config private_ips)
  unfolding get_instance_by_instance_private_ips
  get_instance_by_instance_private_ips-Sure private_ips T =
      Sure-bind _ _ (scan_cache-Sure private_ips [] []) (λ (missing, instances).
        Sure-batch_loop 5 _ _
          (λ batch more. request_instances-Sure (sort_strings missing) batch more T) 0 [] _
          instances)

  -- From a coherent cache it returns instances.
  pub get_instance_by_instance_private_ips-ok :
      (S : StoreLaws E) (private_ips : List String) (w : E.World)
      → AnswersInstances E
      → IsCoherent E S tx_config w
      → (instances : List Instance) × ((get_instance_by_instance_private_ips E tx_config private_ips
            w).0
          ≡ ok instances)
  get_instance_by_instance_private_ips-ok S private_ips w T =
      Ensures-Sure _ (get_instance_by_instance_private_ips-Ensures E S tx_config private_ips)
        (get_instance_by_instance_private_ips-Sure private_ips T) w
