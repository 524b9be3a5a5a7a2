-- ===== src/Coherence/Results.antt =====
-- The triples of this folder, written out: what every method of the provider does to a coherent
-- cache, and what the lookups of instances return.
use cloud_provider_tencent.Base.{◌≤◌, List, String, length, All}
use cloud_provider_tencent.Go.Exec.{Outcome}
use cloud_provider_tencent.Go.Exec.Ensures.{Post}
use cloud_provider_tencent.Sdk.{Service, Node}
use cloud_provider_tencent.Sdk.Env.{Env}
use cloud_provider_tencent.Sdk.Laws.{StoreLaws}
use cloud_provider_tencent.Cloud.{TxCloudConfig}
use cloud_provider_tencent.Instances.Lookup.{
  get_instance_by_instance_private_ips, get_instance_by_instance_private_ip,
  get_instance_by_instance_id,
}
use cloud_provider_tencent.Instances.Api.{
  node_addresses, node_addresses_by_provider_id, external_id, instance_id, instance_type,
  instance_type_by_provider_id, instance_exists_by_provider_id, instance_shutdown_by_provider_id,
}
use cloud_provider_tencent.LoadBalancer.Service.{
  get_load_balancer_status, ensure_load_balancer, update_load_balancer,
  ensure_load_balancer_deleted,
}
use cloud_provider_tencent.Coherence.{HasIp, HasId, IsCoherent}
use cloud_provider_tencent.Coherence.Instances.{
  Serves, get_instance_by_instance_private_ips-Ensures,
}
use cloud_provider_tencent.Coherence.Single.{
  get_instance_by_instance_private_ip-Ensures, get_instance_by_instance_id-Ensures,
}
use cloud_provider_tencent.Coherence.Methods.{DeletionsSettle}
use cloud_provider_tencent.Coherence.Provider.{
  load_balancer_methods-IsSafe, instances_methods-IsSafe,
}

module _ (E : Env) (L : StoreLaws E) (tx_config : TxCloudConfig) where
  -- A run ended with a coherent cache, did not panic, and returned, if it returned, a value that
  -- meets the postcondition.
  abbrev pub Sound : {A : Type 0} → (A → Type 0) → Outcome A × E.World → Type 0
  Sound Q r = IsCoherent E L tx_config r.1 × Post Q r.0

  -- A run ended with a coherent cache and did not panic.
  abbrev pub Safe : {A : Type 0} → Outcome A × E.World → Type 0
  Safe r = Sound (λ _. Unit {0}) r

-- For a store that loses entries but invents none, and from a coherent cache:
-- getInstanceByInstancePrivateIps does not panic, keeps the cache coherent and returns, if it
-- returns, only instances of the VPC that have a requested address.
pub get_instance_by_instance_private_ips-Sound :
    (E : Env) (L : StoreLaws E) (tx_config : TxCloudConfig) (private_ips : List String)
    (w : E.World)
    → IsCoherent E L tx_config w
    → Sound E L tx_config
        (All (Serves tx_config private_ips))
        (get_instance_by_instance_private_ips E tx_config private_ips w)
get_instance_by_instance_private_ips-Sound E L tx_config private_ips =
    (get_instance_by_instance_private_ips-Ensures E L tx_config private_ips).at

-- For a store that loses entries but invents none, and from a coherent cache:
-- getInstanceByInstancePrivateIp does not panic, keeps the cache coherent and returns, if it
-- returns, an instance of the VPC that has the address.
pub get_instance_by_instance_private_ip-Sound :
    (E : Env) (L : StoreLaws E) (tx_config : TxCloudConfig) (private_ip : String) (w : E.World)
    → IsCoherent E L tx_config w
    → Sound E L tx_config
        (HasIp tx_config private_ip)
        (get_instance_by_instance_private_ip E tx_config private_ip w)
get_instance_by_instance_private_ip-Sound E L tx_config private_ip =
    (get_instance_by_instance_private_ip-Ensures E L tx_config private_ip).at

-- For a store that loses entries but invents none, and from a coherent cache:
-- getInstanceByInstanceID does not panic, keeps the cache coherent and returns, if it returns, the
-- instance of the VPC with the id.
pub get_instance_by_instance_id-Sound :
    (E : Env) (L : StoreLaws E) (tx_config : TxCloudConfig) (id : String) (w : E.World)
    → IsCoherent E L tx_config w
    → Sound E L tx_config (HasId tx_config id) (get_instance_by_instance_id E tx_config id w)
get_instance_by_instance_id-Sound E L tx_config id =
    (get_instance_by_instance_id-Ensures E L tx_config id).at

-- For a store that loses entries but invents none, where the wait for an accepted deletion of a
-- balancer never ends with an error, from a coherent cache, and for a service whose uid has at
-- least eight bytes: none of GetLoadBalancer, EnsureLoadBalancer, UpdateLoadBalancer and
-- EnsureLoadBalancerDeleted panics, and each leaves the cache coherent, whether it fails or not.
pub load_balancer_methods-Safe :
    (E : Env) (L : StoreLaws E) (tx_config : TxCloudConfig) (service : Service) (nodes : List Node)
    (w : E.World)
    → DeletionsSettle E
    → 8 ≤ length service.uid
    → IsCoherent E L tx_config w
    → Safe E L tx_config (get_load_balancer_status E tx_config service w)
      × Safe E L tx_config (ensure_load_balancer E tx_config service nodes w)
      × Safe E L tx_config (update_load_balancer E tx_config service nodes w)
      × Safe E L tx_config (ensure_load_balancer_deleted E tx_config service w)
load_balancer_methods-Safe E L tx_config service nodes w D uid h =
    let (a, b, c, d) = load_balancer_methods-IsSafe E L tx_config D service nodes uid in
    (a.at w h, b.at w h, c.at w h, d.at w h)

-- For a store that loses entries but invents none, and from a coherent cache: none of NodeAddresses,
-- ExternalID, InstanceID and InstanceType and of the four methods by provider id panics, and each
-- leaves the cache coherent, whether it fails or not.
pub instances_methods-Safe :
    (E : Env) (L : StoreLaws E) (tx_config : TxCloudConfig) (name provider_id : String)
    (w : E.World)
    → IsCoherent E L tx_config w
    → Safe E L tx_config (node_addresses E tx_config name w)
      × Safe E L tx_config (external_id E tx_config name w)
      × Safe E L tx_config (instance_id E tx_config name w)
      × Safe E L tx_config (instance_type E tx_config name w)
      × Safe E L tx_config (node_addresses_by_provider_id E tx_config provider_id w)
      × Safe E L tx_config (instance_type_by_provider_id E tx_config provider_id w)
      × Safe E L tx_config (instance_exists_by_provider_id E tx_config provider_id w)
      × Safe E L tx_config (instance_shutdown_by_provider_id E tx_config provider_id w)
instances_methods-Safe E L tx_config name provider_id w h =
    let (a, b, c, d, e, f, g, k) = instances_methods-IsSafe E L tx_config name provider_id in
    (a.at w h, b.at w h, c.at w h, d.at w h, e.at w h, f.at w h, g.at w h, k.at w h)
