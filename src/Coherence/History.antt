-- ===== src/Coherence/History.antt =====
-- Histories: what the controllers of Kubernetes ask of the provider, one method after another, and
-- the entries of the cache that expire in between.
use cloud_provider_tencent.Base.{◌≤◌, ◌≡◌, none, some, List, [], String, length, sym, ◌∙◌}
use cloud_provider_tencent.Go.Exec.{Exec, pure, ◌>>=◌}
use cloud_provider_tencent.Go.Exec.Ensures.{Ensures-pure}
use cloud_provider_tencent.Sdk.{Service, Node, CacheValue}
use cloud_provider_tencent.Sdk.Env.{Env}
use cloud_provider_tencent.Sdk.Laws.{StoreLaws, Drops}
use cloud_provider_tencent.Cloud.{TxCloudConfig}
use cloud_provider_tencent.Instances.Api.{
  node_addresses, node_addresses_by_provider_id, external_id, instance_id, instance_type,
  instance_type_by_provider_id, instance_exists_by_provider_id, instance_shutdown_by_provider_id,
}
use cloud_provider_tencent.LoadBalancer.Service.{
  get_load_balancer_status, ensure_load_balancer, update_load_balancer,
  ensure_load_balancer_deleted,
}
use cloud_provider_tencent.Routes.{Route, list_routes, create_route, delete_route}
use cloud_provider_tencent.Coherence.{IsCoherent, IsCoherent-Drops, Ensures-call}
use cloud_provider_tencent.Coherence.Balancers.{IsSafe}
use cloud_provider_tencent.Coherence.Methods.{DeletionsSettle, IsSafe-bind}
use cloud_provider_tencent.Coherence.Results.{Safe}
use cloud_provider_tencent.Coherence.Provider.{
  load_balancer_methods-IsSafe, instances_methods-IsSafe,
}

-- A call of a method, with its arguments.
pub data Call : Type 0 where
  get_load_balancer ensure_deleted : Service → Call
  ensure update : Service → List Node → Call
  addresses external id type : String → Call
  addresses_by_id type_by_id exists_by_id shutdown_by_id : String → Call
  routes : String → Call
  add_route : String → String → Route → Call
  remove_route : String → Route → Call

-- The uid of a service is a UUID; of its 36 bytes a long name takes eight.
abbrev pub IsServable : Call → Type 0
IsServable (get_load_balancer service) = 8 ≤ length service.uid
IsServable (ensure_deleted service) = 8 ≤ length service.uid
IsServable (ensure service nodes) = 8 ≤ length service.uid
IsServable (update service nodes) = 8 ≤ length service.uid
IsServable _ = Unit {0}

module _ {W A : Type 0} where
  -- The caller's use of an answer is not followed.
  abbrev drop_answer : Exec W A → Exec W (Unit {0})
  drop_answer m = m >>= λ _. pure tt

module _ (E : Env) (tx_config : TxCloudConfig) where
  unfoldable pub serve : Call → Exec E.World (Unit {0})
  serve (get_load_balancer service) = drop_answer (get_load_balancer_status E tx_config service)
  serve (ensure_deleted service) = ensure_load_balancer_deleted E tx_config service
  serve (ensure service nodes) = drop_answer (ensure_load_balancer E tx_config service nodes)
  serve (update service nodes) = update_load_balancer E tx_config service nodes
  serve (addresses name) = drop_answer (node_addresses E tx_config name)
  serve (external name) = drop_answer (external_id E tx_config name)
  serve (id name) = drop_answer (instance_id E tx_config name)
  serve (type name) = drop_answer (instance_type E tx_config name)
  serve (addresses_by_id p) = drop_answer (node_addresses_by_provider_id E tx_config p)
  serve (type_by_id p) = drop_answer (instance_type_by_provider_id E tx_config p)
  serve (exists_by_id p) = drop_answer (instance_exists_by_provider_id E tx_config p)
  serve (shutdown_by_id p) = drop_answer (instance_shutdown_by_provider_id E tx_config p)
  serve (routes cluster) = drop_answer (list_routes E tx_config cluster)
  serve (add_route cluster hint route) = create_route E tx_config cluster hint route
  serve (remove_route cluster route) = delete_route E tx_config cluster route

module _ (E : Env) (L : StoreLaws E) (tx_config : TxCloudConfig) where
  -- One step: a call is served to its end, or time passes and entries expire.
  pub data Step (w : E.World) : E.World → Type 0 where
    serves : (c : Call) → IsServable c → Step w (serve E tx_config c w).1
    expires : {v : E.World} → Drops L.peek w v → Step w v

  pub data Reach (w : E.World) : E.World → Type 0 where
    here : Reach w w
    next : {u v : E.World} → Reach w u → Step u v → Reach w v

  -- The cache that Initialize makes.
  abbrev pub IsFresh : E.World → Type 0
  IsFresh w = (key : String) → L.peek w key ≡ none

  drop_answer-IsSafe :
      {A : Type 0} (m : Exec E.World A)
      → IsSafe E L tx_config m
      → IsSafe E L tx_config (drop_answer m)
  drop_answer-IsSafe m h = IsSafe-bind E L tx_config m _ h (λ _. Ensures-pure tt tt)

  serve-IsSafe :
      DeletionsSettle E → (c : Call) → IsServable c → IsSafe E L tx_config (serve E tx_config c)
  unfolding serve list_routes create_route delete_route
  serve-IsSafe D (get_load_balancer s) h =
      drop_answer-IsSafe _ ((load_balancer_methods-IsSafe E L tx_config D s [] h).0)
  serve-IsSafe D (ensure s nodes) h =
      drop_answer-IsSafe _ ((load_balancer_methods-IsSafe E L tx_config D s nodes h).1)
  serve-IsSafe D (update s nodes) h = (load_balancer_methods-IsSafe E L tx_config D s nodes h).2
  serve-IsSafe D (ensure_deleted s) h = (load_balancer_methods-IsSafe E L tx_config D s [] h).3
  serve-IsSafe D (addresses n) h =
      drop_answer-IsSafe _ ((instances_methods-IsSafe E L tx_config n n).0)
  serve-IsSafe D (external n) h =
      drop_answer-IsSafe _ ((instances_methods-IsSafe E L tx_config n n).1)
  serve-IsSafe D (id n) h = drop_answer-IsSafe _ ((instances_methods-IsSafe E L tx_config n n).2)
  serve-IsSafe D (type n) h = drop_answer-IsSafe _ ((instances_methods-IsSafe E L tx_config n n).3)
  serve-IsSafe D (addresses_by_id p) h =
      drop_answer-IsSafe _ ((instances_methods-IsSafe E L tx_config p p).4)
  serve-IsSafe D (type_by_id p) h =
      drop_answer-IsSafe _ ((instances_methods-IsSafe E L tx_config p p).5)
  serve-IsSafe D (exists_by_id p) h =
      drop_answer-IsSafe _ ((instances_methods-IsSafe E L tx_config p p).6)
  serve-IsSafe D (shutdown_by_id p) h =
      drop_answer-IsSafe _ ((instances_methods-IsSafe E L tx_config p p).7)
  serve-IsSafe D (routes cluster) h = drop_answer-IsSafe _ (
      IsSafe-bind E L tx_config _ _
        (Ensures-call E L tx_config E.describe_cluster_routes _ L.describe_cluster_routes_drops)
        (λ rs. Ensures-pure _ tt))
  serve-IsSafe D (add_route cluster hint route) h =
      Ensures-call E L tx_config E.create_cluster_route _ L.create_cluster_route_drops
  serve-IsSafe D (remove_route cluster route) h =
      Ensures-call E L tx_config E.delete_cluster_route _ L.delete_cluster_route_drops

  Step-IsCoherent :
      {u v : E.World}
      → DeletionsSettle E
      → Step u v
      → IsCoherent E L tx_config u
      → IsCoherent E L tx_config v
  Step-IsCoherent {u} D (serves c ok) h = ((serve-IsSafe D c ok).at u h).0
  Step-IsCoherent {u} D (expires {v} d) h = IsCoherent-Drops E L tx_config u v d h

  Reach-IsCoherent :
      {w v : E.World} → DeletionsSettle E → IsFresh w → Reach w v → IsCoherent E L tx_config v
  Reach-IsCoherent D f here = record { at_key = λ key v e. absurd (none-ne (sym (f key) ∙ e)) }
    where
      none-ne : {v : CacheValue} → none ≡ some v → ⊥
      none-ne e = cc
  Reach-IsCoherent D f (next r s) = Step-IsCoherent D s (Reach-IsCoherent D f r)

-- For a store that loses entries but invents none, where the wait for an accepted deletion of a
-- balancer never ends with an error: after any history that starts with an empty cache, of methods
-- that are served one after another and of entries that expire in between, the cache is coherent,
-- and no further method panics. The services that the history is about have uids of at least eight
-- bytes.
pub history-IsCoherent :
    (E : Env) (L : StoreLaws E) (tx_config : TxCloudConfig) (w v : E.World) (c : Call)
    → DeletionsSettle E
    → IsFresh E L tx_config w
    → Reach E L tx_config w v
    → IsServable c
    → IsCoherent E L tx_config v × Safe E L tx_config (serve E tx_config c v)
history-IsCoherent E L tx_config w v c D f r ok =
    let h = Reach-IsCoherent E L tx_config D f r in (h, (serve-IsSafe E L tx_config D c ok).at v h)
