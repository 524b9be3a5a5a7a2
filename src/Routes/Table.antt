-- ===== src/Routes/Table.antt =====
-- pkg/tencentcloud/routes.go over a service that keeps a table of routes.
use cloud_provider_tencent.Base.{◌≡◌, refl, List, [], ◌∷◌, map, String, Any, Any-map, inl, inr}
use cloud_provider_tencent.Go.Exec.{ok, pure, ◌>>=◌}
use cloud_provider_tencent.Sdk.{RouteInfo, ClusterRouteRequest, Answer, reply, fail}
use cloud_provider_tencent.Sdk.Env.{Env, call, outcome}
use cloud_provider_tencent.Cloud.{TxCloudConfig}
use cloud_provider_tencent.Routes.{
  Route, route_of, route_request, list_routes, create_route, delete_route,
}

-- The route that a request is about.
abbrev pub Names : ClusterRouteRequest → RouteInfo → Type 0
Names r i = (i.gateway_ip ≡ r.gateway_ip) × (i.destination_cidr_block ≡ r.destination_cidr_block)

-- A service that answers with its table, adds what is created and drops what is deleted.
pub record RouteLaws (E : Env) : Type 0 where
  pub routes_of : E.World → String → List RouteInfo
  pub describes :
      (table : String) (w : E.World)
      → (E.describe_cluster_routes table w).0 ≡ reply (routes_of w table)
  pub creates :
      (r : ClusterRouteRequest) (w : E.World)
      → (E.create_cluster_route r w).0 ≡ reply tt
      → Any (Names r) (routes_of (E.create_cluster_route r w).1 r.route_table_name)
  pub deletes :
      (r : ClusterRouteRequest) (w : E.World)
      → (E.delete_cluster_route r w).0 ≡ reply tt
      → ¬ Any (Names r) (routes_of (E.delete_cluster_route r w).1 r.route_table_name)

-- A route with the same node and destination.
abbrev pub IsSame : Route → Route → Type 0
IsSame r s = (s.target_node ≡ r.target_node) × (s.destination_cidr ≡ r.destination_cidr)

reply_of : (a : Answer (Unit {0})) → outcome a ≡ ok tt → a ≡ reply tt
reply_of (reply x) e = refl
reply_of (fail x) e = absurd (cc)

Any-of_map :
    {A B : Type 0} (P : B → Type 0) (f : A → B) (xs : List A)
    → Any P (map f xs)
    → Any (λ x. P (f x)) xs
Any-of_map P f [] h = h
Any-of_map P f (x ∷ xs) (inl p) = inl p
Any-of_map P f (x ∷ xs) (inr q) = inr (Any-of_map P f xs q)

module _ (E : Env) (L : RouteLaws E) (tx_config : TxCloudConfig) (cluster_name : String) where
  -- What ListRoutes returns.
  abbrev pub listed : E.World → List Route
  listed w = map route_of (L.routes_of w tx_config.cluster_route_table)

  list_routes-listed : (w : E.World) → (list_routes E tx_config cluster_name w).0 ≡ ok (listed w)
  unfolding list_routes ◌>>=◌ call pure
  list_routes-listed w = rw (L.describes tx_config.cluster_route_table w) refl

  created :
      (name_hint : String) (route : Route) (w : E.World)
      → (create_route E tx_config cluster_name name_hint route w).0 ≡ ok tt
      → Any (IsSame route) (listed (create_route E tx_config cluster_name name_hint route w).1)
  unfolding create_route route_request call route_of
  created name_hint route w e =
      Any-map (IsSame route) route_of _ (L.creates (route_request tx_config route) w (reply_of _ e))

  deleted :
      (route : Route) (w : E.World)
      → (delete_route E tx_config cluster_name route w).0 ≡ ok tt
      → ¬ Any (IsSame route) (listed (delete_route E tx_config cluster_name route w).1)
  unfolding delete_route route_request call route_of
  deleted route w e h =
      L.deletes (route_request tx_config route) w (reply_of _ e)
        (Any-of_map (IsSame route) route_of _ h)

-- Over a service that answers with its table of routes, adds what is created and drops what is
-- deleted: where CreateRoute succeeds, ListRoutes then returns a route with the node and the
-- destination.
pub list_routes-create_route :
    (E : Env) (L : RouteLaws E) (tx_config : TxCloudConfig) (cluster_name name_hint : String)
    (route : Route) (w : E.World)
    → (create_route E tx_config cluster_name name_hint route w).0 ≡ ok tt
    → (routes : List Route) × ((list_routes E tx_config cluster_name
          (create_route E tx_config cluster_name name_hint route w).1).0
        ≡ ok routes)
      × Any (IsSame route) routes
list_routes-create_route E L tx_config cluster_name name_hint route w e = (
  _,
  list_routes-listed E L tx_config cluster_name _,
  created E L tx_config cluster_name name_hint route w e,
)

-- Over the same service: where DeleteRoute succeeds, ListRoutes then returns no route with the node
-- and the destination.
pub list_routes-delete_route :
    (E : Env) (L : RouteLaws E) (tx_config : TxCloudConfig) (cluster_name : String) (route : Route)
    (w : E.World)
    → (delete_route E tx_config cluster_name route w).0 ≡ ok tt
    → (routes : List Route) × ((list_routes E tx_config cluster_name
          (delete_route E tx_config cluster_name route w).1).0
        ≡ ok routes)
      × ¬ Any (IsSame route) routes
list_routes-delete_route E L tx_config cluster_name route w e = (
  _,
  list_routes-listed E L tx_config cluster_name _,
  deleted E L tx_config cluster_name route w e,
)
