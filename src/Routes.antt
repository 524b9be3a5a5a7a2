-- ===== src/Routes.antt =====
-- pkg/tencentcloud/routes.go
pub mod Table
use cloud_provider_tencent.Base.{List, map, String}
use cloud_provider_tencent.Go.Exec.{Exec, pure, ◌>>=◌}
use cloud_provider_tencent.Sdk.{RouteInfo, ClusterRouteRequest}
use cloud_provider_tencent.Sdk.Env.{Env, call}
use cloud_provider_tencent.Cloud.{TxCloudConfig}

-- cloudProvider.Route
pub record Route : Type 0 where
  pub name : String
  pub target_node : String
  pub destination_cidr : String

unfoldable pub route_of : RouteInfo → Route
route_of route = record {
  name = route.gateway_ip;
  target_node = route.gateway_ip;
  destination_cidr = route.destination_cidr_block;
}

-- The request that CreateRoute and DeleteRoute fill.
unfoldable pub route_request : TxCloudConfig → Route → ClusterRouteRequest
route_request tx_config route = record {
  route_table_name = tx_config.cluster_route_table;
  gateway_ip = route.target_node;
  destination_cidr_block = route.destination_cidr;
}

module _ (E : Env) (tx_config : TxCloudConfig) where
  -- ListRoutes
  unfoldable pub list_routes : String → Exec E.World (List Route)
  unfolding ◌>>=◌ route_of
  list_routes cluster_name = do
    cloud_routes ← call (E.describe_cluster_routes tx_config.cluster_route_table)
    pure (map route_of cloud_routes)

  -- CreateRoute
  unfoldable pub create_route : String → String → Route → Exec E.World (Unit {0})
  unfolding route_request call
  create_route cluster_name name_hint route =
      call (E.create_cluster_route (route_request tx_config route))

  -- DeleteRoute
  unfoldable pub delete_route : String → Route → Exec E.World (Unit {0})
  unfolding route_request call
  delete_route cluster_name route = call (E.delete_cluster_route (route_request tx_config route))
