-- ===== src/Tests/Tables.antt =====
-- The theorems on routes, at the service in memory, where a deletion empties the table.
use cloud_provider_tencent.Base.{◌≡◌, refl, List, Any, inl, pos}
use cloud_provider_tencent.Go.Strings.{bytes}
use cloud_provider_tencent.Go.Exec.{ok}
use cloud_provider_tencent.Sdk.Env.{call}
use cloud_provider_tencent.Routes.{Route, list_routes, create_route, delete_route}
use cloud_provider_tencent.Routes.Table.{
  RouteLaws, IsSame, list_routes-create_route, list_routes-delete_route,
}
use cloud_provider_tencent.Tests.Fake.{fake}
use cloud_provider_tencent.Tests.Data.{settings, world}

fake-RouteLaws : RouteLaws fake
fake-RouteLaws = record {
  routes_of = λ w table. w.routes;
  describes = λ table w. refl;
  creates = λ r w e. inl (refl, refl);
  deletes = λ r w e a. elim a [ ];
}

abbrev route : Route
route = record {
  name = bytes "r";
  target_node = bytes "ip1";
  destination_cidr = bytes "10.1.0.0/24";
}

create_succeeds :
    (create_route fake settings (bytes "k") (bytes "h") route (world (pos 0))).0 ≡ ok tt
unfolding create_route call
create_succeeds = refl

delete_succeeds : (delete_route fake settings (bytes "k") route (world (pos 0))).0 ≡ ok tt
unfolding delete_route call
delete_succeeds = refl

list_routes-create_route_example :
    (routes : List Route) × ((list_routes fake settings
        (bytes "k")
        (create_route fake settings (bytes "k") (bytes "h") route (world (pos 0))).1).0
      ≡ ok routes)
    × Any (IsSame route) routes
list_routes-create_route_example =
    list_routes-create_route fake fake-RouteLaws settings (bytes "k") (bytes "h") route
      (world (pos 0)) create_succeeds

list_routes-delete_route_example :
    (routes : List Route) × ((list_routes fake settings
        (bytes "k")
        (delete_route fake settings (bytes "k") route (world (pos 0))).1).0
      ≡ ok routes)
    × ¬ Any (IsSame route) routes
list_routes-delete_route_example =
    list_routes-delete_route fake fake-RouteLaws settings (bytes "k") route (world (pos 0))
      delete_succeeds
