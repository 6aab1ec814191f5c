-- ===== src/Routing/Examples.antt =====
-- The theorems on routes at two routes of the platform.
use mathlib.Core.List.{Memᴰ}
use styio_platform.Base.Dict.{put}
use styio_platform.Base.Text.{split_items}
use styio_platform.Base.{◌≡◌, ◌↔◌, refl, false, some, [], ◌∷◌}
use styio_platform.Routing.{
  RouteSpec, RouteMatch, get_method, post_method, match_route, split_route,
}
use styio_platform.Routing.Catalog.{route_spec, all_routes, platform_control_plane_routes}
use styio_platform.Routing.Match.{Answers}
use styio_platform.Routing.Match.Tables.{match_route-all_routes}
use styio_platform.Routing.Match.Bindings.{Bound, match_route-Bound}

abbrev node_self : RouteSpec
node_self = route_spec "nodeSelf" get_method "/nodes/self" false

abbrev cancel : RouteMatch
cancel = record {
  route = route_spec "cancelJob" post_method "/jobs/{job_id}/cancel" false;
  parameters = ("job_id", "job-7") ∷ [];
}

match_route-all_routes_example :
    ((m : RouteMatch) × (match_route all_routes get_method "/nodes/self" ≡ some m)
      × (m.route ≡ node_self))
    ↔ Answers get_method (split_route "/nodes/self") node_self
unfolding all_routes platform_control_plane_routes
match_route-all_routes_example =
    match_route-all_routes get_method "/nodes/self" node_self (Memᴰ.tail (Memᴰ.head refl))

match_route-Bound_example :
    Bound (split_route cancel.route.path) (split_route "/jobs/job-7/cancel") cancel.parameters
unfolding match_route all_routes platform_control_plane_routes split_items put
match_route-Bound_example = match_route-Bound post_method "/jobs/job-7/cancel" cancel refl
