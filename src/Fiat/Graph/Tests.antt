-- ===== src/Fiat/Graph/Tests.antt =====
-- A route of two edges, and an example of what is proved of routes.
use blueballs.Prelude.{String, Bool, true, ◌≡◌, refl, none, some, [], ◌∷◌, ok}
use blueballs.Prelude.Int.{pos}
use blueballs.Prelude.Dict.{Dict, lookup, insert}
use blueballs.Fiat.Graph.{
  RawEdge, Edge, normalize_settlement_edge, positive, not_negative, check_group, edge_of, Route,
  route_guarantee, route_of, check_path, upsert_edge, usable_edge, usable_edges, checked_edge,
  analyze_route,
}
use blueballs.Fiat.Graph.Building.{Built, no_edges, upsert}
use blueballs.Fiat.Graph.Routes.{IsRoute, analyze_route-IsRoute}

abbrev accept : Edge → Bool
accept e = true

abbrev raw : (id from to : String) → RawEdge
raw id from to = record {
  edge_id = id;
  edge_type = "TOKEN_SWAP";
  finality_class = "ATOMIC";
  from_asset = from;
  to_asset = to;
  provider_id = "p";
  policy_authorization_id = "auth";
  capacity = pos 100;
  unit_input = pos 1;
  unit_output = pos 1;
  cost = pos 0;
  available = true;
  atomic_group = some "g";
  settlement_window_ms = none;
}

abbrev edge : (id from to : String) → Edge
unfolding edge_of
edge id from to = edge_of (raw id from to) 100 1 1 0

abbrev first_graph : Dict Edge
first_graph = ("e1", edge "e1" "EUR" "EURT") ∷ []

abbrev graph : Dict Edge
graph = ("e1", edge "e1" "EUR" "EURT") ∷ ("e2", edge "e2" "EURT" "USDT") ∷ []

first_edge_stored : Built first_graph
unfolding upsert_edge normalize_settlement_edge positive not_negative check_group edge edge_of
    insert
first_edge_stored = upsert accept (raw "e1" "EUR" "EURT") (edge "e1" "EUR" "EURT") no_edges refl

built : Built graph
unfolding upsert_edge normalize_settlement_edge positive not_negative check_group edge edge_of
    insert
built = upsert accept (raw "e2" "EURT" "USDT") (edge "e2" "EURT" "USDT") first_edge_stored refl

abbrev route : Route
unfolding route_guarantee edge edge_of
route = record {
  edge_ids = "e1" ∷ "e2" ∷ [];
  from_asset = "EUR";
  to_asset = "USDT";
  edges = edge "e1" "EUR" "EURT" ∷ edge "e2" "EURT" "USDT" ∷ [];
  guarantee = record {
    atomic = true;
    guarantee_class = "ATOMIC";
    atomic_group = some "g";
    finality_classes = [];
  };
}

analyzed : analyze_route accept graph ("e1" ∷ "e2" ∷ []) ≡ ok route
unfolding analyze_route usable_edges usable_edge checked_edge route_of check_path route_guarantee
    lookup edge edge_of route
analyzed = refl

analyze_route-IsRoute_example : IsRoute accept graph ("e1" ∷ "e2" ∷ []) route
analyze_route-IsRoute_example = analyze_route-IsRoute accept graph ("e1" ∷ "e2" ∷ []) built analyzed
