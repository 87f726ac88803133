-- ===== src/Fiat/Graph.antt =====
-- `SettlementGraph` of packages/fx-fiat/src/settlement-graph.js. The authorization verifier is an argument; one
-- that is null accepts every edge. The metadata of an edge are left out.
pub mod Building
pub mod Routes
mod Tests
use blueballs.Prelude.{
  ℕ, zero, String, Bool, true, false, ◌&&◌, ◌||◌, not, Option, none, some, List, [], ◌∷◌, ◌++◌, any,
  all, map, keep, leb, ltb, ◌==◌, str_eq, is_empty, length, unique, if◌then◌else◌, Outcome, ok, err,
  ◌>>=◌, ◌>>◌, throw_if, require,
}
use blueballs.Prelude.Int.{ℤ, pos, negsuc}
use blueballs.Prelude.Dict.{Dict, lookup, insert, is_some}
use blueballs.Prelude.Rows.{rows}
use blueballs.Fiat.Intents.{edge_types, finality_classes, has}

pub data GraphError : Type 0 where
  invalid : (field : String) → GraphError
  group_required group_not_allowed route_required : GraphError
  edge_missing edge_unavailable edge_empty unauthorized : (edge_id : String) → GraphError
  discontinuity : (before after : String) → GraphError

pub record RawEdge : Type 0 where
  pub edge_id : String
  pub edge_type : String
  pub finality_class : String
  pub from_asset : String
  pub to_asset : String
  pub provider_id : String
  pub policy_authorization_id : String
  pub capacity : ℤ
  pub unit_input : ℤ
  pub unit_output : ℤ
  pub cost : ℤ
  pub available : Bool
  pub atomic_group : Option String
  pub settlement_window_ms : Option ℕ

pub record Edge : Type 0 where
  pub edge_id : String
  pub edge_type : String
  pub finality_class : String
  pub from_asset : String
  pub to_asset : String
  pub provider_id : String
  pub policy_authorization_id : String
  pub capacity : ℕ
  pub unit_input : ℕ
  pub unit_output : ℕ
  pub cost : ℕ
  pub available : Bool
  pub atomic_group : Option String
  pub settlement_window_ms : Option ℕ

unfoldable pub positive : ℤ → (field : String) → Outcome GraphError ℕ
positive (negsuc n) field = err (invalid field)
positive (pos n) field = if n == 0 then err (invalid field) else ok n

unfoldable pub not_negative : ℤ → (field : String) → Outcome GraphError ℕ
not_negative (negsuc n) field = err (invalid field)
not_negative (pos n) field = ok n

abbrev pub is_named : Option String → Bool
is_named none = false
is_named (some g) = not (is_empty g)

abbrev pub is_atomic : String → Bool
is_atomic finality_class = str_eq finality_class "ATOMIC"

-- An atomic edge names its group, and no other edge does.
unfoldable pub check_group :
    (finality_class : String) → Option String → Outcome GraphError (Unit {0})
check_group finality_class group = do
  throw_if (is_atomic finality_class && not (is_named group)) group_required
  throw_if (not (is_atomic finality_class) && is_some group) group_not_allowed

-- `required` of the texts of the answer.
-- A text that is missing is one error here, `invalid "text"`; the code names the field in its message.
abbrev pub has_empty_text : RawEdge → Bool
has_empty_text raw = any is_empty (
    raw.edge_id ∷ raw.from_asset ∷ raw.to_asset ∷ raw.provider_id ∷ raw.policy_authorization_id
    ∷ [])

unfoldable pub edge_of : RawEdge → (capacity unit_input unit_output cost : ℕ) → Edge
edge_of raw capacity unit_input unit_output cost = record {
  edge_id = raw.edge_id;
  edge_type = raw.edge_type;
  finality_class = raw.finality_class;
  from_asset = raw.from_asset;
  to_asset = raw.to_asset;
  provider_id = raw.provider_id;
  policy_authorization_id = raw.policy_authorization_id;
  capacity = capacity;
  unit_input = unit_input;
  unit_output = unit_output;
  cost = cost;
  available = raw.available;
  atomic_group = raw.atomic_group;
  settlement_window_ms = raw.settlement_window_ms;
}

unfoldable pub normalize_settlement_edge : RawEdge → Outcome GraphError Edge
unfolding positive not_negative check_group edge_of
normalize_settlement_edge raw = do
  require (has edge_types raw.edge_type) (invalid "edgeType")
  require (has finality_classes raw.finality_class) (invalid "finalityClass")
  capacity ← positive raw.capacity "capacity"
  unit_input ← positive raw.unit_input "unitInput"
  unit_output ← positive raw.unit_output "unitOutput"
  cost ← not_negative raw.cost "cost"
  check_group raw.finality_class raw.atomic_group
  throw_if (has_empty_text raw) (invalid "text")
  ok (edge_of raw capacity unit_input unit_output cost)

-- `===` on `atomicGroup`.
abbrev pub same_group : Option String → Option String → Bool
same_group none none = true
same_group none (some h) = false
same_group (some g) none = false
same_group (some g) (some h) = str_eq g h

-- `guaranteeClass` is the field `class`.
pub record Guarantee : Type 0 where
  pub atomic : Bool
  pub guarantee_class : String
  pub atomic_group : Option String
  pub finality_classes : List String

abbrev class_of : List String → String
class_of [] = "MIXED_FINALITY"
class_of (c ∷ []) = c
class_of (c ∷ d ∷ cs) = "MIXED_FINALITY"

abbrev classes : List Edge → List String
classes es = unique (map (λ e. e.finality_class) es)

unfoldable pub route_guarantee : List Edge → Guarantee
route_guarantee [] = record {
  atomic = false;
  guarantee_class = "EMPTY";
  atomic_group = none;
  finality_classes = [];
}
route_guarantee (e ∷ es) =
    if all (λ x. is_atomic x.finality_class) (e ∷ es)
    then if all (λ x. same_group x.atomic_group e.atomic_group) (e ∷ es)
      then record {
        atomic = true;
        guarantee_class = "ATOMIC";
        atomic_group = e.atomic_group;
        finality_classes = [];
      }
      else record {
        atomic = false;
        guarantee_class = "MULTI_ATOMIC_BOUNDARY";
        atomic_group = none;
        finality_classes = [];
      }
    else record {
      atomic = false;
      guarantee_class = class_of (classes (e ∷ es));
      atomic_group = none;
      finality_classes = classes (e ∷ es);
    }

pub record Route : Type 0 where
  pub edge_ids : List String
  pub from_asset : String
  pub to_asset : String
  pub edges : List Edge
  pub guarantee : Guarantee

-- `edges.at(-1).toAsset`, of a list that begins with an edge.
abbrev pub last_asset : Edge → List Edge → String
last_asset e [] = e.to_asset
last_asset e (f ∷ es) = last_asset f es

-- The loop that compares neighbours, from the edge before.
unfoldable pub check_path : Edge → List Edge → Outcome GraphError (Unit {0})
check_path e [] = ok tt
check_path e (f ∷ es) =
    require (str_eq e.to_asset f.from_asset) (discontinuity e.edge_id f.edge_id) >> check_path f es

module _ (authorized : Edge → Bool) where
  unfoldable pub upsert_edge : RawEdge → Dict Edge → Outcome GraphError (Edge × Dict Edge)
  unfolding normalize_settlement_edge
  upsert_edge raw graph = do
    e ← normalize_settlement_edge raw
    require (authorized e) (unauthorized e.edge_id)
    ok (e, insert e.edge_id e graph)

  abbrev pub is_usable : Edge → Bool
  is_usable e = e.available && ltb 0 e.capacity && authorized e

  unfoldable pub active_edges : Dict Edge → List Edge
  active_edges graph = keep is_usable (rows graph)

  unfoldable pub checked_edge : Edge → Outcome GraphError Edge
  checked_edge e =
      if not e.available
      then err (edge_unavailable e.edge_id)
      else if e.capacity == 0
      then err (edge_empty e.edge_id)
      else if not (authorized e)
      then err (unauthorized e.edge_id)
      else ok e

  unfoldable pub usable_edge : Dict Edge → String → Outcome GraphError Edge
  unfolding checked_edge
  usable_edge graph edge_id = elim (lookup edge_id graph) [
    | none ↦ err (edge_missing edge_id)
    | some e ↦ checked_edge e
  ]

  unfoldable pub usable_edges : Dict Edge → List String → Outcome GraphError (List Edge)
  unfolding usable_edge
  usable_edges graph [] = ok []
  usable_edges graph (id ∷ ids) = do
    e ← usable_edge graph id
    es ← usable_edges graph ids
    ok (e ∷ es)

  -- What `analyzeRoute` makes of its edges.
  unfoldable pub route_of : List String → List Edge → Outcome GraphError Route
  unfolding check_path route_guarantee
  route_of ids [] = err route_required
  route_of ids (e ∷ es) = do
    check_path e es
    ok (record {
      edge_ids = ids;
      from_asset = e.from_asset;
      to_asset = last_asset e es;
      edges = e ∷ es;
      guarantee = route_guarantee (e ∷ es);
    })

  unfoldable pub analyze_route : Dict Edge → List String → Outcome GraphError Route
  unfolding usable_edges route_of
  analyze_route graph ids = usable_edges graph ids >>= route_of ids

unfoldable pub set_availability :
    (edge_id : String) → Bool → Dict Edge → Outcome GraphError (Dict Edge)
set_availability edge_id available graph = elim (lookup edge_id graph) [
  | none ↦ err (edge_missing edge_id)
  | some e ↦ ok (insert edge_id (record e { available = available }) graph)
]
