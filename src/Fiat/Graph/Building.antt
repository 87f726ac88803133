-- ===== src/Fiat/Graph/Building.antt =====
-- The graphs that `upsertEdge` and `setAvailability` of packages/fx-fiat/src/settlement-graph.js build.
use blueballs.Prelude.{
  ℕ, ◌<◌, String, Bool, true, ◌&&◌, not, ◌≡◌, refl, ◌∙◌, subst, inl, inr, Option, none, some, [],
  arith, str_eq, str_eq_iff, Bool-cases, Option-cases, Outcome, ok, err, throw_if, require,
  throw_if-eq-ok, >>=-eq-ok, >>-eq-ok, ok-injective,
}
use blueballs.Prelude.Dict.{Dict, lookup, insert, lookup-insert}
use blueballs.Prelude.Int.{ℤ, pos, negsuc}
use blueballs.Fiat.Intents.{edge_types, finality_classes, has}
use blueballs.Fiat.Graph.{
  GraphError, invalid, group_required, unauthorized, RawEdge, Edge, positive, not_negative,
  is_named, is_atomic, check_group, has_empty_text, edge_of, normalize_settlement_edge, upsert_edge,
  set_availability,
}

-- An atomic edge belongs to a group.
abbrev pub IsGrouped : Edge → Type 0
IsGrouped e = is_atomic e.finality_class ≡ true → (g : String) × (e.atomic_group ≡ some g)

abbrev pub IsSound : Dict Edge → Type 0
IsSound graph =
    (k : String) (e : Edge)
    → lookup k graph ≡ some e
    → (e.edge_id ≡ k) × (0 < e.capacity) × IsGrouped e

insert-IsSound :
    (e : Edge) (graph : Dict Edge) (k : String)
    → e.edge_id ≡ k
    → 0 < e.capacity
    → IsGrouped e
    → IsSound graph
    → IsSound (insert k e graph)
insert-IsSound e graph k own some_capacity grouped sound j f found =
    elim (Bool-cases (str_eq k j)) [
      | inr differs ↦ sound j f (ground (arith, lookup-insert k j e graph))
      | inl same ↦
          let written : e ≡ f = ground (arith, lookup-insert k j e graph) in
          subst (λ x. (x.edge_id ≡ j) × (0 < x.capacity) × IsGrouped x) written
            (own ∙ (str_eq_iff k j).0 same, some_capacity, grouped)
    ]

positive-pos : (z : ℤ) (field : String) {n : ℕ} → positive z field ≡ ok n → 0 < n
unfolding positive
positive-pos (pos n) field done = ground arith
positive-pos (negsuc n) field done = absurd (refused done)
  where
    refused : {m : ℕ} → ◌≡◌ {A = Outcome GraphError ℕ} (err (invalid field)) (ok m) → ⊥
    refused h = cc

is_named-group : (o : Option String) → is_named o ≡ true → (g : String) × (o ≡ some g)
is_named-group none h = cc
is_named-group (some g) h = (g, refl)

check_group-IsGrouped :
    (finality_class : String) (group : Option String)
    → check_group finality_class group ≡ ok tt
    → is_atomic finality_class ≡ true
    → (g : String) × (group ≡ some g)
unfolding check_group
check_group-IsGrouped finality_class group done atomic =
    let (named, _) =
      >>-eq-ok (throw_if (is_atomic finality_class && not (is_named group)) group_required) _
        done in
    let missing =
      throw_if-eq-ok (is_atomic finality_class && not (is_named group)) group_required named in
    is_named-group group (ground arith)

normalize_settlement_edge_lem :
    (raw : RawEdge) {e : Edge}
    → normalize_settlement_edge raw ≡ ok e
    → (0 < e.capacity) × IsGrouped e
unfolding normalize_settlement_edge edge_of
normalize_settlement_edge_lem raw done =
    let (_, d1) = >>-eq-ok (require (has edge_types raw.edge_type) (invalid "edgeType")) _ done in
    let (_, d2) =
      >>-eq-ok (require (has finality_classes raw.finality_class) (invalid "finalityClass")) _ d1 in
    let (capacity, positive_capacity, d3) = >>=-eq-ok (positive raw.capacity "capacity") _ d2 in
    let (unit_input, _, d4) = >>=-eq-ok (positive raw.unit_input "unitInput") _ d3 in
    let (unit_output, _, d5) = >>=-eq-ok (positive raw.unit_output "unitOutput") _ d4 in
    let (cost, _, d6) = >>=-eq-ok (not_negative raw.cost "cost") _ d5 in
    let (grouped, d7) = >>-eq-ok (check_group raw.finality_class raw.atomic_group) _ d6 in
    let (_, result) = >>-eq-ok (throw_if (has_empty_text raw) (invalid "text")) _ d7 in
    subst (λ x. (0 < x.capacity) × IsGrouped x) (ok-injective result)
      (
        positive-pos raw.capacity "capacity" positive_capacity,
        check_group-IsGrouped raw.finality_class raw.atomic_group grouped,
      )

-- The graphs that the calls build. Whether an edge is authorized may differ from call to call.
pub data Built : Dict Edge → Type 0 where
  no_edges : Built []
  upsert :
      {graph graph' : Dict Edge} (authorized : Edge → Bool) (raw : RawEdge) (e : Edge)
      → Built graph
      → upsert_edge authorized raw graph ≡ ok (e, graph')
      → Built graph'
  switch :
      {graph graph' : Dict Edge} (edge_id : String) (available : Bool)
      → Built graph
      → set_availability edge_id available graph ≡ ok graph'
      → Built graph'

upsert_edge-IsSound :
    (authorized : Edge → Bool) (raw : RawEdge) (graph : Dict Edge) {answer : Edge × Dict Edge}
    → IsSound graph
    → upsert_edge authorized raw graph ≡ ok answer
    → IsSound answer.1
unfolding upsert_edge
upsert_edge-IsSound authorized raw graph sound done =
    let (e, normal, d1) = >>=-eq-ok (normalize_settlement_edge raw) _ done in
    let (_, result) = >>-eq-ok (require (authorized e) (unauthorized e.edge_id)) _ d1 in
    let (some_capacity, grouped) = normalize_settlement_edge_lem raw normal in
    subst (λ x. IsSound x.1) (ok-injective result)
      (insert-IsSound e graph e.edge_id refl some_capacity grouped sound)

set_availability-IsSound :
    (edge_id : String) (available : Bool) (graph : Dict Edge) {graph' : Dict Edge}
    → IsSound graph
    → set_availability edge_id available graph ≡ ok graph'
    → IsSound graph'
unfolding set_availability
set_availability-IsSound edge_id available graph sound done =
    elim (Option-cases (lookup edge_id graph)) [
      | inl missing ↦ let wrong = rw (missing, set_availability) at done in cc
      | inr (e, found) ↦
          let (own, some_capacity, grouped) = sound edge_id e found in
          subst IsSound (ok-injective (rw (found, set_availability) at done)) (
            insert-IsSound (record e { available = available }) graph edge_id own some_capacity
              grouped sound)
    ]

pub Built-IsSound : {graph : Dict Edge} → Built graph → IsSound graph
unfolding lookup
Built-IsSound no_edges = λ k e found. absurd (none_some found)
  where
    none_some : {e : Edge} → ◌≡◌ {A = Option Edge} none (some e) → ⊥
    none_some h = cc
Built-IsSound (upsert {graph} authorized raw e built done) =
    upsert_edge-IsSound authorized raw graph (Built-IsSound built) done
Built-IsSound (switch {graph} edge_id available built done) =
    set_availability-IsSound edge_id available graph (Built-IsSound built) done
