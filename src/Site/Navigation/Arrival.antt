-- ===== src/Site/Navigation/Arrival.antt =====
-- Where `navigatePath` of src/router-core.ts leads.
use blueballs.Prelude.{
  ℕ, ◌+◌, String, not, ◌≡◌, refl, Option, none, some, List, [], ◌∷◌, ◌++◌, str_eq, str_eq_iff,
  if◌then◌else◌, Bool-cases, inl, inr, sym,
}
use blueballs.Site.Navigation.{
  GrowthEventName, RuntimeCall, track, push_state, broadcast_location_change, scroll_to_top,
  growth_event_of, track_call, navigate_path,
}

-- The location after the calls.
abbrev pub path_after : String → List RuntimeCall → String
path_after path [] = path
path_after path (track name source ∷ calls) = path_after path calls
path_after path (push_state next ∷ calls) = path_after next calls
path_after path (broadcast_location_change ∷ calls) = path_after path calls
path_after path (scroll_to_top ∷ calls) = path_after path calls

-- How many entries the calls add to the history.
abbrev pub pushes : List RuntimeCall → ℕ
pushes [] = 0
pushes (track name source ∷ calls) = pushes calls
pushes (push_state next ∷ calls) = 1 + pushes calls
pushes (broadcast_location_change ∷ calls) = pushes calls
pushes (scroll_to_top ∷ calls) = pushes calls

-- The calls of a navigation to another path.
arrives :
    (o : Option GrowthEventName) (source destination : String)
    → let calls =
        track_call o source
        ++ push_state destination ∷ broadcast_location_change ∷ scroll_to_top ∷ [] in
      (path_after source calls ≡ destination) × (pushes calls ≡ 1)
arrives none source destination = (refl, refl)
arrives (some name) source destination = (refl, refl)

-- A navigation ends at its destination; it adds one entry to the history if it says that the path
-- changed, and none otherwise; and it says so exactly where the destination is another path.
pub navigate_path_arrives :
    (destination source : String)
    → let (result, calls) = navigate_path destination source in
      (path_after source calls ≡ destination)
      × (pushes calls ≡ (if result.changed then 1 else 0))
      × (result.changed ≡ not (str_eq destination source))
unfolding navigate_path
navigate_path_arrives destination source = elim (Bool-cases (str_eq destination source)) [
  | inl same ↦ rw same (sym ((str_eq_iff destination source).0 same), refl, refl)
  | inr differs ↦
      let (here, once) = arrives (growth_event_of destination) source destination in
      rw differs (here, once, refl)
]
