-- ===== src/Site/Navigation.antt =====
-- In-site navigation, after `navigatePath` of src/router-core.ts. The runtime's methods are recorded as
-- the list of their calls, in order.
pub mod Arrival
use blueballs.Prelude.{
  String, Bool, true, false, Option, none, some, List, [], ◌∷◌, ◌++◌, str_eq, if◌then◌else◌,
}

pub data GrowthEventName : Type 0 where
  builder_start commercial_contact_view : GrowthEventName

pub data RuntimeCall : Type 0 where
  track : GrowthEventName → (source_path : String) → RuntimeCall
  push_state : String → RuntimeCall
  broadcast_location_change scroll_to_top : RuntimeCall

pub record NavigationResult : Type 0 where
  pub changed : Bool
  pub source_path : String
  pub destination : String
  pub growth_event : Option GrowthEventName

unfoldable pub growth_event_of : String → Option GrowthEventName
growth_event_of destination =
    if str_eq destination "/sandbox"
    then some builder_start
    else if str_eq destination "/contact"
    then some commercial_contact_view
    else none

abbrev pub track_call : Option GrowthEventName → String → List RuntimeCall
track_call none source = []
track_call (some name) source = track name source ∷ []

-- `navigatePath`, for the runtime's current path.
unfoldable pub navigate_path : String → String → NavigationResult × List RuntimeCall
unfolding growth_event_of
navigate_path destination source =
    if str_eq destination source
    then (
      record {
        changed = false;
        source_path = source;
        destination = destination;
        growth_event = none;
      },
      scroll_to_top ∷ [],
    )
    else (
      record {
        changed = true;
        source_path = source;
        destination = destination;
        growth_event = growth_event_of destination;
      },
      track_call (growth_event_of destination) source
          ++ push_state destination ∷ broadcast_location_change ∷ scroll_to_top ∷ [],
    )
