-- ===== src/Site/Fx/Demo/Lifecycle.antt =====
-- The trades that src/fx/demoRuntime.ts keeps, call by call.
use blueballs.Prelude.{
  ℕ, ◌+◌, String, Bool, true, false, ◌≡◌, refl, subst, inl, inr, Option, none, some, arith, any,
  str_eq, str_eq_iff, Bool-cases, Outcome, ok, err,
}
use blueballs.Prelude.Double.{Double}
use blueballs.Prelude.Dict.{Dict, lookup, insert, lookup-insert}
use blueballs.Site.Fx.Demo.{scenario_ids}
use blueballs.Site.Fx.Demo.Trades.{
  TradeState, preview, reserved, confirmed, released, TradeIds, Trade, Failure, Demo, ids_of,
  trade_of, plan_trade, Request, reference_status, reference_policy, read_scenario, read_market,
  read_liquidity, read_settlement_route, unknown, choose_scenario, preview_trade, create_trade,
  execute_trade, read_trade, release_trade, is_success, keep_trade, confirmed_trade, released_trade,
  execute_found, release_found, demo_call,
}

abbrev pub is_preview : TradeState → Bool
is_preview preview = true
is_preview reserved = false
is_preview confirmed = false
is_preview released = false

-- A trade that may stand under an id: it was reserved and carries the id.
pub record IsKept (id : String) (t : Trade) : Type 0 where
  pub was_reserved : is_preview t.state ≡ false
  pub ids_given : (i : TradeIds) × (t.ids ≡ some i) × (i.id ≡ id)

abbrev pub AllKept : Dict Trade → Type 0
AllKept trades = (id : String) (t : Trade) → lookup id trades ≡ some t → IsKept id t

-- The demo is in a scenario of its table, and keeps only reserved trades under their own ids.
pub record IsConsistent (demo : Demo) : Type 0 where
  pub scenario_known : any (str_eq demo.active_scenario) scenario_ids ≡ true
  pub all_kept : AllKept demo.trades

insert-AllKept :
    (id : String) (t : Trade) (trades : Dict Trade)
    → IsKept id t
    → AllKept trades
    → AllKept (insert id t trades)
insert-AllKept id t trades k h other u found = elim (Bool-cases (str_eq id other)) [
  | inl same ↦
      let written : t ≡ u = ground (arith, lookup-insert id other t trades) in
      subst (λ x. IsKept x u) ((str_eq_iff id other).0 same) (subst (IsKept id) written k)
  | inr differs ↦ h other u (ground (arith, lookup-insert id other t trades))
]

-- What is planned as a reservation is reserved.
plan_trade-reserved :
    (d : Double) (scenario : String) (now : ℕ) (text : String) {t : Trade}
    → plan_trade d scenario now text true ≡ ok t
    → is_preview t.state ≡ false
unfolding plan_trade trade_of
plan_trade-reserved d scenario now text h = ground arith

keep_trade-IsConsistent :
    (d : Double) (demo : Demo) (o : Outcome Failure Trade)
    → ((t : Trade) → o ≡ ok t → is_preview t.state ≡ false)
    → IsConsistent demo
    → IsConsistent (keep_trade d demo o).1
keep_trade-IsConsistent d demo (err e) h c = c
keep_trade-IsConsistent d demo (ok t) h c =
    let ids = ids_of d (demo.serial + 1) in
    record {
      scenario_known = c.scenario_known;
      all_kept =
          insert-AllKept ids.id (record t { ids = some ids }) demo.trades
            (record { was_reserved = h t refl; ids_given = (ids, refl, refl) }) c.all_kept;
    }

execute_found-IsConsistent :
    (demo : Demo) (id : String) (o : Option Trade)
    → lookup id demo.trades ≡ o
    → IsConsistent demo
    → IsConsistent (execute_found demo id o).1
execute_found-IsConsistent demo id none found c = c
execute_found-IsConsistent demo id (some t) found c = record {
  scenario_known = c.scenario_known;
  all_kept =
      insert-AllKept id (confirmed_trade id t) demo.trades
        (record { was_reserved = refl; ids_given = (c.all_kept id t found).ids_given }) c.all_kept;
}

release_found-IsConsistent :
    (demo : Demo) (id : String) (o : Option Trade)
    → lookup id demo.trades ≡ o
    → IsConsistent demo
    → IsConsistent (release_found demo id o).1
release_found-IsConsistent demo id none found c = c
release_found-IsConsistent demo id (some t) found c = record {
  scenario_known = c.scenario_known;
  all_kept =
      insert-AllKept id (released_trade t) demo.trades
        (record { was_reserved = refl; ids_given = (c.all_kept id t found).ids_given }) c.all_kept;
}

-- Every call leaves a consistent demo consistent: its scenario is one of the table, and each stored
-- trade was reserved once and stands under the id that it carries.
pub demo_call-IsConsistent :
    (d : Double) (now : ℕ) (r : Request) (demo : Demo)
    → IsConsistent demo
    → IsConsistent (demo_call d now r demo).1
unfolding demo_call
demo_call-IsConsistent d now reference_status demo c = c
demo_call-IsConsistent d now reference_policy demo c = c
demo_call-IsConsistent d now read_scenario demo c = c
demo_call-IsConsistent d now read_market demo c = c
demo_call-IsConsistent d now read_liquidity demo c = c
demo_call-IsConsistent d now read_settlement_route demo c = c
demo_call-IsConsistent d now unknown demo c = c
demo_call-IsConsistent d now (choose_scenario id) demo c =
    elim (Bool-cases (any (str_eq id) scenario_ids)) [
      | inl known ↦ rw known (record { scenario_known = known; all_kept = c.all_kept })
      | inr strange ↦ rw strange c
    ]
demo_call-IsConsistent d now (preview_trade text) demo c = c
demo_call-IsConsistent d now (create_trade text) demo c =
    keep_trade-IsConsistent d demo (plan_trade d demo.active_scenario now text true)
      (λ t h. plan_trade-reserved d demo.active_scenario now text h) c
demo_call-IsConsistent d now (execute_trade id) demo c =
    execute_found-IsConsistent demo id (lookup id demo.trades) refl c
demo_call-IsConsistent d now (read_trade id) demo c = c
demo_call-IsConsistent d now (release_trade id) demo c =
    release_found-IsConsistent demo id (lookup id demo.trades) refl c

keep_trade-failure :
    (d : Double) (demo : Demo) (o : Outcome Failure Trade)
    → is_success (keep_trade d demo o).0 ≡ false
    → (keep_trade d demo o).1 ≡ demo
keep_trade-failure d demo (ok t) h = cc
keep_trade-failure d demo (err e) h = refl

execute_found-failure :
    (demo : Demo) (id : String) (o : Option Trade)
    → is_success (execute_found demo id o).0 ≡ false
    → (execute_found demo id o).1 ≡ demo
execute_found-failure demo id none h = refl
execute_found-failure demo id (some t) h = cc

release_found-failure :
    (demo : Demo) (id : String) (o : Option Trade)
    → is_success (release_found demo id o).0 ≡ false
    → (release_found demo id o).1 ≡ demo
release_found-failure demo id none h = refl
release_found-failure demo id (some t) h = cc

-- A call that fails changes nothing.
pub demo_call-failure :
    (d : Double) (now : ℕ) (r : Request) (demo : Demo)
    → is_success (demo_call d now r demo).0 ≡ false
    → (demo_call d now r demo).1 ≡ demo
unfolding demo_call
demo_call-failure d now reference_status demo h = refl
demo_call-failure d now reference_policy demo h = refl
demo_call-failure d now read_scenario demo h = refl
demo_call-failure d now read_market demo h = refl
demo_call-failure d now read_liquidity demo h = refl
demo_call-failure d now read_settlement_route demo h = refl
demo_call-failure d now unknown demo h = refl
demo_call-failure d now (choose_scenario id) demo h = ground arith
demo_call-failure d now (preview_trade text) demo h = refl
demo_call-failure d now (create_trade text) demo h =
    keep_trade-failure d demo (plan_trade d demo.active_scenario now text true) h
demo_call-failure d now (execute_trade id) demo h =
    execute_found-failure demo id (lookup id demo.trades) h
demo_call-failure d now (read_trade id) demo h = refl
demo_call-failure d now (release_trade id) demo h =
    release_found-failure demo id (lookup id demo.trades) h
