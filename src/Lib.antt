-- ===== src/Lib.antt =====
-- Verification of Blueballs, an operating system for banking and stablecoin FX.
--
-- The program. A banking API (apps/api) keeps a double-entry ledger and write-through collections
-- over SQLite, and runs each command in a request scope that stages its writes and commits or rolls
-- them back. FX packages (packages) price, plan and settle currency exchange: the optimizer chooses
-- liquidity slices for an exact output, the monetary engine mints and redeems reserve-backed money,
-- and the principal risk book admits, releases and settles the positions that the institution takes
-- itself. A website (src) shows an FX laboratory whose configuration decides the sources, the journey
-- and the settlement legs that it presents, answers trades from an embedded demo, ranks providers for a
-- blueprint, and shares blueprints by link.
--
-- The files.
--   Prelude        What the other modules share: Boolean tests, lists over native numbers, signed
--                  integers (BigInt), results that may fail, dictionaries (Map), and the interface of
--                  JavaScript's floating-point numbers.
--   Bank.Ledger    apps/api/src/lib.js: PersistentLedger, assertNoOverdraft, post, and the ledger's
--                  part of inRequestScope. Sums and Solvency hold what is shown of one posting,
--                  Requests of a whole request.
--   Bank.Store     apps/api/src/lib.js: PersistentMap, snapshotOnce, and the rows' part of
--                  inRequestScope. Rollback and Commit hold what is shown of its two ends.
--   Fiat           packages/fx-fiat/src: intent.js (Intents) and settlement-store.js: the tables and new
--                  intents (Store), the moves between states (Transitions), attestations and settling
--                  (Attesting). Soundness holds what the calls keep: Proofs, Calls and Acceptance are
--                  about the attestations behind settled intents, Finality and Lasting about intents that
--                  ended, Keeping puts both together, History is about all that is reached.
--                  settlement-graph.js is Graph; Graph.Building is about the graphs that the calls
--                  build, Graph.Routes about the routes that are analyzed.
--   Liquidity.Optimizer
--                  packages/fx-liquidity/src/optimizer.js: planExactOutput. Legs is about one fill,
--                  Fills about the loop, Capacity about when it succeeds.
--   Liquidity.Coordinator
--                  packages/fx-liquidity/src/coordinator.js: reservePlan. Releasing is about the loop
--                  that releases, Compensation about what a failed call leaves held.
--   Market         packages/fx-market/src: validation.js with the amounts of math.js (Validation), and
--                  sqlite-market.js: the rows (Orders), the tables and admission (Book), reservation
--                  (Reserving), its ends (Closing), and the withdrawal of orders (Withdrawing).
--                  Soundness holds what the calls keep: Invariant says what it is, Ending, Closings,
--                  Confirming, Candidates, Placing, Rounds, Reserving, Rows, Admitting and Withdrawals
--                  show it of the calls, History of all that is reached.
--   Monetary       packages/fx-monetary/src/index.js: MonetaryEngine. Tables holds its tables and the
--                  totals of a currency, Inputs, Deposits and Engine its operations. Draining is
--                  about taking an amount out of the deposits, Reserves, Calls, Instruments and
--                  History about what a currency owes, Movements about minting and redeeming.
--   Pricing.Rational
--                  packages/fx-pricing/src/rational.js: fractions, in Lowest their lowest terms, in
--                  Ceiling the amount that is rounded up, in Ratios the value of a product.
--   Pricing.Principal
--                  packages/fx-pricing/src/principal-pricing.js: PrincipalQuoteEngine, which prices with
--                  Pricing.Rational and reserves in Pricing.RiskBook; Economics is about its quotes.
--   Pricing.RiskBook
--                  packages/fx-pricing/src/risk-book.js: PrincipalRiskBook. Limits is about its hard
--                  limits, Reservations and Repeats about admission, Closings and
--                  Settlements about settling.
--   Site.Fx        src/fx/final-fx-definitions.ts (Definitions), final-fx-engine.ts (Sources,
--                  Journeys, Finality, Scenarios), and the controls of final-fx-scenarios.ts,
--                  FinalFxPage.tsx, FxProductBuilder.tsx and the FinalFxSections (Setup).
--   Site.Fx.Demo   src/fx/demoRuntime.ts: the market, the trades and the calls of the embedded demo.
--                  Lifecycle is about what calls do to the trades.
--   Site.Ecosystem src/ecosystem/matching.ts (Matching) and shortlist.ts (Shortlist), over the types
--                  of types.ts; the provider table is an argument. Ranking and Sanitizing hold what
--                  is shown of them.
--   Site.Blueprint src/blueprint/share.ts: the sanitizer of a shared blueprint (Share).
--   Site.Navigation
--                  src/router-core.ts: navigatePath.
-- The modules named Tests run the definitions and apply the theorems at concrete inputs.
--
-- How code becomes definitions. A method that changes an object takes the object's state as a record
-- and returns the next one; a method that throws returns an error instead, and no state, since the
-- database discards the writes of a transaction that throws. Tables are lists in order of insertion
-- or dictionaries by primary key. A BigInt is an unbounded integer, as in the code; a count is a
-- natural number. JavaScript's floating-point numbers are an interface with no laws, and nothing
-- shown depends on their arithmetic. The clock, fresh ids, hashes and the adapters of the
-- liquidity sources are arguments. Every loop of the modelled
-- code goes over a list and is structural recursion, but for the loop of gcd: its fuel is its second
-- variable and one more, and that variable decreases in every turn.
--
-- Not modelled. HTTP, SQL text, logging, markup and display texts; the provider outbox, the webhooks,
-- the policy engine and the FX node; and the Solidity contracts.
pub mod Prelude
pub mod Bank
pub mod Fiat
pub mod Liquidity
pub mod Market
pub mod Monetary
pub mod Pricing
pub mod Site
