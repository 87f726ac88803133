-- ===== src/Site/Fx/Journeys.antt =====
-- The steps of a journey, after `executionCoreStep` and `buildJourneySteps` of
-- src/fx/final-fx-engine.ts.
pub mod Steps
use blueballs.Prelude.{String, Bool, true, false, List, [], ◌∷◌, ◌++◌, ◌^^◌}
use blueballs.Prelude.Double.{Double}
use blueballs.Site.Fx.Definitions.{
  JourneyId, ScenarioId, normal, maker_offline, issuer_revoked, treasury_limit, quote_expired,
  proof_replay, payout_pending, reference_outage, ExecutionPlaneId, blueballs_router, Corridor,
  SimulationState,
}

-- `is_core` is whether `kind` is "core".
pub record JourneyStep : Type 0 where
  pub owner : String
  pub title : String
  pub detail : String
  pub finality : String
  pub is_core : Bool

module _ {d : Double} where
  unfoldable pub core_step : ExecutionPlaneId → Corridor d → JourneyStep
  core_step ExecutionPlaneId.internal c = record {
    owner = "YOUR INSTITUTION";
    title = c.from_token ^^ " → " ^^ c.to_token;
    detail =
        "The institution records the token exchange on its own ledger. It is not an on-chain atomic transaction.";
    finality = "AUTHORITATIVE LEDGER";
    is_core = true;
  }
  core_step ExecutionPlaneId.external c = record {
    owner = "EXTERNAL VENUE";
    title = c.from_token ^^ " → " ^^ c.to_token;
    detail =
        "An approved external venue executes the token leg. The route remains pending until that venue supplies confirmation evidence.";
    finality = "EXTERNAL EXECUTION";
    is_core = true;
  }
  core_step blueballs_router c = record {
    owner = "BLUEBALLS";
    title = c.from_token ^^ " → " ^^ c.to_token;
    detail =
        "The router selects eligible customer orders, issuer inventory, professional quotes and treasury capacity. The reference contracts define the atomic settlement boundary, but this website does not submit a transaction.";
    finality = "REFERENCE ATOMIC BOUNDARY";
    is_core = true;
  }

  -- `executionCoreStep`
  unfoldable pub execution_core_step : SimulationState d → Corridor d → JourneyStep
  unfolding core_step
  execution_core_step state c = core_step state.execution_plane c

  -- The table `byJourney`, around the core step.
  unfoldable pub journey_steps : JourneyStep → Corridor d → JourneyId → List JourneyStep
  journey_steps core c JourneyId.hybrid =
      record {
        owner = "YOUR INSTITUTION";
        title = "Customer and account verified";
        detail =
            "The institution can attribute the customer and account. Account, corridor and ticket-size rules are applied to the exchange request.";
        finality = "POLICY + ACCOUNT STATE";
        is_core = false;
      }
      ∷ record {
        owner = "YOUR LEDGER";
        title = c.from ^^ " balance available";
        detail =
            "An internal balance or a confirmed deposit makes the input amount available for the route.";
        finality = "AUTHORITATIVE LEDGER";
        is_core = false;
      }
      ∷ core
      ∷ record {
        owner = "PAYOUT ADAPTER";
        title = c.to ^^ " payout submitted";
        detail =
            "The output is sent to the selected payout provider or recipient account. Submission is not final until the required evidence is received.";
        finality = "ASYNC EXTERNAL";
        is_core = false;
      }
      ∷ record {
        owner = "BLUEBALLS";
        title = "Reconcile each route leg";
        detail =
            "Each leg is updated from its own confirmation evidence. An unconfirmed result remains unconfirmed and is not retried automatically.";
        finality = "MIXED FINALITY";
        is_core = false;
      }
      ∷ []
  journey_steps core c JourneyId.own =
      record {
        owner = "YOUR INSTITUTION";
        title = "Customer requests an exchange";
        detail =
            "The input and output accounts are held by the institution and attributed to known customers or businesses.";
        finality = "POLICY";
        is_core = false;
      }
      ∷ record {
        owner = "YOUR LEDGER";
        title = c.from ^^ " account debit";
        detail = "The institution records the input-side debit on its authoritative ledger.";
        finality = "AUTHORITATIVE LEDGER";
        is_core = false;
      }
      ∷ core
      ∷ record {
        owner = "YOUR LEDGER";
        title = c.to ^^ " account credit";
        detail =
            "The output account is credited after the exchange reaches the settlement state required by the institution.";
        finality = "AUTHORITATIVE LEDGER";
        is_core = false;
      }
      ∷ []
  journey_steps core c JourneyId.provider =
      record {
        owner = "PROVIDER";
        title = "Customer approved";
        detail =
            "A banking or payments provider may perform KYC or KYB and create the required account or payment instructions.";
        finality = "EXTERNAL PROVIDER STATE";
        is_core = false;
      }
      ∷ record {
        owner = "PROVIDER";
        title = c.from ^^ " deposit confirmed";
        detail =
            "The provider confirms receipt of the input funds and makes the input stablecoin available. Supported assets and timing depend on the provider integration.";
        finality = "ASYNC EXTERNAL";
        is_core = false;
      }
      ∷ core
      ∷ record {
        owner = "PROVIDER";
        title = c.to ^^ " payout submitted";
        detail = "The provider or connected bank rail starts the recipient payout.";
        finality = "ASYNC EXTERNAL";
        is_core = false;
      }
      ∷ record {
        owner = "BLUEBALLS";
        title = "Reconcile provider events";
        detail =
            "Deposit confirmation, token FX and payout confirmation remain separate route states even when the customer sees one transaction.";
        finality = "MIXED FINALITY";
        is_core = false;
      }
      ∷ []
  journey_steps core c JourneyId.issuer =
      record {
        owner = "ISSUER";
        title = c.from ^^ " deposit confirmed";
        detail =
            "The issuer confirms eligible input funds or an approved account balance before minting tokenised value.";
        finality = "ISSUER EVIDENCE";
        is_core = false;
      }
      ∷ record {
        owner = "ISSUER";
        title = c.from_token ^^ " minted";
        detail =
            "Minting is a separate settlement leg. The FX route starts only after executable token value is available.";
        finality = "ATTESTED EXTERNAL";
        is_core = false;
      }
      ∷ core
      ∷ record {
        owner = "ISSUER";
        title = c.to_token ^^ " redemption accepted";
        detail =
            "The output stablecoin is submitted for redemption under the issuer’s limits, cut-offs and confirmation process.";
        finality = "ASYNC EXTERNAL";
        is_core = false;
      }
      ∷ record {
        owner = "PAYOUT RAIL";
        title = c.to ^^ " payout confirmed";
        detail =
            "The recipient receives fiat after the issuer or payout provider confirms the external payment leg.";
        finality = "ASYNC EXTERNAL";
        is_core = false;
      }
      ∷ []
  journey_steps core c JourneyId.p2p =
      record {
        owner = "EXTERNAL PEER";
        title = c.from_token ^^ " offer published";
        detail =
            "A peer publishes the available stablecoin amount, accepted fiat methods, rate and order limits. This is a fiat-to-token offer, not a token-FX order.";
        finality = "P2P CAPACITY";
        is_core = false;
      }
      ∷ record {
        owner = "CUSTOMER";
        title = "Payment intent created";
        detail =
            "The selected offer, fiat amount, token amount, payee and expiry are bound before the customer sends the external payment.";
        finality = "RESERVED INTENT";
        is_core = false;
      }
      ∷ record {
        owner = "EXTERNAL VERIFIER";
        title = c.from ^^ " payment verified";
        detail =
            "A permitted verifier confirms the specific external payment. Reused, mismatched or expired evidence cannot authorise token release.";
        finality = "ATTESTED EXTERNAL";
        is_core = false;
      }
      ∷ record {
        owner = "P2P ESCROW";
        title = c.from_token ^^ " released";
        detail =
            "The stablecoin is released after the payment evidence is accepted. The released balance can then enter the Blueballs FX market.";
        finality = "CONDITIONAL TOKEN RELEASE";
        is_core = false;
      }
      ∷ core
      ∷ record {
        owner = "EXIT ADAPTER";
        title = c.to_token ^^ " → " ^^ c.to;
        detail =
            "A separate issuer redemption, provider payout or P2P off-ramp is required before the recipient receives fiat.";
        finality = "ASYNC EXTERNAL";
        is_core = false;
      }
      ∷ []
  journey_steps core c JourneyId.stable =
      record {
        owner = "CUSTOMER WALLET";
        title = c.from_token ^^ " available";
        detail =
            "The customer already holds the input token. No fiat deposit or minting leg is required.";
        finality = "TOKEN BALANCE";
        is_core = false;
      }
      ∷ core
      ∷ record {
        owner = "CUSTOMER WALLET";
        title = c.to_token ^^ " delivered";
        detail =
            "The output remains on-chain or in a supported token account. There is no external fiat payout to reconcile.";
        finality = "TOKEN DELIVERY";
        is_core = false;
      }
      ∷ []

  unfoldable pub build_journey_steps : SimulationState d → Corridor d → List JourneyStep
  unfolding execution_core_step journey_steps
  build_journey_steps state c = journey_steps (execution_core_step state c) c state.journey
