-- ===== src/Pricing/Principal.antt =====
-- `PrincipalQuoteEngine` of packages/fx-pricing/src/principal-pricing.js, which quotes from its own
-- balance sheet: it prices with `Pricing.Rational` and reserves in `Pricing.RiskBook`. The spreads are
-- numbers without a fraction; the price is kept as the fraction that `toDecimalString` prints, and the
-- reference's provenance is left out.

pub mod Economics
mod Tests
use blueballs.Prelude.{
  ℕ, ◌+◌, ◌*◌, ◌<◌, String, Bool, true, false, not, ◌&&◌, ◌||◌, Option, none, some, List, [], ◌∷◌,
  ltb, ◌==◌, str_eq, is_empty, if◌then◌else◌, Outcome, ok, err, ◌>>=◌, ◌>>◌, throw_if, require,
}
use blueballs.Prelude.Int.{ℤ, pos, negsuc, ◌+ℤ◌, ◌-ℤ◌, abs, leb_ℤ, ltb_ℤ, sum}
use blueballs.Prelude.Dict.{Dict}
use blueballs.Pricing.Rational.{
  PriceError, Rational, neg, rational, apply_bps, quote_input_atomic_exact_output,
}
use blueballs.Pricing.RiskBook.{Book, RiskError, reserve}

pub data QuoteError : Type 0 where
  required not_safe negative : (field : String) → QuoteError
  same_assets expires_at_not_future output_not_positive spread_not_positive : QuoteError
  reference_unavailable mid_required mid_not_positive : QuoteError
  pricing : PriceError → QuoteError
  risk : RiskError → QuoteError

abbrev pub from_pricing : {A : Type 0} → Outcome PriceError A → Outcome QuoteError A
from_pricing (ok a) = ok a
from_pricing (err e) = err (pricing e)

abbrev pub from_risk : {A : Type 0} → Outcome RiskError A → Outcome QuoteError A
from_risk (ok a) = ok a
from_risk (err e) = err (risk e)

abbrev pub is_safe : ℤ → Bool
is_safe x = ltb (abs x) 0x20_0000_0000_0000

unfoldable pub integer_bps : (name : String) → ℤ → (allow_negative : Bool) → Outcome QuoteError ℤ
integer_bps name value allow_negative = do
  require (is_safe value) (not_safe name)
  throw_if (not allow_negative && ltb_ℤ value (pos 0)) (negative name)
  ok value

pub record Reference : Type 0 where
  pub available : Bool
  pub numerator : Option ℤ
  pub denominator : Option ℤ
  pub mid : String

unfoldable pub mid_rational : (numerator denominator : Option ℤ) → Outcome QuoteError Rational
mid_rational none denominator = err mid_required
mid_rational (some n) none = err mid_required
mid_rational (some n) (some d) = do
  value ← from_pricing (rational n d)
  throw_if (leb_ℤ value.n (pos 0)) mid_not_positive
  ok value

unfoldable pub reference_rational : Reference → Outcome QuoteError Rational
unfolding mid_rational
reference_rational reference =
    require reference.available reference_unavailable
    >> mid_rational reference.numerator reference.denominator

-- The engine without its clock, which is the argument `now` of the calls.
pub record Engine : Type 0 where
  pub base_spread_bps : ℤ
  pub minimum_spread_bps : ℤ

unfoldable pub new_engine : (base_spread_bps minimum_spread_bps : ℤ) → Outcome QuoteError Engine
unfolding integer_bps
new_engine base minimum = do
  base' ← integer_bps "baseSpreadBps" base false
  minimum' ← integer_bps "minimumSpreadBps" minimum false
  ok (record { base_spread_bps = base'; minimum_spread_bps = minimum' })

pub record Request : Type 0 where
  pub quote_id : String
  pub input_asset : String
  pub output_asset : String
  pub output_atomic : ℤ
  pub input_decimals : ℕ
  pub output_decimals : ℕ
  pub reference : Reference
  pub expires_at : ℤ
  pub volatility_bps : ℤ
  pub size_bps : ℤ
  pub corridor_bps : ℤ
  pub rail_bps : ℤ
  pub inventory_bps : ℤ

pub record Quote : Type 0 where
  pub quote_id : String
  pub input_asset : String
  pub output_asset : String
  pub total_input : ℕ
  pub total_output : ℕ
  pub reference_mid : String
  pub executable_price : Rational
  pub total_spread_bps : ℤ
  pub components : List ℤ
  pub risk_deltas : Dict ℤ
  pub expires_at : ℤ

-- The guards on the names and the time.
unfoldable pub check_request : ℤ → Request → Outcome QuoteError (Unit {0})
check_request now q = do
  throw_if (is_empty q.quote_id) (required "quoteId")
  throw_if (is_empty q.input_asset) (required "inputAsset")
  throw_if (is_empty q.output_asset) (required "outputAsset")
  throw_if (str_eq q.input_asset q.output_asset) same_assets
  throw_if (not (is_safe q.expires_at) || leb_ℤ q.expires_at now) expires_at_not_future

abbrev pub positive_output : ℤ → Outcome QuoteError ℕ
positive_output (negsuc n) = err output_not_positive
positive_output (pos n) = if n == 0 then err output_not_positive else ok n

-- The values of `components`, in their order.
unfoldable pub components_of : Engine → Request → Outcome QuoteError (List ℤ)
unfolding integer_bps
components_of e q = do
  volatility ← integer_bps "volatilityBps" q.volatility_bps false
  size ← integer_bps "sizeBps" q.size_bps false
  corridor ← integer_bps "corridorBps" q.corridor_bps false
  rail ← integer_bps "railBps" q.rail_bps false
  inventory ← integer_bps "inventoryBps" q.inventory_bps true
  ok (e.base_spread_bps ∷ volatility ∷ size ∷ corridor ∷ rail ∷ inventory ∷ [])

-- `Math.max` of the minimum and the sum, which is taken to be exact.
abbrev pub total_spread : Engine → List ℤ → ℤ
total_spread e components =
    if ltb_ℤ e.minimum_spread_bps (sum components) then sum components else e.minimum_spread_bps

abbrev pub quote_of :
    Request
    → (output : ℕ) → (components : List ℤ) → (spread : ℤ) → Rational
    → (total_input : ℕ) → Quote
quote_of q output components spread price total_input = record {
  quote_id = q.quote_id;
  input_asset = q.input_asset;
  output_asset = q.output_asset;
  total_input = total_input;
  total_output = output;
  reference_mid = q.reference.mid;
  executable_price = price;
  total_spread_bps = spread;
  components = components;
  risk_deltas = (q.input_asset, pos total_input) ∷ (q.output_asset, neg output) ∷ [];
  expires_at = q.expires_at;
}

-- The spread, the price and the input of a quote, from its components on.
unfoldable pub priced : Request → (output : ℕ) → List ℤ → (spread : ℤ) → Outcome QuoteError Quote
unfolding reference_rational
priced q output components spread = do
  throw_if (leb_ℤ spread (negsuc 9999)) spread_not_positive
  mid ← reference_rational q.reference
  price ← from_pricing (apply_bps mid spread)
  total_input ←
      from_pricing (quote_input_atomic_exact_output output price q.output_decimals q.input_decimals)
  ok (quote_of q output components spread price total_input)

unfoldable pub preview_exact_output : Engine → ℤ → Request → Outcome QuoteError Quote
unfolding check_request components_of priced
preview_exact_output e now q = do
  check_request now q
  output ← positive_output q.output_atomic
  components ← components_of e q
  priced q output components (total_spread e components)

-- `quoteExactOutput`; the risk book reads the same clock.
unfoldable pub quote_exact_output : Engine → ℤ → Request → Book → Outcome QuoteError (Quote × Book)
unfolding preview_exact_output
quote_exact_output e now q book = do
  quote ← preview_exact_output e now q
  reserved ← from_risk (reserve book now quote.quote_id quote.risk_deltas quote.expires_at)
  ok (quote, reserved.1)
