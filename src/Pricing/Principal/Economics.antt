-- ===== src/Pricing/Principal/Economics.antt =====
-- What a quote of packages/fx-pricing/src/principal-pricing.js charges, and what it leaves in the risk
-- book.
use blueballs.Prelude.{
  ℕ, ◌*◌, ◌^◌, ◌<◌, ◌≡◌, ◌⊎◌, inl, inr, refl, sym, ap, subst, false, some, List, [], ◌∷◌, str_eq,
  if◌then◌else◌, Outcome, ok, err, arith, throw_if, require, >>=-eq-ok, >>-eq-ok, ok-injective,
  throw_if-eq-ok, is_empty,
}
use blueballs.Prelude.Int.{ℤ, pos, negsuc, leb_ℤ, ltb_ℤ, ◌≤ℤ◌, sum}
use blueballs.Pricing.Rational.{
  PriceError, Rational, neg, rational, apply_bps, quote_input_atomic_exact_output,
}
use blueballs.Pricing.Rational.Ceiling.{IsLeast}
use blueballs.Pricing.Rational.Ratios.{
  IsRatio, rational-IsRatio, multiplier, apply_bps-IsRatio, quote_input-IsLeast,
}
use blueballs.Pricing.RiskBook.{Book, RiskError, reserve}
use blueballs.Pricing.RiskBook.Reservations.{IsProjectedWithin}
use blueballs.Pricing.Principal.{
  from_pricing, from_risk, Engine, Request, Quote, Reference, mid_rational, reference_rational,
  priced, check_request, components_of, total_spread, positive_output, preview_exact_output,
  quote_exact_output, required, same_assets, reference_unavailable, mid_not_positive,
  spread_not_positive,
}
use blueballs.Pricing.RiskBook.Repeats.{
  Repeats, Reserves, reserve-cases, two_deltas-IsProjectedWithin,
}

from_pricing-eq-ok :
    {A : Type 0} (m : Outcome PriceError A) {a : A} → from_pricing m ≡ ok a → m ≡ ok a
from_pricing-eq-ok (ok a) h = ap ok (ok-injective h)
from_pricing-eq-ok (err e) h = cc

mid_rational-IsRatio :
    (n d : ℕ) {mid : Rational}
    → mid_rational (some (pos n)) (some (pos d)) ≡ ok mid
    → IsRatio mid n d
unfolding mid_rational
mid_rational-IsRatio n d {mid} made =
    let (value, valued, rest) = >>=-eq-ok (from_pricing (rational (pos n) (pos d))) _ made in
    let (_, same) = >>-eq-ok (throw_if (leb_ℤ value.n (pos 0)) mid_not_positive) _ rest in
    subst (λ r. IsRatio r n d) (ok-injective same)
      (rational-IsRatio n d (from_pricing-eq-ok (rational (pos n) (pos d)) valued))

-- The reference of a request is n / d.
pub record HasMid (q : Request) (n d : ℕ) : Type 0 where
  pub numerator_is : q.reference.numerator ≡ some (pos n)
  pub denominator_is : q.reference.denominator ≡ some (pos d)
  pub denominator_pos : 0 < d

-- The input of a quote is the least that pays for the output at the reference with its spread.
abbrev pub IsCharged : Request → (n d output : ℕ) → Quote → Type 0
IsCharged q n d output quote =
    IsLeast quote.total_input
      (output * (n * multiplier quote.total_spread_bps) * 10 ^ q.input_decimals)
      (d * 10000 * 10 ^ q.output_decimals)

-- The deltas of a quote take the output from the bank and give it the input.
abbrev pub IsBooked : Request → (output : ℕ) → Quote → Type 0
IsBooked q output quote =
    quote.risk_deltas ≡ (q.input_asset, pos quote.total_input) ∷ (q.output_asset, neg output) ∷ []

reference-IsRatio :
    (r : Reference) (n d : ℕ) {mid : Rational}
    → r.numerator ≡ some (pos n)
    → r.denominator ≡ some (pos d)
    → reference_rational r ≡ ok mid
    → IsRatio mid n d
unfolding reference_rational
reference-IsRatio r n d {mid} at_n at_d made =
    let (_, rest) = >>-eq-ok (require r.available reference_unavailable) _ made in
    mid_rational-IsRatio n d (
      subst (λ x. mid_rational (some (pos n)) x ≡ ok mid) at_d
        (subst (λ x. mid_rational x r.denominator ≡ ok mid) at_n rest))

priced-IsCharged :
    (q : Request) (output : ℕ) (components : List ℤ) (spread : ℤ) (n d : ℕ) {quote : Quote}
    → HasMid q n d
    → priced q output components spread ≡ ok quote
    → IsCharged q n d output quote × IsBooked q output quote × (quote.total_spread_bps ≡ spread)
unfolding priced
priced-IsCharged q output components spread n d {quote} at made =
    let (_, first) = >>-eq-ok (throw_if (leb_ℤ spread (negsuc 9999)) spread_not_positive) _ made in
    let (mid, mid_is, second) = >>=-eq-ok (reference_rational q.reference) _ first in
    let (price, price_is, third) = >>=-eq-ok (from_pricing (apply_bps mid spread)) _ second in
    let (total, total_is, done) =
      >>=-eq-ok
        (from_pricing
          (quote_input_atomic_exact_output output price q.output_decimals q.input_decimals))
        _ third in
    let mid_ratio = reference-IsRatio q.reference n d at.numerator_is at.denominator_is mid_is in
    let price_ratio =
      apply_bps-IsRatio mid spread n d mid_ratio
        (from_pricing-eq-ok (apply_bps mid spread) price_is) in
    let charged =
      quote_input-IsLeast output price q.output_decimals q.input_decimals (n * multiplier spread)
        (d * 10000) (omega (arith, at.denominator_pos)) price_ratio
        (from_pricing-eq-ok
          (quote_input_atomic_exact_output output price q.output_decimals q.input_decimals)
          total_is) in
    subst (λ x. IsCharged q n d output x × IsBooked q output x × (x.total_spread_bps ≡ spread))
      (ok-injective done) (charged, refl, refl)

positive_output_lem : (n : ℕ) {m : ℕ} → positive_output (pos n) ≡ ok m → m ≡ n
positive_output_lem n h = ground arith

max_above : (m s : ℤ) → m ≤ℤ (if ltb_ℤ m s then s else m)
max_above m s = ground arith

total_spread_least : (e : Engine) (cs : List ℤ) → e.minimum_spread_bps ≤ℤ total_spread e cs
total_spread_least e cs = max_above e.minimum_spread_bps (sum cs)

-- A preview that returns is priced from the engine's spreads.
preview-IsCharged :
    (e : Engine) (now : ℤ) (q : Request) (n d output : ℕ) {quote : Quote}
    → HasMid q n d
    → q.output_atomic ≡ pos output
    → preview_exact_output e now q ≡ ok quote
    → IsCharged q n d output quote
      × IsBooked q output quote
      × (e.minimum_spread_bps ≤ℤ quote.total_spread_bps)
unfolding preview_exact_output
preview-IsCharged e now q n d output {quote} at asked made =
    let (_, first) = >>-eq-ok (check_request now q) _ made in
    let (out, out_is, second) = >>=-eq-ok (positive_output q.output_atomic) _ first in
    let (components, _, done) = >>=-eq-ok (components_of e q) _ second in
    let same : out ≡ output =
      positive_output_lem output (subst (λ x. positive_output x ≡ ok out) asked out_is) in
    let (charged, booked, spread) =
      priced-IsCharged q out components (total_spread e components) n d at done in
    (
      subst (λ x. IsCharged q n d x quote) same charged,
      subst (λ x. IsBooked q x quote) same booked,
      subst (λ x. e.minimum_spread_bps ≤ℤ x) (sym spread) (total_spread_least e components),
    )

check_request-differ :
    (now : ℤ) (q : Request)
    → check_request now q ≡ ok tt
    → str_eq q.input_asset q.output_asset ≡ false
unfolding check_request
check_request-differ now q passed =
    let (_, first) = >>-eq-ok (throw_if (is_empty q.quote_id) (required "quoteId")) _ passed in
    let (_, second) =
      >>-eq-ok (throw_if (is_empty q.input_asset) (required "inputAsset")) _ first in
    let (_, third) =
      >>-eq-ok (throw_if (is_empty q.output_asset) (required "outputAsset")) _ second in
    let (differ, _) =
      >>-eq-ok (throw_if (str_eq q.input_asset q.output_asset) same_assets) _ third in
    throw_if-eq-ok _ _ differ

preview-differ :
    (e : Engine) (now : ℤ) (q : Request) {quote : Quote}
    → preview_exact_output e now q ≡ ok quote
    → str_eq q.input_asset q.output_asset ≡ false
unfolding preview_exact_output
preview-differ e now q made = check_request-differ now q (>>-eq-ok (check_request now q) _ made).0

from_risk-eq-ok : {A : Type 0} (m : Outcome RiskError A) {a : A} → from_risk m ≡ ok a → m ≡ ok a
from_risk-eq-ok (ok a) h = ap ok (ok-injective h)
from_risk-eq-ok (err e) h = cc

-- The book after a firm quote: the quote repeats its reservation, or its deltas are reserved and both
-- assets' projected positions are within their hard limits.
abbrev pub IsReserved : Request → Book → Book → Quote → Type 0
IsReserved q book book' quote =
    Repeats book book' quote.quote_id quote.risk_deltas quote.expires_at
    ⊎ (Reserves book book' quote.quote_id quote.risk_deltas quote.expires_at
        × (IsProjectedWithin book' q.input_asset × IsProjectedWithin book' q.output_asset))

-- A firm quote for an output, at a reference n / d: the input is the least amount t with
-- output · n · (10000 + spread) · 10^inputDecimals ≤ t · d · 10000 · 10^outputDecimals, where the spread
-- is no less than the engine's minimum. Either the quote already has rows in the risk book, its active
-- rows are those of the deltas, and the book stays; or it had none, rows for its two deltas are added,
-- and both assets' projected positions are within their hard limits.
pub quote_exact_output-IsFirm :
    (e : Engine) (now : ℤ) (q : Request) (book : Book) (n d output : ℕ) {quote : Quote}
    {book' : Book}
    → HasMid q n d
    → q.output_atomic ≡ pos output
    → quote_exact_output e now q book ≡ ok (quote, book')
    → IsCharged q n d output quote
      × (e.minimum_spread_bps ≤ℤ quote.total_spread_bps)
      × IsReserved q book book' quote
unfolding quote_exact_output
quote_exact_output-IsFirm e now q book n d output {quote} {book'} at asked made =
    let (quote0, previewed, first) = >>=-eq-ok (preview_exact_output e now q) _ made in
    let (reserved, is_reserved, done) =
      >>=-eq-ok (from_risk (reserve book now quote0.quote_id quote0.risk_deltas quote0.expires_at))
        _ first in
    let (charged, booked, minimum) = preview-IsCharged e now q n d output at asked previewed in
    let pair = ok-injective done in
    let made_in_book =
      subst (λ ds. reserve book now quote0.quote_id ds quote0.expires_at ≡ ok reserved) booked
        (from_risk-eq-ok (reserve book now quote0.quote_id quote0.risk_deltas quote0.expires_at)
          is_reserved) in
    subst
      (λ r.
        IsCharged q n d output r.0
        × (e.minimum_spread_bps ≤ℤ r.0.total_spread_bps)
        × IsReserved q book r.1 r.0)
      pair
      (
        charged,
        minimum,
        elim (reserve-cases book now quote0.quote_id _ quote0.expires_at reserved.0 made_in_book) [
          | inl same ↦ inl (
              subst (λ ds. Repeats book reserved.1 quote0.quote_id ds quote0.expires_at)
                (sym booked) same)
          | inr (rows, new) ↦ inr (
            subst (λ ds. Reserves book reserved.1 quote0.quote_id ds quote0.expires_at) (sym booked)
                rows,
            two_deltas-IsProjectedWithin book now quote0.quote_id q.input_asset q.output_asset _ _
                quote0.expires_at (preview-differ e now q previewed) new,
          )
        ],
      )
