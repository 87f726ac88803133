-- ===== src/Pricing/Principal/Tests.antt =====
-- Tests of packages/fx-pricing/src/principal-pricing.js: a bank that sells EUR for USD.
use blueballs.Prelude.{ℕ, String, ◌≡◌, refl, true, false, some, [], ◌∷◌, ok, err, arith}
use blueballs.Prelude.Int.{ℤ, pos, negsuc, ◌≤ℤ◌, ◌+ℤ◌, ◌*ℤ◌}
use blueballs.Prelude.Dict.{lookup}
use blueballs.Pricing.Rational.{rational, apply_bps, quote_input_atomic_exact_output}
use blueballs.Pricing.RiskBook.{reserve, Reservation, Book}
use blueballs.Pricing.Principal.{
  negative, not_safe, same_assets, expires_at_not_future, output_not_positive,
  reference_unavailable, Engine, Reference, Request, Quote, new_engine, quote_of,
  preview_exact_output, quote_exact_output,
}
use blueballs.Pricing.Principal.Economics.{HasMid, IsCharged, IsReserved, quote_exact_output-IsFirm}

abbrev engine : Engine
engine = record { base_spread_bps = pos 5; minimum_spread_bps = pos 2 }

abbrev reference : Reference
reference = record {
  available = true;
  numerator = some (pos 110);
  denominator = some (pos 100);
  mid = "1.1";
}

-- A request for 1 EUR and a cent's ten-thousandth, in units of a millionth.
abbrev request : Request
request = record {
  quote_id = "q";
  input_asset = "USD";
  output_asset = "EUR";
  output_atomic = pos 1000001;
  input_decimals = 6;
  output_decimals = 6;
  reference = reference;
  expires_at = pos 60;
  volatility_bps = pos 0;
  size_bps = pos 3;
  corridor_bps = pos 0;
  rail_bps = pos 0;
  inventory_bps = negsuc 2;
}

abbrev book : (limit : ℕ) → Book
book limit = record {
  positions =
      ("USD", record { settled = pos 0; hard_limit = pos limit })
      ∷ ("EUR", record { settled = pos 0; hard_limit = pos limit })
      ∷ [];
  reservations = [];
  events = [];
}

abbrev quote : Quote
quote =
    quote_of request 1000001 (pos 5 ∷ pos 0 ∷ pos 3 ∷ pos 0 ∷ pos 0 ∷ negsuc 2 ∷ []) (pos 5)
      (record { n = pos 22011; d = 20000 }) 1100552

abbrev row : String → ℤ → Reservation
row asset delta = record {
  quote_id = "q";
  asset = asset;
  delta = delta;
  expires_at = pos 60;
  state = "ACTIVE";
}

abbrev reserved_book : Book
reserved_book = record (book 2000000) {
  reservations = row "USD" (pos 1100552) ∷ row "EUR" (negsuc 1000000) ∷ [];
}

previewed : preview_exact_output engine (pos 0) request ≡ ok quote
unfolding preview_exact_output ◌+ℤ◌ ◌*ℤ◌ rational apply_bps quote_input_atomic_exact_output
previewed = refl

made_firm : quote_exact_output engine (pos 0) request (book 2000000) ≡ ok (quote, reserved_book)
unfolding quote_exact_output ◌+ℤ◌ ◌*ℤ◌ rational apply_bps quote_input_atomic_exact_output reserve
    lookup
made_firm = refl

repeated : quote_exact_output engine (pos 0) request reserved_book ≡ ok (quote, reserved_book)
unfolding quote_exact_output ◌+ℤ◌ ◌*ℤ◌ rational apply_bps quote_input_atomic_exact_output reserve
    lookup
repeated = refl

too_late : preview_exact_output engine (pos 60) request ≡ err expires_at_not_future
unfolding preview_exact_output
too_late = refl

no_reference :
    preview_exact_output engine
      (pos 0)
      (record request { reference = record reference { available = false } })
    ≡ err reference_unavailable
unfolding preview_exact_output ◌+ℤ◌
no_reference = refl

no_output :
    preview_exact_output engine (pos 0) (record request { output_atomic = pos 0 })
    ≡ err output_not_positive
unfolding preview_exact_output
no_output = refl

bad_rail :
    preview_exact_output engine (pos 0) (record request { rail_bps = negsuc 0 })
    ≡ err (negative "railBps")
unfolding preview_exact_output
bad_rail = refl

same_asset :
    preview_exact_output engine (pos 0) (record request { output_asset = "USD" }) ≡ err same_assets
unfolding preview_exact_output
same_asset = refl

bad_engine : new_engine (pos 0x20_0000_0000_0000) (pos 0) ≡ err (not_safe "baseSpreadBps")
unfolding new_engine
bad_engine = refl

request_mid : HasMid request 110 100
request_mid = record { numerator_is = refl; denominator_is = refl; denominator_pos = omega arith }

quote_exact_output-IsFirm_example :
    IsCharged request 110 100 1000001 quote
    × (pos 2 ≤ℤ pos 5)
    × IsReserved request (book 2000000) reserved_book quote
quote_exact_output-IsFirm_example =
    quote_exact_output-IsFirm engine (pos 0) request (book 2000000) 110 100 1000001 request_mid refl
      made_firm
