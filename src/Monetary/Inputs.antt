-- ===== src/Monetary/Inputs.antt =====
-- What `MonetaryEngine` in packages/fx-monetary/src/index.js accepts as arguments, how it fails, and the
-- events that it writes. An amount is `none` where its text does not fit the pattern of unsigned
-- integers.
use blueballs.Prelude.{
  ℕ, String, ◌&&◌, Option, none, some, leb, ◌==◌, is_empty, trim, upper, if◌then◌else◌, Outcome, ok,
  err, ◌>>=◌, require,
}
use blueballs.Monetary.Tables.{EventKind, Event}

pub data EngineError : Type 0 where
  validation_error not_found invalid_state instrument_disabled instrument_has_supply : EngineError
  reserve_replay insufficient_settled_reserve coverage_limit insufficient_supply : EngineError

-- `requiredString`
unfoldable pub required_string : String → Outcome EngineError String
required_string value = if is_empty (trim value) then err validation_error else ok (trim value)

-- `requiredString(value).toUpperCase()`
unfoldable pub required_code : String → Outcome EngineError String
unfolding required_string
required_code value = do text ← required_string value; ok (upper text)

-- `atomic`
unfoldable pub atomic : Option ℕ → Outcome EngineError ℕ
atomic none = err validation_error
atomic (some n) = if n == 0 then err validation_error else ok n

-- `safeInteger`, on a number that is not negative.
unfoldable pub safe_integer : ℕ → ℕ → ℕ → Outcome EngineError (Unit {0})
safe_integer value low high = require (leb low value && leb value high) validation_error

abbrev pub event : EventKind → Option String → String → ℕ → Event
event kind code currency amount = record {
  kind = kind;
  instrument_code = code;
  reserve_currency = currency;
  amount = amount;
}
