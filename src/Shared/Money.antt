-- ===== src/Shared/Money.antt =====
-- libs/shared/src/database/decimal.transformer.ts: prices as numbers, and sums in whole cents.
--
-- JavaScript computes with IEEE doubles and PostgreSQL with NUMERIC. `Arithmetic` is the interface
-- to both, with the facts about them that the code relies on; the bounds are far above every price.
pub mod Exact
pub mod Decimal
use cinema_microservices.Prelude.{◌*◌, ◌<◌, ◌^◌, ◌≡◌, String, ℕ, Option, some}
use cinema_microservices.Runtime.Value.{Number, Value, natural, string, number, hundredths}

pub record Arithmetic : Type 0 where
  -- `a * b`, `a / b` and `Math.round(a)` on doubles.
  pub times : Number → Number → Number
  pub over : Number → Number → Number
  pub round : Number → Number
  -- A column NUMERIC(precision, scale): the stored value, or none if it is too large.
  pub numeric : (precision scale : ℕ) → Number → Option Number
  -- A product of whole numbers below 2 ^ 53 is exact.
  pub times_exact : (a b : ℕ) → a * b < 2 ^ 53 → times (natural a) (natural b) ≡ natural (a * b)
  -- A whole number of cents divided by 100 prints as that number with two decimals.
  pub over_hundred : (c : ℕ) → c < 2 ^ 46 → over (natural c) (natural 100) ≡ hundredths c
  -- A price with two decimals times 100 misses the whole number by much less than one half.
  pub round_times_hundred :
      (c : ℕ) → c < 2 ^ 46 → round (times (hundredths c) (natural 100)) ≡ natural c
  -- A stored value is stored as it is when it comes again.
  pub numeric_again :
      (precision scale : ℕ) (v w : Number)
      → numeric precision scale v ≡ some w
      → numeric precision scale w ≡ some w
  -- A value with two decimals that fits is stored as it is.
  pub numeric_hundredths :
      (precision c : ℕ)
      → c < 10 ^ precision
      → numeric precision 2 (hundredths c) ≡ some (hundredths c)

module _ (arithmetic : Arithmetic) where
  open arithmetic use {times, over, round}

  -- `Math.round(amount * 100)`
  unfoldable pub to_cents : Number → Number
  to_cents amount = round (times amount (natural 100))

  -- `cents / 100`
  unfoldable pub from_cents : Number → Number
  from_cents cents = over cents (natural 100)

-- `decimalTransformer.from`: `null` and `undefined` stay, a text becomes its number; `to` is the
-- identity.
unfoldable pub decimal_from : (String → Number) → Value → Value
decimal_from parse (string s) = number (parse s)
decimal_from parse v = v

unfoldable pub decimal_to : Value → Value
decimal_to v = v
