-- ===== src/Shared/Money/Exact.antt =====
-- Sums of prices in whole cents (libs/shared/src/database/decimal.transformer.ts).
use cinema_microservices.Prelude.{◌*◌, ◌<◌, ◌^◌, ◌≡◌, ℕ, arith}
use cinema_microservices.Shared.Money.{Arithmetic, to_cents, from_cents}
use cinema_microservices.Runtime.Value.{hundredths, natural}

module _ (arithmetic : Arithmetic) where
  -- A price of `c` cents times a quantity, computed as the order service does, is exactly the
  -- product of the cents.
  pub from_cents-times-to_cents :
      (c quantity : ℕ)
      → c < 2 ^ 46
      → c * quantity < 2 ^ 46
      → from_cents arithmetic
          (arithmetic.times (to_cents arithmetic (hundredths c)) (natural quantity))
        ≡ hundredths (c * quantity)
  unfolding to_cents from_cents
  from_cents-times-to_cents c quantity h k =
      rw (arithmetic.round_times_hundred c h, arithmetic.times_exact c quantity (omega arith))
        (arithmetic.over_hundred (c * quantity) k)
