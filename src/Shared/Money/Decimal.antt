-- ===== src/Shared/Money/Decimal.antt =====
-- Exact arithmetic on amounts with two decimals. It meets the laws of `Arithmetic`, so that these
-- can be met together, and serves where a theorem is applied to concrete prices.
use cinema_microservices.Prelude.{
  if◌then◌else◌, refl, ◌*◌, ◌+◌, ◌/◌, ◌<◌, ◌==◌, ◌^◌, ◌≡◌, ℕ, Option, some, Bool-cases, arith, ltb,
  ap, inl, none, inr,
}
use cinema_microservices.Runtime.Value.{Number, hundredths, natural}
use cinema_microservices.Shared.Money.{Arithmetic}

abbrev pub as_hundredths : Number → ℕ
as_hundredths n =
    if n.scale == 0 then n.digits * 100 else if n.scale == 1 then n.digits * 10 else n.digits

pub as_hundredths-hundredths : (c : ℕ) → as_hundredths (hundredths c) ≡ c
as_hundredths-hundredths c = ground arith

pub as_hundredths-natural : (n : ℕ) → as_hundredths (natural n) ≡ n * 100
as_hundredths-natural n = refl

pub hundredths-whole : (n : ℕ) → hundredths (n * 100) ≡ natural n
hundredths-whole n = ground arith

times : Number → Number → Number
times a b = hundredths (as_hundredths a * as_hundredths b / 100)

over : Number → Number → Number
over a b = hundredths (as_hundredths a * 100 / as_hundredths b)

round : Number → Number
round a = natural ((as_hundredths a + 50) / 100)

numeric : ℕ → ℕ → Number → Option Number
numeric precision scale v = if ltb (as_hundredths v) (10 ^ precision) then some v else none

times_exact_lem : (a b : ℕ) → times (natural a) (natural b) ≡ natural (a * b)
unfolding times
times_exact_lem a b =
    let e : as_hundredths (natural a) * as_hundredths (natural b) / 100 ≡ a * b * 100 =
      rw (as_hundredths-natural, as_hundredths-natural) (omega arith) in
    rw e (hundredths-whole (a * b))

over_hundred_lem : (c : ℕ) → over (natural c) (natural 100) ≡ hundredths c
unfolding over
over_hundred_lem c =
    let e : as_hundredths (natural c) * 100 / as_hundredths (natural 100) ≡ c =
      rw (as_hundredths-natural c, as_hundredths-natural 100) (omega arith) in
    rw e

round_times_hundred_lem : (c : ℕ) → round (times (hundredths c) (natural 100)) ≡ natural c
unfolding round times
round_times_hundred_lem c =
    let e : as_hundredths (hundredths c) * as_hundredths (natural 100) / 100 ≡ c * 100 =
      rw (as_hundredths-hundredths c, as_hundredths-natural 100) (omega arith) in
    rw (e, as_hundredths-hundredths (c * 100)) (ap natural (omega arith))

numeric_hundredths_lem :
    (precision c : ℕ)
    → c < 10 ^ precision
    → numeric precision 2 (hundredths c) ≡ some (hundredths c)
unfolding numeric
numeric_hundredths_lem precision c h = rw (as_hundredths-hundredths c) (ground arith)

numeric_again_lem :
    (precision scale : ℕ) (v w : Number)
    → numeric precision scale v ≡ some w
    → numeric precision scale w ≡ some w
unfolding numeric
numeric_again_lem precision scale v w h =
    elim (Bool-cases (ltb (as_hundredths v) (10 ^ precision))) [
      | inl fits ↦ let same : v ≡ w = ground arith in rw (← same, fits)
      | inr too_large ↦ ground arith
    ]

unfoldable pub decimal : Arithmetic
unfolding times over round numeric times_exact_lem over_hundred_lem round_times_hundred_lem
    numeric_hundredths_lem numeric_again_lem
decimal = record {
  times = times;
  over = over;
  round = round;
  numeric = numeric;
  times_exact = λ a b h. times_exact_lem a b;
  over_hundred = λ c h. over_hundred_lem c;
  round_times_hundred = λ c h. round_times_hundred_lem c;
  numeric_again = numeric_again_lem;
  numeric_hundredths = numeric_hundredths_lem;
}
