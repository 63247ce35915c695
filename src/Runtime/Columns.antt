-- ===== src/Runtime/Columns.antt =====
-- Column types and constraints of PostgreSQL tables, from which a service describes its own table.
-- A value that they refuse yields the SQLSTATE of the violation.
use cinema_microservices.Prelude.{
  if◌then◌else◌, ◌==◌, ◌||◌, Bool, Option, ℕ, String, ltb, not, some, none, true, false, ◌≡◌, arith,
}
use Prim.Native.String.{count}
use cinema_microservices.Runtime.Repository.{Accepted, stores, violates}
use cinema_microservices.Runtime.Value.{Number, hundredths}

infixl 5 ◌>>=◌
abbrev pub ◌>>=◌ : {A B : Type 0} → Accepted A → (A → Accepted B) → Accepted B
stores a >>= f = f a
violates code >>= f = violates code

-- NOT NULL
abbrev pub required : {A : Type 0} → Option A → Accepted A
required none = violates "23502"
required (some a) = stores a

-- character varying(n), which counts characters. The texts here have no U+0000: PostgreSQL refuses it
-- in every text, with 22021.
abbrev pub varchar : ℕ → String → Accepted String
varchar n s = if ltb n (count s) then violates "22001" else stores s

-- smallint; the values of the program are not negative
abbrev pub smallint : ℕ → Accepted ℕ
smallint n = if ltb 32767 n then violates "22003" else stores n

-- integer
abbrev pub integer : ℕ → Accepted ℕ
integer n = if ltb 2147483647 n then violates "22003" else stores n

-- numeric(precision, scale)
abbrev pub in_numeric : Option Number → Accepted Number
in_numeric none = violates "22003"
in_numeric (some n) = stores n

-- CHECK
abbrev pub check : {A : Type 0} → Bool → A → Accepted A
check true a = stores a
check false a = violates "23514"

-- `n >= 0`
abbrev pub non_negative : Number → Bool
non_negative n = not n.negative || n.digits == 0

-- No amount of hundredths is negative.
pub non_negative-hundredths : (c : ℕ) → non_negative (hundredths c) ≡ true
non_negative-hundredths c = ground arith
