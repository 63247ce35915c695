-- ===== src/Runtime/Value.antt =====
-- JavaScript values, as far as JSON messages carry them, and the text of numbers.
--
-- A finite JavaScript number is given by its shortest decimal text, which is what `toString`,
-- JSON and a PostgreSQL NUMERIC column show: `digits` divided by ten to the power `scale`.
use Prim.Native.String
use cinema_microservices.Prelude.{
  ℕ, zero, suc, ◌/◌, ◌%◌, String, Bool, true, false, ◌≡◌, refl, Option, none, some, List, [], ◌∷◌,
  ltb, ◌==◌, ◌===◌, if◌then◌else◌,
}

pub record Number : Type 0 where
  pub negative : Bool
  pub digits : ℕ
  pub scale : ℕ

abbrev pub natural : ℕ → Number
natural n = record { negative = false; digits = n; scale = 0 }

-- An amount of whole hundredths, as its shortest decimal text.
abbrev pub hundredths : ℕ → Number
hundredths c =
    if c % 10 == 0
    then (if c % 100 == 0
        then record { negative = false; digits = c / 100; scale = 0 }
        else record { negative = false; digits = c / 10; scale = 1 })
    else record { negative = false; digits = c; scale = 2 }

mutual
  pub data Value : Type 0 where
    undefined : Value
    null : Value
    boolean : Bool → Value
    number : Number → Value
    string : String → Value
    array : Elements → Value
    object : Fields → Value

  pub data Elements : Type 0 where
    nil : Elements
    cons : Value → Elements → Elements

  pub data Fields : Type 0 where
    end : Fields
    field : String → Value → Fields → Fields

-- `value.key`: `undefined` where the key is absent.
abbrev pub property : String → Fields → Value
property key end = undefined
property key (field k v rest) = if k === key then v else property key rest

-- `"key" in value`
abbrev pub has_key : String → Fields → Bool
has_key key end = false
has_key key (field k v rest) = if k === key then true else has_key key rest

-- `a ?? b`
abbrev pub nullish_or : Value → Value → Value
nullish_or undefined b = b
nullish_or null b = b
nullish_or a b = a

abbrev pub is_number : Value → Bool
is_number (number n) = true
is_number v = false

abbrev pub is_text : Value → Bool
is_text (string s) = true
is_text v = false

-- `a ?? b` at an optional property whose value is never `null`.
abbrev pub or_else {ℓ} : {A : Type ℓ} → Option A → A → A
or_else none b = b
or_else (some a) b = a

digit : ℕ → String
digit d =
    if d == 0
    then "0"
    else if d == 1
    then "1"
    else if d == 2
    then "2"
    else if d == 3
    then "3"
    else if d == 4
    then "4"
    else if d == 5
    then "5"
    else if d == 6
    then "6"
    else if d == 7
    then "7"
    else if d == 8
    then "8"
    else "9"

-- One digit a round: `n + 1` rounds are enough for `n`.
show_from : ℕ → ℕ → String → String
show_from zero n acc = acc
show_from (suc fuel) n acc =
    let rest = show_from fuel (n / 10) (String.◌++◌ (digit (n % 10)) acc) in
    if ltb n 10 then String.◌++◌ (digit n) acc else rest

-- The text of a natural number inside a template literal.
unfoldable pub show : ℕ → String
unfolding digit show_from
show n = show_from (suc n) n ""

-- A template literal: its parts in order.
unfoldable pub template : List String → String
template [] = ""
template (s ∷ rest) = String.◌++◌ s (template rest)

show_test : template ("Movie " ∷ show 4207 ∷ " not found" ∷ []) ≡ "Movie 4207 not found"
unfolding show template
show_test = refl
