-- ===== src/Runtime/Validation/Properties.antt =====
-- What the value of a property is, once its decorators have accepted it.
use Prim.Native.String.{count}
use Prim.Native.String.count.{cons as count-cons}
use cinema_microservices.Prelude.{
  [], if◌then◌else◌, refl, ◌*◌, ◌==◌, ◌∷◌, ◌≡◌, ◌≤◌, ℕ, List, true, false, String, arith, ap, ◌<◌,
  ◌===◌, not,
}
use cinema_microservices.Runtime.Validation.{
  ClassValidator, has_decimals, is_integer, checks, Decorator, is_int, is_number, at_least,
  is_email, is_positive, is_string, min, at_most, max, is_above_zero,
}
use cinema_microservices.Runtime.Value.{Number, Value, number, hundredths, natural, string}

-- A whole number of JavaScript that is not negative is a natural number.
integer-natural :
    (n : Number) → is_integer (number n) ≡ true → n.negative ≡ false → n ≡ natural n.digits
integer-natural n i h = ground arith

at_least-integer :
    (k : ℕ) (n : Number)
    → is_integer (number n) ≡ true
    → at_least k n ≡ true
    → (n.negative ≡ false) × (k ≤ n.digits)
at_least-integer k n i h = ground arith

at_most-integer :
    (k : ℕ) (n : Number)
    → is_integer (number n) ≡ true
    → n.negative ≡ false
    → at_most k n ≡ true
    → n.digits ≤ k
at_most-integer k n i s h = ground arith

pub not_empty-count : (s : String) → not (s === "") ≡ true → 0 < count s
not_empty-count String.[] h = cc
not_empty-count (String.◌∷◌ c s) h = ground (arith, count-cons c s)

-- A price with two decimals is a number of cents.
cents_of : Number → ℕ
cents_of n =
    if n.scale == 0 then n.digits * 100 else if n.scale == 1 then n.digits * 10 else n.digits

hundredths-cents_of :
    (n : Number)
    → has_decimals 2 (number n) ≡ true
    → at_least 0 n ≡ true
    → n ≡ hundredths (cents_of n)
unfolding cents_of
hundredths-cents_of n h k = ground arith

cents_of-le :
    (b : ℕ) (n : Number)
    → has_decimals 2 (number n) ≡ true
    → at_least 0 n ≡ true
    → at_most b n ≡ true
    → cents_of n ≤ b * 100
unfolding cents_of
cents_of-le b n h k m = ground arith

module _ (validator : ClassValidator) where
  pub string_property :
      (v : Value) (ds : List Decorator)
      → checks validator (is_string ∷ ds) v ≡ true
      → (s : String) × (v ≡ string s) × (checks validator ds (string s) ≡ true)
  string_property (string s) ds h = (s, refl, ground arith)
  string_property v ds h = let e = validator.is_string_lem v in cc

  pub email_property :
      (v : Value) (ds : List Decorator)
      → checks validator (is_email ∷ ds) v ≡ true
      → (s : String) × (v ≡ string s) × (checks validator ds (string s) ≡ true)
  email_property (string s) ds h = (s, refl, ground arith)
  email_property v ds h = let e = validator.is_email_lem v (ground arith) in cc

  pub between_property :
      (a b : ℕ) (v : Value)
      → checks validator (is_int ∷ min a ∷ max b ∷ []) v ≡ true
      → (d : ℕ) × (v ≡ number (natural d)) × (a ≤ d) × (d ≤ b)
  between_property a b (number n) h =
      let i = validator.is_int_lem (number n) in
      let l = validator.min_lem a n in
      let u = validator.max_lem b n in
      let whole : is_integer (number n) ≡ true = ground arith in
      let (sign, low) = at_least-integer a n whole (ground arith) in
      (
        n.digits,
        ap number (integer-natural n whole sign),
        low,
        at_most-integer b n whole sign (ground arith),
      )
  between_property a b v h = let e = validator.is_int_lem v in cc

  pub from_property :
      (a : ℕ) (v : Value)
      → checks validator (is_int ∷ min a ∷ []) v ≡ true
      → (d : ℕ) × (v ≡ number (natural d)) × (a ≤ d)
  from_property a (number n) h =
      let i = validator.is_int_lem (number n) in
      let l = validator.min_lem a n in
      let whole : is_integer (number n) ≡ true = ground arith in
      let (sign, low) = at_least-integer a n whole (ground arith) in
      (n.digits, ap number (integer-natural n whole sign), low)
  from_property a v h = let e = validator.is_int_lem v in cc

  pub positive_property :
      (v : Value)
      → checks validator (is_int ∷ is_positive ∷ []) v ≡ true
      → (d : ℕ) × (v ≡ number (natural d)) × (1 ≤ d)
  positive_property (number n) h =
      let i = validator.is_int_lem (number n) in
      let p = validator.is_positive_lem n in
      let whole : is_integer (number n) ≡ true = ground arith in
      let above : is_above_zero n ≡ true = ground arith in
      (n.digits, ap number (integer-natural n whole (ground arith)), ground arith)
  positive_property v h = let e = validator.is_int_lem v in cc

  pub price_property :
      (b : ℕ) (v : Value)
      → checks validator (is_number 2 ∷ min 0 ∷ max b ∷ []) v ≡ true
      → (c : ℕ) × (v ≡ number (hundredths c)) × (c ≤ b * 100)
  price_property b (number n) h =
      let i = validator.is_number_lem 2 (number n) in
      let l = validator.min_lem 0 n in
      let u = validator.max_lem b n in
      let two : has_decimals 2 (number n) ≡ true = ground arith in
      let low : at_least 0 n ≡ true = ground arith in
      (
        cents_of n,
        ap number (hundredths-cents_of n two low),
        cents_of-le b n two low (ground arith),
      )
  price_property b v h = let e = validator.is_number_lem 2 v in cc
