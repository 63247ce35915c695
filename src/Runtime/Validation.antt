-- ===== src/Runtime/Validation.antt =====
-- class-validator, class-transformer and the `ValidationPipe` of NestJS. All are third-party code:
-- the decorators of the program are data, and the packages are records of functions with the
-- documented behaviour as laws.
pub mod Properties
pub mod Cases
use Prim.Native.String.{count}
use cinema_microservices.Prelude.{
  [], if◌then◌else◌, ◌%◌, ◌&&◌, ◌*◌, ◌===◌, ◌==◌, ◌^◌, ◌||◌, ◌∷◌, ◌≡◌, List, String, ℕ, Bool, true,
  false, includes, leb, not, ltb,
}
use cinema_microservices.Runtime.Value.{
  Fields, Number, Value, field, end, number, property, string, undefined, null, natural, is_text,
}
use cinema_microservices.Runtime.Async.{Settled, fulfilled, rejected}
use cinema_microservices.Runtime.Exceptions.{HttpException, http_exception}

-- The decorators that the program uses, but `IsOptional` and `ValidateIf`, which are conditions.
pub data Decorator : Type 0 where
  is_string is_not_empty is_int is_positive is_email : Decorator
  min_length max_length : ℕ → Decorator
  -- `IsNumber({ maxDecimalPlaces, allowNaN: false, allowInfinity: false })`
  is_number : ℕ → Decorator
  min max : ℕ → Decorator

-- A property of a class: its `Transform`, the condition on the object and the value under which it
-- is validated, and its other decorators.
pub record Property : Type 0 where
  pub name : String
  pub transform : Value → Value
  pub condition : Fields → Value → Bool
  pub decorators : List Decorator

abbrev pub Schema : Type 0
Schema = List Property

abbrev pub always : Fields → Value → Bool
always fs v = true

abbrev pub is_nullish : Value → Bool
is_nullish undefined = true
is_nullish null = true
is_nullish v = false

-- `IsOptional()`
abbrev pub unless_nullish : Fields → Value → Bool
unless_nullish fs v = not (is_nullish v)

-- A number is written by its shortest text; any other record stands for no number.
abbrev pub is_shortest : Number → Bool
is_shortest n =
    (n.scale == 0 || not (n.digits % 10 == 0)) && (not n.negative || not (n.digits == 0))

abbrev pub is_integer : Value → Bool
is_integer (number n) = is_shortest n && n.scale == 0
is_integer v = false

abbrev pub has_decimals : ℕ → Value → Bool
has_decimals places (number n) = is_shortest n && leb n.scale places
has_decimals places v = false

-- `bound <= n` and `n <= bound`
abbrev pub at_least : ℕ → Number → Bool
at_least bound n =
    if n.negative then bound == 0 && n.digits == 0 else leb (bound * 10 ^ n.scale) n.digits

abbrev pub at_most : ℕ → Number → Bool
at_most bound n = n.negative || leb n.digits (bound * 10 ^ n.scale)

abbrev pub is_above_zero : Number → Bool
is_above_zero n = not n.negative && ltb 0 n.digits

-- What a decorator accepts. Lengths count code points, as they do in texts without variation
-- selectors.
pub record ClassValidator : Type 0 where
  pub passes : Decorator → Value → Bool
  pub is_string_lem : (v : Value) → passes is_string v ≡ is_text v
  pub is_not_empty_lem : (s : String) → passes is_not_empty (string s) ≡ not (s === "")
  pub min_length_lem : (n : ℕ) (s : String) → passes (min_length n) (string s) ≡ leb n (count s)
  pub max_length_lem : (n : ℕ) (s : String) → passes (max_length n) (string s) ≡ leb (count s) n
  pub is_int_lem : (v : Value) → passes is_int v ≡ is_integer v
  pub is_number_lem : (n : ℕ) (v : Value) → passes (is_number n) v ≡ has_decimals n v
  pub min_lem : (k : ℕ) (n : Number) → passes (min k) (number n) ≡ at_least k n
  pub max_lem : (k : ℕ) (n : Number) → passes (max k) (number n) ≡ at_most k n
  pub is_positive_lem : (n : Number) → passes is_positive (number n) ≡ is_above_zero n
  -- Only a text is an email address.
  pub is_email_lem : (v : Value) → passes is_email v ≡ true → is_text v ≡ true

module _ (validator : ClassValidator) where
  abbrev pub checks : List Decorator → Value → Bool
  checks [] v = true
  checks (d ∷ ds) v = validator.passes d v && checks ds v

  abbrev pub property_fits : Property → Fields → Bool
  property_fits p fs =
      if p.condition fs (property p.name fs) then checks p.decorators (property p.name fs) else true

  unfoldable pub fits : Schema → Fields → Bool
  fits [] fs = true
  fits (p ∷ ps) fs = property_fits p fs && fits ps fs

abbrev pub names : Schema → List String
names [] = []
names (p ∷ ps) = p.name ∷ names ps

-- No property but those of the class.
unfoldable pub all_known : Schema → Fields → Bool
all_known schema end = true
all_known schema (field k v rest) = includes (names schema) k && all_known schema rest

unfoldable pub transformed : Schema → String → Value → Value
transformed [] k v = v
transformed (p ∷ ps) k v = if p.name === k then p.transform v else transformed ps k v

-- `plainToInstance`: each property that is there goes through its `Transform`.
unfoldable pub to_instance : Schema → Fields → Fields
unfolding transformed
to_instance schema end = end
to_instance schema (field k v rest) = field k (transformed schema k v) (to_instance schema rest)

pub record Conforms (validator : ClassValidator) (schema : Schema) (fs : Fields) : Type 0 where
  pub known : all_known schema fs ≡ true
  pub fitting : fits validator schema fs ≡ true

-- The pipe with `whitelist`, `forbidNonWhitelisted` and `transform`, on an object: it passes on the
-- instance if that conforms, and refuses the request otherwise.
pub record ValidationPipe (validator : ClassValidator) : Type 0 where
  pub transform : Schema → Fields → Settled Fields
  pub transform_conforming :
      (schema : Schema) (fs : Fields)
      → Conforms validator schema (to_instance schema fs)
      → transform schema fs ≡ fulfilled (to_instance schema fs)
  pub transform_refused :
      (schema : Schema) (fs : Fields)
      → ¬ Conforms validator schema (to_instance schema fs)
      → (e : HttpException) × (transform schema fs ≡ rejected (http_exception e))
        × (e.status ≡ natural 400)
