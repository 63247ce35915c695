-- ===== src/Tests/Validators.antt =====
-- The packages that validate objects, with no more in them than their documented behaviour.
use cinema_microservices.Runtime.Validation.{
  is_number, has_decimals, min, at_least, max, at_most, is_string, is_not_empty, is_int,
  is_positive, is_email,
}
use Prim.Native.String.{count}
use cinema_microservices.Prelude.{
  [], if◌then◌else◌, refl, ◌&&◌, ◌===◌, ◌∷◌, ◌≡◌, List, none, Bool, Bool-cases, not, inl, true, inr,
  false, leb,
}
use cinema_microservices.Config.EnvValidation.{Conversions, ValidateSync, ValidationError, returns}
use cinema_microservices.Runtime.Validation.{
  ClassValidator, Decorator, Schema, ValidationPipe, Conforms, all_known, to_instance, fits,
  is_integer, is_above_zero, min_length, max_length,
}
use cinema_microservices.Runtime.Value.{
  Fields, Value, property, has_key, is_text, string, natural, number,
}
use cinema_microservices.Shared.Dtos.Schemas.{Texts}
use cinema_microservices.Config.Wiring.{ConfigService}
use cinema_microservices.Runtime.Async.{Settled, fulfilled, rejected}
use cinema_microservices.Runtime.Exceptions.{HttpException, http_exception, documented}
use cinema_microservices.Config.CommandLine.{property-unset}

abbrev passes : Decorator → Value → Bool
passes is_string v = is_text v
passes is_not_empty (string s) = not (s === "")
passes is_not_empty v = true
passes is_int v = is_integer v
passes is_positive (number n) = is_above_zero n
passes is_positive v = false
passes is_email v = is_text v
passes (min_length n) (string s) = leb n (count s)
passes (min_length n) v = false
passes (max_length n) (string s) = leb (count s) n
passes (max_length n) v = false
passes (is_number n) v = has_decimals n v
passes (min k) (number n) = at_least k n
passes (min k) v = false
passes (max k) (number n) = at_most k n
passes (max k) v = false

abbrev pub class_validator : ClassValidator
class_validator = record {
  passes = passes;
  is_string_lem = λ v. refl;
  is_not_empty_lem = λ s. refl;
  min_length_lem = λ n s. refl;
  max_length_lem = λ n s. refl;
  is_int_lem = λ v. refl;
  is_number_lem = λ n v. refl;
  min_lem = λ k n. refl;
  max_lem = λ k n. refl;
  is_positive_lem = λ n. refl;
  is_email_lem = λ v h. h;
}

abbrev whole_transform : Schema → Fields → Settled Fields
whole_transform schema fs =
    if all_known schema (to_instance schema fs)
      && fits class_validator schema (to_instance schema fs)
    then fulfilled (to_instance schema fs)
    else rejected (http_exception (documented.bad_request "Bad Request"))

pub whole_transform-conforming :
    (schema : Schema) (fs : Fields)
    → Conforms class_validator schema (to_instance schema fs)
    → whole_transform schema fs ≡ fulfilled (to_instance schema fs)
whole_transform-conforming schema fs c = rw (c.known, c.fitting) refl

pub whole_transform-refused :
    (schema : Schema) (fs : Fields)
    → ¬ Conforms class_validator schema (to_instance schema fs)
    → (e : HttpException) × (whole_transform schema fs ≡ rejected (http_exception e))
      × (e.status ≡ natural 400)
whole_transform-refused schema fs n = elim (Bool-cases (all_known schema (to_instance schema fs))) [
  | inr unknown ↦ (documented.bad_request "Bad Request", rw (unknown) refl, refl)
  | inl known ↦ elim (Bool-cases (fits class_validator schema (to_instance schema fs))) [
    | inr unfit ↦ (documented.bad_request "Bad Request", rw (known, unfit) refl, refl)
    | inl fitting ↦ elim (n (record { known = known; fitting = fitting })) [ ]
  ]
]

abbrev pub validation_pipe : ValidationPipe class_validator
validation_pipe = record {
  transform = whole_transform;
  transform_conforming = whole_transform-conforming;
  transform_refused = whole_transform-refused;
}

-- Texts that need no trimming and have no capitals.
abbrev pub plain_texts : Texts
plain_texts = record { trim = λ s. s; to_lower_case = λ s. s }

abbrev pub conversions : Conversions
conversions = record {
  to_string = λ v. v;
  to_number = λ v. v;
  to_string_lem = λ s. refl;
  to_number_lem = λ n. refl;
}

abbrev all_errors : Schema → Fields → List ValidationError
all_errors schema fs =
    if fits class_validator schema fs
    then []
    else record { property_name = "environment"; constraints = none } ∷ []

abbrev pub validate_sync : ValidateSync class_validator
validate_sync = record {
  errors = all_errors;
  errors_fit = λ schema fs h. rw (h) refl;
  errors_unfit = λ schema fs h.
      (record { property_name = "environment"; constraints = none }, [], rw (h) refl);
}

-- A `ConfigService` that knows the validated environment only.
abbrev pub config_of : (fs : Fields) → ConfigService fs
config_of fs = record {
  get = λ k. property k fs;
  get_or = λ k v. if has_key k fs then property k fs else v;
  get_or_throw = λ k. returns (property k fs);
  get_lem = λ k h. refl;
  get_or_lem = λ k v h. elim (Bool-cases (has_key k fs)) [
    | inl set ↦ rw (set) refl
    | inr unset ↦ elim (h (property-unset k fs unset)) [ ]
  ];
  get_or_throw_lem = λ k h. refl;
}
