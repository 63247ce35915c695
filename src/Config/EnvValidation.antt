-- ===== src/Config/EnvValidation.antt =====
-- libs/shared/src/config/env.validation.ts: the `validate` function of `ConfigModule.forRoot()`.
use cinema_microservices.Prelude.{
  [], if◌then◌else◌, ◌∷◌, ◌≡◌, List, String, Option, ltb, ℕ, length, map, true, false,
}
use cinema_microservices.Runtime.Validation.{
  ClassValidator, Property, to_instance, Decorator, Schema, always, fits, is_int, is_string,
  is_not_empty, min, max,
}
use cinema_microservices.Runtime.Value.{
  Fields, Value, template, end, field, or_else, string, undefined, Number, number, natural,
}

-- What a function of the start returns, or the message of the `Error` that it throws.
pub data Started (A : Type 0) : Type 0 where
  returns : A → Started A
  fails : String → Started A

infixl 5 ◌>>=◌
abbrev pub ◌>>=◌ : {A B : Type 0} → Started A → (A → Started B) → Started B
returns a >>= f = f a
fails message >>= f = fails message

-- `String(value)` and `Number(value)`. The environment has texts only.
pub record Conversions : Type 0 where
  pub to_string : Value → Value
  pub to_number : Value → Value
  pub to_string_lem : (s : String) → to_string (string s) ≡ string s
  pub to_number_lem : (n : Number) → to_number (number n) ≡ number n

-- A field of a class for the environment, with its initializer: `undefined` where it has none.
pub record Variable : Type 0 where
  pub field_of : Property
  pub initial : Value

abbrev pub properties : List Variable → Schema
properties [] = []
properties (v ∷ vs) = v.field_of ∷ properties vs

abbrev pub initials : List Variable → Fields
initials [] = end
initials (v ∷ vs) = field v.field_of.name v.initial (initials vs)

-- The fields of the first object and, where it lacks them, those of the second.
unfoldable pub assigned : Fields → Fields → Fields
assigned end defaults = defaults
assigned (field k v rest) defaults = field k v (assigned rest defaults)

-- `plainToInstance` with `enableImplicitConversion`: a new instance, with its initializers, to which
-- the variables that are there are assigned.
unfoldable pub env_instance : List Variable → Fields → Fields
unfolding assigned to_instance
env_instance vs config = assigned (to_instance (properties vs) config) (initials vs)

pub record ValidationError : Type 0 where
  pub property_name : String
  -- The texts of `Object.values(error.constraints)`.
  pub constraints : Option (List String)

-- `validateSync` of class-validator: an error for each property that does not fit.
pub record ValidateSync (validator : ClassValidator) : Type 0 where
  pub errors : Schema → Fields → List ValidationError
  pub errors_fit :
      (schema : Schema) (fs : Fields) → fits validator schema fs ≡ true → errors schema fs ≡ []
  pub errors_unfit :
      (schema : Schema) (fs : Fields)
      → fits validator schema fs ≡ false
      → (e : ValidationError) × (es : List ValidationError) × (errors schema fs ≡ e ∷ es)

-- `Array.prototype.join`
unfoldable pub join : String → List String → String
unfolding template
join separator [] = ""
join separator (s ∷ []) = s
join separator (s ∷ t ∷ rest) = template (s ∷ separator ∷ join separator (t ∷ rest) ∷ [])

abbrev pub error_line : ValidationError → String
error_line error =
    template ("  - " ∷ error.property_name ∷ ": " ∷ join ", " (or_else error.constraints []) ∷ [])

module _ (conversions : Conversions) {validator : ClassValidator}
    (validate_sync : ValidateSync validator) where
  unfoldable pub create_env_validator : List Variable → Fields → Started Fields
  unfolding env_instance
  create_env_validator vs config =
      let validated = env_instance vs config in
      let errors = validate_sync.errors (properties vs) validated in
      if ltb 0 (length errors)
      then fails (
          template
            ("Invalid environment configuration:\n" ∷ join "\n" (map error_line errors) ∷ []))
      else returns validated

module _ (conversions : Conversions) where
  -- A field of type `string`.
  abbrev pub text_variable : String → Value → List Decorator → Variable
  text_variable name initial decorators = record {
    field_of = record {
      name = name;
      transform = conversions.to_string;
      condition = always;
      decorators = decorators;
    };
    initial = initial;
  }

  -- A field with `@Type(() => Number)`.
  abbrev pub number_variable : String → ℕ → List Decorator → Variable
  number_variable name initial decorators = record {
    field_of = record {
      name = name;
      transform = conversions.to_number;
      condition = always;
      decorators = decorators;
    };
    initial = number (natural initial);
  }

  abbrev pub port_variable : String → ℕ → Variable
  port_variable name initial = number_variable name initial (is_int ∷ min 1 ∷ max 65535 ∷ [])

  abbrev pub required_text : String → Variable
  required_text name = text_variable name undefined (is_string ∷ is_not_empty ∷ [])

  unfoldable pub database_env : List Variable
  database_env =
      required_text "DB_HOST"
      ∷ port_variable "DB_PORT" 5432
      ∷ required_text "DB_USER"
      ∷ required_text "DB_PASSWORD"
      ∷ []
