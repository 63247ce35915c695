-- ===== src/Config/Accepted.antt =====
-- What the decorators of the environment classes (libs/shared/src/config/env.validation.ts and
-- apps/*/src/config) say of an accepted variable.
use Prim.Native.String.{count}
use cinema_microservices.Prelude.{
  [], ◌===◌, ◌∷◌, ◌≡◌, ◌≤◌, ℕ, String, List, true, arith, some, Bool-cases, and_parts, inl, subst,
  inr,
}
use cinema_microservices.Config.EnvValidation.{
  Conversions, ValidateSync, Variable, create_env_validator, properties, env_instance, returns,
  number_variable, port_variable, text_variable,
}
use cinema_microservices.Runtime.Validation.{
  ClassValidator, checks, fits, is_string, is_not_empty, min_length, property_fits, is_int, min,
}
use cinema_microservices.Runtime.Value.{Value, number, natural, string, Fields, property}
use cinema_microservices.Config.Instance.{variable_at}
use cinema_microservices.Runtime.Validation.Properties.{
  string_property, not_empty-count, between_property, from_property,
}

abbrev pub IsPort : Value → Type 0
IsPort v = (n : ℕ) × (v ≡ number (natural n)) × (1 ≤ n) × (n ≤ 65535)

abbrev pub IsFrom : ℕ → Value → Type 0
IsFrom low v = (n : ℕ) × (v ≡ number (natural n)) × (low ≤ n)

abbrev pub IsTextFrom : ℕ → Value → Type 0
IsTextFrom low v = (s : String) × (v ≡ string s) × (low ≤ count s)

module _ (conversions : Conversions) {validator : ClassValidator}
    (validate_sync : ValidateSync validator) (vs : List Variable) (config fs : Fields) where
  -- The validator has returned `fs`.
  abbrev pub Accepts : Type 0
  Accepts = create_env_validator conversions validate_sync vs config ≡ returns fs

  pub accepted_parts :
      Accepts → (env_instance vs config ≡ fs) × (fits validator (properties vs) fs ≡ true)
  unfolding create_env_validator
  accepted_parts h = elim (Bool-cases (fits validator (properties vs) (env_instance vs config))) [
    | inl fine ↦
        let none_wrong = validate_sync.errors_fit (properties vs) (env_instance vs config) fine in
        let it : env_instance vs config ≡ fs = ground arith in
        (it, subst (λ x. fits validator (properties vs) x ≡ true) it fine)
    | inr unfit ↦
        let (e, es, wrong) =
          validate_sync.errors_unfit (properties vs) (env_instance vs config) unfit in
        (ground arith, ground arith)
  ]

module _ (validator : ClassValidator) where
  fits-variable_at :
      (k : String) (vs : List Variable) (v : Variable) (fs : Fields)
      → fits validator (properties vs) fs ≡ true
      → variable_at k vs ≡ some v
      → property_fits validator v.field_of fs ≡ true
  unfolding fits
  fits-variable_at k [] v fs h at = cc
  fits-variable_at k (u ∷ vs) v fs h at =
      let (first, rest) =
        and_parts (property_fits validator u.field_of fs) (fits validator (properties vs) fs) h in
      elim (Bool-cases (u.field_of.name === k)) [
        | inl same ↦
            let it : u ≡ v = ground arith in
            subst (λ (x : Variable). property_fits validator x.field_of fs ≡ true) it first
        | inr other ↦ fits-variable_at k vs v fs rest (ground arith)
      ]

  text_property :
      (n : ℕ) (v : Value)
      → checks validator (is_string ∷ min_length n ∷ []) v ≡ true
      → IsTextFrom n v
  text_property n v h =
      let (s, is_s, rest) = string_property validator v (min_length n ∷ []) h in
      let l = validator.min_length_lem n s in (s, is_s, ground arith)

  not_empty_property :
      (v : Value) → checks validator (is_string ∷ is_not_empty ∷ []) v ≡ true → IsTextFrom 1 v
  not_empty_property v h =
      let (s, is_s, rest) = string_property validator v (is_not_empty ∷ []) h in
      let l = validator.is_not_empty_lem s in (s, is_s, not_empty-count s (ground arith))

module _ (conversions : Conversions) {validator : ClassValidator}
    (validate_sync : ValidateSync validator) (vs : List Variable) (config fs : Fields) where
  module _ (accepted : Accepts conversions validate_sync vs config fs) where
    variable_fits :
        (k : String) (v : Variable)
        → variable_at k vs ≡ some v
        → property_fits validator v.field_of fs ≡ true
    variable_fits k v at =
        fits-variable_at validator k vs v fs
          (accepted_parts conversions validate_sync vs config fs accepted).1 at

    pub variable_at-IsPort :
        (k : String) (initial : ℕ)
        → variable_at k vs ≡ some (port_variable conversions k initial)
        → IsPort (property k fs)
    variable_at-IsPort k initial at =
        between_property validator 1 65535 (property k fs)
          (variable_fits k (port_variable conversions k initial) at)

    pub not_empty_at :
        (k : String) (initial : Value)
        → variable_at k vs
          ≡ some (text_variable conversions k initial (is_string ∷ is_not_empty ∷ []))
        → IsTextFrom 1 (property k fs)
    not_empty_at k initial at =
        not_empty_property validator (property k fs)
          (variable_fits k (text_variable conversions k initial (is_string ∷ is_not_empty ∷ [])) at)

    pub text_from_at :
        (k : String) (n : ℕ) (initial : Value)
        → variable_at k vs
          ≡ some (text_variable conversions k initial (is_string ∷ min_length n ∷ []))
        → IsTextFrom n (property k fs)
    text_from_at k n initial at =
        text_property validator n (property k fs)
          (variable_fits k (text_variable conversions k initial (is_string ∷ min_length n ∷ [])) at)

    pub text_at :
        (k : String) (initial : Value)
        → variable_at k vs ≡ some (text_variable conversions k initial (is_string ∷ []))
        → IsTextFrom 0 (property k fs)
    text_at k initial at =
        let (s, is_s, rest) =
          string_property validator (property k fs) []
            (variable_fits k (text_variable conversions k initial (is_string ∷ [])) at) in
        (s, is_s, ground arith)

    pub number_at :
        (k : String) (low initial : ℕ)
        → variable_at k vs ≡ some (number_variable conversions k initial (is_int ∷ min low ∷ []))
        → IsFrom low (property k fs)
    number_at k low initial at =
        from_property validator low (property k fs)
          (variable_fits k (number_variable conversions k initial (is_int ∷ min low ∷ [])) at)
