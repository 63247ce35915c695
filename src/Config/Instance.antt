-- ===== src/Config/Instance.antt =====
-- The variables of an environment that createEnvValidator
-- (libs/shared/src/config/env.validation.ts) has accepted: where their values come from.
use cinema_microservices.Prelude.{
  [], if◌then◌else◌, refl, ◌===◌, ◌∙◌, ◌∷◌, ◌≡◌, String, List, Option, some, true, Bool-cases, none,
  inl, ap, arith, inr, eq_iff, ◌++◌,
}
use cinema_microservices.Config.EnvValidation.{
  assigned, env_instance, Variable, initials, properties,
}
use cinema_microservices.Runtime.Validation.{to_instance, transformed, Schema}
use cinema_microservices.Runtime.Value.{Fields, has_key, property, field, Value, end}

abbrev pub variable_at : String → List Variable → Option Variable
variable_at k [] = none
variable_at k (v ∷ vs) = if v.field_of.name === k then some v else variable_at k vs

property-assigned :
    (k : String) (fs ds : Fields)
    → property k (assigned fs ds) ≡ (if has_key k fs then property k fs else property k ds)
unfolding assigned
property-assigned k end ds = refl
property-assigned k (field j v rest) ds = elim (Bool-cases (j === k)) [
  | inl same ↦ rw (same) refl
  | inr other ↦ rw (other) (property-assigned k rest ds)
]

has_key-to_instance :
    (schema : Schema) (k : String) (fs : Fields) → has_key k (to_instance schema fs) ≡ has_key k fs
unfolding to_instance
has_key-to_instance schema k end = refl
has_key-to_instance schema k (field j v rest) = elim (Bool-cases (j === k)) [
  | inl same ↦ rw (same) refl
  | inr other ↦ rw (other) (has_key-to_instance schema k rest)
]

property-to_instance :
    (schema : Schema) (k : String) (fs : Fields)
    → has_key k fs ≡ true
    → property k (to_instance schema fs) ≡ transformed schema k (property k fs)
unfolding to_instance
property-to_instance schema k end h = cc
property-to_instance schema k (field j v rest) h = elim (Bool-cases (j === k)) [
  | inl same ↦ rw (same) (ap (λ x. transformed schema x v) ((eq_iff j k).0 same))
  | inr other ↦ rw (other) (property-to_instance schema k rest (ground arith))
]

property-initials :
    (k : String) (vs : List Variable) (v : Variable)
    → variable_at k vs ≡ some v
    → (property k (initials vs) ≡ v.initial)
      × ((w : Value) → transformed (properties vs) k w ≡ v.field_of.transform w)
unfolding transformed
property-initials k [] v h = cc
property-initials k (u ∷ vs) v h = elim (Bool-cases (u.field_of.name === k)) [
  | inl same ↦
      let it : u ≡ v = ground arith in
      (
        rw (same) (ap (λ (x : Variable). x.initial) it),
        λ w. rw (same) (ap (λ (x : Variable). x.field_of.transform w) it),
      )
  | inr other ↦
      let (first, second) = property-initials k vs v (ground arith) in
      (rw (other) first, λ w. rw (other) (second w))
]

-- A variable that is set has its converted value, and any other its initializer.
pub property-env_instance :
    (k : String) (vs : List Variable) (v : Variable) (config : Fields)
    → variable_at k vs ≡ some v
    → property k (env_instance vs config)
      ≡ (if has_key k config then v.field_of.transform (property k config) else v.initial)
unfolding env_instance
property-env_instance k vs v config h =
    let (initial, converted) = property-initials k vs v h in
    let same_key = has_key-to_instance (properties vs) k config in
    property-assigned k (to_instance (properties vs) config) (initials vs)
    ∙ elim (Bool-cases (has_key k config)) [
      | inl set ↦
          rw (same_key, set)
            (property-to_instance (properties vs) k config set ∙ converted (property k config))
      | inr unset ↦ rw (same_key, unset) initial
    ]

pub variable_at-append :
    (k : String) (vs ws : List Variable) (v : Variable)
    → variable_at k vs ≡ some v
    → variable_at k (vs ++ ws) ≡ some v
variable_at-append k [] ws v h = cc
variable_at-append k (u ∷ vs) ws v h = elim (Bool-cases (u.field_of.name === k)) [
  | inl same ↦ rw (same) (ground arith)
  | inr other ↦ rw (other) (variable_at-append k vs ws v (ground arith))
]
