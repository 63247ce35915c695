-- ===== src/Runtime/Validation/Cases.antt =====
-- The two ways in which the pipe of `ValidationPipe` ends.
use cinema_microservices.Prelude.{◌≡◌, ◌⊎◌, Bool-cases, inl, inr}
use cinema_microservices.Runtime.Validation.{
  ClassValidator, Schema, to_instance, ValidationPipe, Conforms, all_known, fits,
}
use cinema_microservices.Runtime.Value.{Fields, natural}
use cinema_microservices.Runtime.Async.{fulfilled, rejected}
use cinema_microservices.Runtime.Exceptions.{HttpException, http_exception}

module _ (validator : ClassValidator) (pipe : ValidationPipe validator) where
  Conforms-cases :
      (schema : Schema) (fs : Fields)
      → Conforms validator schema fs ⊎ ¬ Conforms validator schema fs
  Conforms-cases schema fs = elim (Bool-cases (all_known schema fs)) [
    | inr unknown ↦ inr (λ c. let k = c.known in cc)
    | inl known ↦ elim (Bool-cases (fits validator schema fs)) [
      | inl fitting ↦ inl (record { known = known; fitting = fitting })
      | inr unfit ↦ inr (λ c. let f = c.fitting in cc)
    ]
  ]

  -- What the pipe makes of an object.
  pub transform_cases :
      (schema : Schema) (fs : Fields)
      → (Conforms validator schema (to_instance schema fs)
          × (pipe.transform schema fs ≡ fulfilled (to_instance schema fs)))
        ⊎ ((e : HttpException) × (pipe.transform schema fs ≡ rejected (http_exception e))
            × (e.status ≡ natural 400))
  transform_cases schema fs = elim (Conforms-cases schema (to_instance schema fs)) [
    | inl c ↦ inl (c, pipe.transform_conforming schema fs c)
    | inr n ↦ inr (pipe.transform_refused schema fs n)
  ]
