-- ===== src/Shared/Dtos/Schemas/MovieBody.antt =====
-- A validated movie, as the class that the handler declares.
use cinema_microservices.Runtime.Validation.{Property, Schema, is_not_empty, property_fits}
use Prim.Native.String.{count}
use cinema_microservices.Runtime.Validation.{is_string, max_length}
use Prim.Native.String.{count}
use cinema_microservices.Prelude.{
  [], if◌then◌else◌, refl, ◌∷◌, ◌≡◌, ◌≤◌, true, arith, not, some, String,
}
use cinema_microservices.Runtime.Validation.{ClassValidator, fits, is_nullish, Conforms, checks}
use cinema_microservices.Runtime.Value.{
  Fields, Value, hundredths, string, undefined, null, property,
}
use cinema_microservices.Shared.Dtos.Schemas.{create_movie_schema, Texts}
use cinema_microservices.Shared.Dtos.Schemas.Typed.{create_movie_dto, optional_text_of}
use cinema_microservices.Shared.Dtos.Movies.{
  CreateMovieDto, IsCreateMovieDto, Optional, given, absent, is_null,
}
use cinema_microservices.Runtime.Validation.Properties.{
  string_property, between_property, price_property, not_empty-count,
}

module _ (validator : ClassValidator) where
  pub fits_parts :
      (p : Property) (ps : Schema) (fs : Fields)
      → fits validator (p ∷ ps) fs ≡ true
      → (property_fits validator p fs ≡ true) × (fits validator ps fs ≡ true)
  unfolding fits
  fits_parts p ps fs h = ground arith

  -- A description may be missing or `null`.
  description_property :
      (v : Value)
      → (if not (is_nullish v) then checks validator (is_string ∷ max_length 2000 ∷ []) v else true)
        ≡ true
      → (d : Optional String) × (optional_text_of v ≡ some d)
        × ((s : String) → d ≡ given s → count s ≤ 2000)
  description_property undefined h = (absent, refl, λ s e. cc)
  description_property null h = (is_null, refl, λ s e. cc)
  description_property (string s) h =
      let l = validator.max_length_lem 2000 s in
      (given s, refl, λ s' e. let same : s ≡ s' = ground arith in rw (← same) (ground arith))
  description_property v h = let e = validator.is_string_lem v in cc

  -- Every object that passes the validation of a new movie is a `CreateMovieDto` within the bounds
  -- of its decorators.
  pub create_movie_dto-Conforms :
      (texts : Texts) (fs : Fields)
      → Conforms validator (create_movie_schema texts) fs
      → (dto : CreateMovieDto) × (create_movie_dto fs ≡ some dto) × IsCreateMovieDto dto
  unfolding create_movie_schema create_movie_dto
  create_movie_dto-Conforms texts fs c =
      let (title_ok, rest) = fits_parts _ _ fs c.fitting in
      let (description_ok, rest) = fits_parts _ _ fs rest in
      let (year_ok, rest) = fits_parts _ _ fs rest in
      let (minutes_ok, rest) = fits_parts _ _ fs rest in
      let (price_ok, _) = fits_parts _ _ fs rest in
      let (title, is_title, title_rest) =
        string_property validator (property "title" fs) (is_not_empty ∷ max_length 255 ∷ [])
          title_ok in
      let (description, is_description, length) =
        description_property (property "description" fs) description_ok in
      let (year, is_year, year_min, year_max) =
        between_property validator 1888 2100 (property "releaseYear" fs) year_ok in
      let (minutes, is_minutes, minutes_min, minutes_max) =
        between_property validator 1 600 (property "durationMinutes" fs) minutes_ok in
      let (cents, is_price, price_max) =
        price_property validator 10000 (property "ticketPrice" fs) price_ok in
      let not_empty = validator.is_not_empty_lem title in
      let not_long = validator.max_length_lem 255 title in
      (
        record {
          title = title;
          description = description;
          release_year = year;
          duration_minutes = minutes;
          ticket_price = hundredths cents;
        },
        rw (is_title, is_description, is_year, is_minutes, is_price),
        record {
          title_given = not_empty-count title (ground arith);
          title_length = ground arith;
          description_length = length;
          year_min = year_min;
          year_max = year_max;
          duration_min = minutes_min;
          duration_max = minutes_max;
          cents = cents;
          price = refl;
          price_max = omega arith;
        },
      )
