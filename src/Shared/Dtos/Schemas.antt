-- ===== src/Shared/Dtos/Schemas.antt =====
-- libs/shared/src/dtos: the decorators of the payload classes, as schemas.
pub mod Typed
pub mod MovieBody
pub mod OrderBody
use cinema_microservices.Runtime.Validation.{is_number}
use Prim.Native.String.{count}
use cinema_microservices.Runtime.Validation.{is_string, is_not_empty, min_length, unless_nullish}
use cinema_microservices.Prelude.{[], ◌&&◌, ◌++◌, ◌∷◌, ◌≡◌, String, List, not}
use cinema_microservices.Runtime.Validation.{
  Schema, Property, always, is_int, Decorator, is_email, is_nullish, is_positive, min, max,
  max_length,
}
use cinema_microservices.Runtime.Value.{Value, string}
use cinema_microservices.Shared.Dtos.Orders.{max_tickets_per_order}

-- `trim()` and `toLowerCase()`.
pub record Texts : Type 0 where
  pub trim : String → String
  pub to_lower_case : String → String

abbrev pub unchanged : Value → Value
unchanged v = v

-- A property that is always validated, as it comes.
abbrev pub plain_property : String → List Decorator → Property
plain_property name decorators = record {
  name = name;
  transform = unchanged;
  condition = always;
  decorators = decorators;
}

abbrev pub id_property : String → Property
id_property name = plain_property name (is_int ∷ is_positive ∷ [])

module _ (texts : Texts) where
  abbrev pub trim : Value → Value
  trim (string s) = string (texts.trim s)
  trim v = v

  abbrev pub normalize_email : Value → Value
  normalize_email (string s) = string (texts.to_lower_case (texts.trim s))
  normalize_email v = v

  unfoldable pub create_movie_schema : Schema
  create_movie_schema =
      record {
        name = "title";
        transform = trim;
        condition = always;
        decorators = is_string ∷ is_not_empty ∷ max_length 255 ∷ [];
      }
      ∷ record {
        name = "description";
        transform = trim;
        condition = unless_nullish;
        decorators = is_string ∷ max_length 2000 ∷ [];
      }
      ∷ plain_property "releaseYear" (is_int ∷ min 1888 ∷ max 2100 ∷ [])
      ∷ plain_property "durationMinutes" (is_int ∷ min 1 ∷ max 600 ∷ [])
      ∷ plain_property "ticketPrice" (is_number 2 ∷ min 0 ∷ max 10000 ∷ [])
      ∷ []

  unfoldable pub register_schema : Schema
  register_schema =
      record {
        name = "email";
        transform = normalize_email;
        condition = always;
        decorators = is_email ∷ max_length 255 ∷ [];
      }
      ∷ plain_property "password" (is_string ∷ min_length 8 ∷ max_length 72 ∷ [])
      ∷ plain_property "confirmPassword" (is_string ∷ is_not_empty ∷ [])
      ∷ []

  unfoldable pub login_schema : Schema
  login_schema =
      record {
        name = "email";
        transform = normalize_email;
        condition = always;
        decorators = is_email ∷ [];
      }
      ∷ plain_property "password" (is_string ∷ is_not_empty ∷ max_length 72 ∷ [])
      ∷ []

-- `PartialType`: every property becomes optional.
unfoldable pub partial_type : Schema → Schema
partial_type [] = []
partial_type (p ∷ ps) =
    record p { condition = λ fs v. not (is_nullish v) && p.condition fs v } ∷ partial_type ps

unfoldable pub update_movie_schema : Texts → Schema
unfolding partial_type create_movie_schema
update_movie_schema texts = partial_type (create_movie_schema texts)

unfoldable pub id_payload_schema : Schema
id_payload_schema = id_property "id" ∷ []

unfoldable pub user_id_payload_schema : Schema
user_id_payload_schema = id_property "userId" ∷ []

unfoldable pub create_order_schema : Schema
create_order_schema =
    id_property "movieId"
    ∷ plain_property "quantity" (is_int ∷ min 1 ∷ max max_tickets_per_order ∷ [])
    ∷ []

-- A class that extends another one has the properties of both.
unfoldable pub create_order_payload_schema : Schema
unfolding create_order_schema
create_order_payload_schema = create_order_schema ++ id_property "userId" ∷ []

unfoldable pub user_order_payload_schema : Schema
unfolding user_id_payload_schema
user_order_payload_schema = user_id_payload_schema ++ id_property "orderId" ∷ []
