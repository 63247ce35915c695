-- ===== src/Shared/Dtos/Schemas/Typed.antt =====
-- A validated object as the TypeScript class that its handler declares.
use cinema_microservices.Prelude.{if◌then◌else◌, ◌==◌, ◌||◌, Option, String, ℕ, some, none, not}
use cinema_microservices.Runtime.Value.{
  Fields, Value, Number, number, property, string, undefined, null,
}
use cinema_microservices.Shared.Dtos.Accounts.{RegisterDto, LoginDto}
use cinema_microservices.Shared.Dtos.Movies.{
  CreateMovieDto, Optional, absent, is_null, given, UpdateMovieDto,
}
use cinema_microservices.Shared.Dtos.Orders.{CreateOrderDto, CreateOrderPayload}

abbrev pub text_of : Value → Option String
text_of (string s) = some s
text_of v = none

abbrev pub natural_of : Value → Option ℕ
natural_of (number n) = if n.negative || not (n.scale == 0) then none else some n.digits
natural_of v = none

abbrev pub number_of : Value → Option Number
number_of (number n) = some n
number_of v = none

abbrev pub optional_text_of : Value → Option (Optional String)
optional_text_of undefined = some absent
optional_text_of null = some is_null
optional_text_of (string s) = some (given s)
optional_text_of v = none

abbrev pub movie_of :
    Option String
    → Option (Optional String)
    → Option ℕ
    → Option ℕ
    → Option Number
    → Option CreateMovieDto
movie_of (some title) (some description) (some year) (some minutes) (some price) = some (record {
  title = title;
  description = description;
  release_year = year;
  duration_minutes = minutes;
  ticket_price = price;
})
movie_of title description year minutes price = none

unfoldable pub create_movie_dto : Fields → Option CreateMovieDto
create_movie_dto fs =
    movie_of (text_of (property "title" fs)) (optional_text_of (property "description" fs))
      (natural_of (property "releaseYear" fs)) (natural_of (property "durationMinutes" fs))
      (number_of (property "ticketPrice" fs))

abbrev pub order_of : Option ℕ → Option ℕ → Option CreateOrderDto
order_of (some movie_id) (some quantity) =
    some (record { movie_id = movie_id; quantity = quantity })
order_of movie_id quantity = none

unfoldable pub create_order_dto : Fields → Option CreateOrderDto
create_order_dto fs =
    order_of (natural_of (property "movieId" fs)) (natural_of (property "quantity" fs))

abbrev pub order_payload_of : Option CreateOrderDto → Option ℕ → Option CreateOrderPayload
order_payload_of (some dto) (some user_id) = some (record { dto = dto; user_id = user_id })
order_payload_of dto user_id = none

unfoldable pub create_order_payload : Fields → Option CreateOrderPayload
unfolding create_order_dto
create_order_payload fs = order_payload_of (create_order_dto fs) (natural_of (property "userId" fs))

abbrev pub registration_of : Option String → Option String → Option String → Option RegisterDto
registration_of (some email) (some password) (some confirm) =
    some (record { email = email; password = password; confirm_password = confirm })
registration_of email password confirm = none

unfoldable pub register_dto : Fields → Option RegisterDto
register_dto fs =
    registration_of (text_of (property "email" fs)) (text_of (property "password" fs))
      (text_of (property "confirmPassword" fs))

abbrev pub as_given : {A : Type 0} → Option A → Option (Optional A)
as_given none = none
as_given (some a) = some (given a)

-- A property of `UpdateMovieDto`, each of which may be missing or `null`.
abbrev pub optional_of : {A : Type 0} → (Value → Option A) → Value → Option (Optional A)
optional_of read undefined = some absent
optional_of read null = some is_null
optional_of read v = as_given (read v)

abbrev pub changes_of :
    Option (Optional String)
    → Option (Optional String)
    → Option (Optional ℕ)
    → Option (Optional ℕ)
    → Option (Optional Number)
    → Option UpdateMovieDto
changes_of (some title) (some description) (some year) (some minutes) (some price) = some (record {
  title = title;
  description = description;
  release_year = year;
  duration_minutes = minutes;
  ticket_price = price;
})
changes_of title description year minutes price = none

unfoldable pub update_movie_dto : Fields → Option UpdateMovieDto
update_movie_dto fs =
    changes_of (optional_of text_of (property "title" fs))
      (optional_of text_of (property "description" fs))
      (optional_of natural_of (property "releaseYear" fs))
      (optional_of natural_of (property "durationMinutes" fs))
      (optional_of number_of (property "ticketPrice" fs))

abbrev pub credentials_of : Option String → Option String → Option LoginDto
credentials_of (some email) (some password) = some (record { email = email; password = password })
credentials_of email password = none

unfoldable pub login_dto : Fields → Option LoginDto
login_dto fs = credentials_of (text_of (property "email" fs)) (text_of (property "password" fs))
