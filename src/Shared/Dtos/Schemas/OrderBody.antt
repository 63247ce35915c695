-- ===== src/Shared/Dtos/Schemas/OrderBody.antt =====
-- A validated order: what the client sends, and what the gateway makes of it.
use cinema_microservices.Prelude.{
  String, ◌===◌, eq_iff, [], refl, ◌∷◌, ◌≡◌, ◌≤◌, ℕ, false, true, arith, some, ◌&&◌, Bool, includes,
  Bool-cases, inl, subst, inr, if◌then◌else◌, ap,
}
use cinema_microservices.Runtime.Validation.{
  ClassValidator, all_known, checks, is_int, is_positive, fits, Conforms, Property, names, min, max,
}
use cinema_microservices.Runtime.Value.{Fields, Value, field, end, property, number, natural}
use cinema_microservices.Shared.Dtos.Schemas.{
  create_order_schema, create_order_payload_schema, id_property, plain_property,
}
use cinema_microservices.Shared.Dtos.Schemas.Typed.{create_order_dto, create_order_payload}
use cinema_microservices.Shared.Dtos.Orders.{
  CreateOrderDto, IsCreateOrderDto, max_tickets_per_order,
}
use cinema_microservices.Shared.Dtos.Schemas.MovieBody.{fits_parts}
use cinema_microservices.Runtime.Validation.Properties.{positive_property, between_property}

-- `{ ...dto, userId }`
unfoldable pub with_user : Fields → Value → Fields
with_user end user_id = field "userId" user_id end
with_user (field k v rest) user_id =
    let others = with_user rest user_id in
    if k === "userId" then field k user_id rest else field k v others

and_parts : (a b : Bool) → (a && b) ≡ true → (a ≡ true) × (b ≡ true)
and_parts a b h = ground arith

other_key :
    (k key : String) → (k === "userId") ≡ true → (key === "userId") ≡ false → (k === key) ≡ false
other_key k key same other = ground (arith, eq_iff k "userId", eq_iff key "userId", eq_iff k key)

property-with_user :
    (key : String) (fs : Fields) (user_id : Value)
    → (key === "userId") ≡ false
    → property key (with_user fs user_id) ≡ property key fs
unfolding with_user
property-with_user key end user_id h = ground (arith, eq_iff "userId" key, eq_iff key "userId")
property-with_user key (field k v rest) user_id h = elim (Bool-cases (k === "userId")) [
  | inl same ↦ rw (same, other_key k key same h) refl
  | inr other ↦
      rw (other) (ap (λ x. if k === key then v else x) (property-with_user key rest user_id h))
]

-- The class of the body has no such property.
known_key : (k : String) → includes (names create_order_schema) k ≡ true → (k === "userId") ≡ false
unfolding create_order_schema
known_key k h = elim (Bool-cases (k === "userId")) [
  | inr other ↦ other
  | inl same ↦
      let known : includes (names create_order_schema) "userId" ≡ true =
        subst (λ x. includes (names create_order_schema) x ≡ true) ((eq_iff k "userId").0 same) h in
      cc
]

user_id-with_user :
    (fs : Fields) (user_id : Value)
    → all_known create_order_schema fs ≡ true
    → property "userId" (with_user fs user_id) ≡ user_id
unfolding with_user all_known
user_id-with_user end user_id h = refl
user_id-with_user (field k v rest) user_id h =
    let (k_known, rest_known) = and_parts (includes (names create_order_schema) k) _ h in
    let other = known_key k k_known in
    rw other (rw other (user_id-with_user rest user_id rest_known))

all_known-with_user :
    (fs : Fields) (user_id : Value)
    → all_known create_order_schema fs ≡ true
    → all_known create_order_payload_schema (with_user fs user_id) ≡ true
unfolding with_user all_known create_order_schema create_order_payload_schema
all_known-with_user end user_id h = refl
all_known-with_user (field k v rest) user_id h =
    let (k_known, rest_known) = and_parts (includes (names create_order_schema) k) _ h in
    let later = all_known-with_user rest user_id rest_known in
    rw (known_key k k_known) (ground arith)

abbrev quantity_property : Property
quantity_property = plain_property "quantity" (is_int ∷ min 1 ∷ max max_tickets_per_order ∷ [])

module _ (validator : ClassValidator) where
  -- Every object that passes the validation of an order is a `CreateOrderDto` within its bounds.
  pub create_order_dto-Conforms :
      (fs : Fields)
      → Conforms validator create_order_schema fs
      → (dto : CreateOrderDto) × (create_order_dto fs ≡ some dto) × IsCreateOrderDto dto
  unfolding create_order_schema create_order_dto
  create_order_dto-Conforms fs c =
      let (movie_ok, rest) =
        fits_parts validator (id_property "movieId") (quantity_property ∷ []) fs c.fitting in
      let (quantity_ok, _) = fits_parts validator quantity_property [] fs rest in
      let (movie_id, is_movie, movie_min) =
        positive_property validator (property "movieId" fs) movie_ok in
      let (quantity, is_quantity, quantity_min, quantity_max) =
        between_property validator 1 max_tickets_per_order (property "quantity" fs) quantity_ok in
      (
        record { movie_id = movie_id; quantity = quantity },
        rw (is_movie, is_quantity),
        record {
          movie_id_positive = movie_min;
          quantity_min = quantity_min;
          quantity_max = quantity_max;
        },
      )

  is_positive_id :
      (user_id : ℕ)
      → 1 ≤ user_id
      → checks validator (is_int ∷ is_positive ∷ []) (number (natural user_id)) ≡ true
  is_positive_id user_id h =
      let i = validator.is_int_lem (number (natural user_id)) in
      let p = validator.is_positive_lem (natural user_id) in ground arith

  -- The message of the gateway: a body that passed the validation of an order, with the id of the
  -- user, passes the validation of the order service unchanged, and is read there as an order
  -- within the bounds of its decorators for exactly this user.
  pub create_order_payload-with_user :
      (fs : Fields) (user_id : ℕ)
      → Conforms validator create_order_schema fs
      → 1 ≤ user_id
      → let message = with_user fs (number (natural user_id)) in
        Conforms validator create_order_payload_schema message
        × (dto : CreateOrderDto) × (create_order_dto fs ≡ some dto)
        × (create_order_payload message ≡ some (record { dto = dto; user_id = user_id }))
        × IsCreateOrderDto dto
  unfolding create_order_schema create_order_payload_schema create_order_dto create_order_payload
      fits
  create_order_payload-with_user fs user_id c positive =
      let user : Value = number (natural user_id) in
      let (movie_ok, rest) =
        fits_parts validator (id_property "movieId") (quantity_property ∷ []) fs c.fitting in
      let (quantity_ok, _) = fits_parts validator quantity_property [] fs rest in
      let (movie_id, is_movie, movie_min) =
        positive_property validator (property "movieId" fs) movie_ok in
      let (quantity, is_quantity, quantity_min, quantity_max) =
        between_property validator 1 max_tickets_per_order (property "quantity" fs) quantity_ok in
      let movie = property-with_user "movieId" fs user refl in
      let tickets = property-with_user "quantity" fs user refl in
      let owner = user_id-with_user fs user c.known in
      let owner_ok = is_positive_id user_id positive in
      (
        record {
          known = all_known-with_user fs user c.known;
          fitting = rw (movie, tickets, owner, movie_ok, quantity_ok, owner_ok);
        },
        record { movie_id = movie_id; quantity = quantity },
        rw (is_movie, is_quantity),
        rw (movie, tickets, owner, is_movie, is_quantity),
        record {
          movie_id_positive = movie_min;
          quantity_min = quantity_min;
          quantity_max = quantity_max;
        },
      )
