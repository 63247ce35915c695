-- ===== src/Tests/BodyExamples.antt =====
-- Request bodies, validated.
use cinema_microservices.Tests.GatewayExamples.{verifier, clients}
use cinema_microservices.Gateway.Routes.{create_order, order_call}
use cinema_microservices.Prelude.{refl, ◌≡◌, ◌⊎◌, some}
use cinema_microservices.Runtime.Async.{run}
use cinema_microservices.Runtime.Value.{Fields, field, number, natural, string, end, hundredths}
use cinema_microservices.Shared.Dtos.Movies.{CreateMovieDto, IsCreateMovieDto}
use cinema_microservices.Shared.Dtos.Schemas.{create_movie_schema, create_order_schema}
use cinema_microservices.Gateway.Bodies.{post_orders, post_orders_up}
use cinema_microservices.Runtime.Validation.{all_known, fits, Conforms}
use cinema_microservices.Shared.Dtos.Schemas.Typed.{create_movie_dto}
use cinema_microservices.Runtime.Exceptions.{documented}
use cinema_microservices.Tests.Validators.{validation_pipe, plain_texts, class_validator}
use cinema_microservices.Gateway.Access.{Denied, Verified}
use cinema_microservices.Shared.Dtos.Schemas.MovieBody.{create_movie_dto-Conforms}
use cinema_microservices.Shared.Role.{AuthUser}
use cinema_microservices.Shared.Dtos.Orders.{CreateOrderDto, IsCreateOrderDto}

abbrev movie_body : Fields
movie_body = field "title" (string "Alien") (
    field "releaseYear" (number (natural 1979)) (
      field "durationMinutes" (number (natural 117))
        (field "ticketPrice" (number (hundredths 1250)) end)))

movie_body-Conforms : Conforms class_validator (create_movie_schema plain_texts) movie_body
unfolding create_movie_schema all_known fits
movie_body-Conforms = record { known = refl; fitting = refl }

create_movie_dto-Conforms_example :
    (dto : CreateMovieDto) × (create_movie_dto movie_body ≡ some dto) × IsCreateMovieDto dto
create_movie_dto-Conforms_example =
    create_movie_dto-Conforms class_validator plain_texts movie_body movie_body-Conforms

abbrev pub order_body : Fields
order_body = field "movieId" (number (natural 4)) (field "quantity" (number (natural 3)) end)

pub order_body-Conforms : Conforms class_validator create_order_schema order_body
unfolding create_order_schema all_known fits
order_body-Conforms = record { known = refl; fitting = refl }

post_orders_up_example :
    let out =
      run
        (post_orders documented verifier clients plain_texts validation_pipe
          (some "Bearer abc")
          order_body)
        0 in
    Denied documented verifier clients 401 0 out
    ⊎ ((user : AuthUser) × Verified documented verifier clients (some "Bearer abc") 0 user
        × (Denied documented verifier clients 400 0 out
            ⊎ ((dto : CreateOrderDto) × IsCreateOrderDto dto
                × (out ≡ run (order_call documented clients user (create_order dto)) 0))))
post_orders_up_example =
    post_orders_up documented verifier clients plain_texts validation_pipe (some "Bearer abc")
      order_body 0
