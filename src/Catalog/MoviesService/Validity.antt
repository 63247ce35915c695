-- ===== src/Catalog/MoviesService/Validity.antt =====
-- The payload validation of a new movie against the constraints of the table `movies`.
use cinema_microservices.Prelude.{◌≡◌, true, arith, some}
use cinema_microservices.Catalog.Movie.{accept_movie, MovieColumns}
use cinema_microservices.Shared.Dtos.Movies.{CreateMovieDto, IsCreateMovieDto}
use cinema_microservices.Runtime.Columns.{non_negative, non_negative-hundredths}
use cinema_microservices.Shared.Money.{Arithmetic}
use cinema_microservices.Catalog.MoviesService.{value_of, movie_of}
use cinema_microservices.Runtime.Repository.{stores}

-- What a validated payload becomes in the table.
abbrev pub columns_of : CreateMovieDto → MovieColumns
columns_of dto = record {
  title = dto.title;
  description = value_of dto.description;
  release_year = dto.release_year;
  duration_minutes = dto.duration_minutes;
  ticket_price = dto.ticket_price;
}

-- A validated payload breaks no column type, no NOT NULL and no CHECK constraint of the table.
pub accept_movie-movie_of :
    (arithmetic : Arithmetic) (dto : CreateMovieDto)
    → IsCreateMovieDto dto
    → accept_movie arithmetic (movie_of dto) ≡ stores (columns_of dto)
unfolding accept_movie
accept_movie-movie_of arithmetic dto v =
    let price : arithmetic.numeric 10 2 dto.ticket_price ≡ some dto.ticket_price =
      rw v.price (arithmetic.numeric_hundredths 10 v.cents (omega arith)) in
    let sign : non_negative dto.ticket_price ≡ true =
      rw v.price (non_negative-hundredths v.cents) in
    ground arith
