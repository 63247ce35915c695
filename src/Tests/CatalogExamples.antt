-- ===== src/Tests/CatalogExamples.antt =====
-- The catalog on a table in memory.
use cinema_microservices.Catalog.MoviesService.Listing.{Ascending, find_all_up}
use cinema_microservices.Catalog.MoviesService.{find_all}
use cinema_microservices.Catalog.MoviesService.Merging.{IsMovie, IsFilled}
use cinema_microservices.Catalog.MoviesService.Updating.{OneEach, TakenBy, Changed, update_up}
use cinema_microservices.Catalog.MoviesService.{update, remove, movie_not_found}
use cinema_microservices.Catalog.MoviesController.{Request, serve}
use cinema_microservices.Catalog.MoviesService.{create, movie_exists}
use cinema_microservices.Prelude.{
  [], refl, ◌∷◌, ◌≡◌, ◌⊎◌, arith, true, map, some, if◌then◌else◌, ◌==◌, ℕ, none, inl, ◌↔◌, List, In,
}
use cinema_microservices.Catalog.Movie.{Movies, MovieColumns, movies_table, Movie}
use cinema_microservices.Catalog.MoviesController.Unique.{UniqueTitles, interleave-UniqueTitles}
use cinema_microservices.Runtime.Async.{run, rejected, fulfilled}
use cinema_microservices.Runtime.Memory.Laws.{in_memory}
use cinema_microservices.Runtime.Memory.Search.{Body, Memory}
use cinema_microservices.Shared.Dtos.Movies.{
  CreateMovieDto, IsCreateMovieDto, is_null, UpdateMovieDto, given, absent, IsUpdateMovieDto,
}
use cinema_microservices.Runtime.Exceptions.{documented, query_failed}
use cinema_microservices.Shared.Money.Decimal.{decimal}
use cinema_microservices.Catalog.MoviesService.Creation.{Created, Taken, create_up}
use cinema_microservices.Catalog.MoviesService.Validity.{columns_of}
use cinema_microservices.Runtime.Async.Interleaving.{interleave}
use cinema_microservices.Runtime.Memory.Search.{empty, put}
use cinema_microservices.Runtime.Value.{hundredths}
use cinema_microservices.Tests.Codes.{movies_table-PlainCodes}
use cinema_microservices.Catalog.MoviesService.Changes.{update_null_title, update_taken, remove_up}

unfoldable movies : Movies decimal (Memory MovieColumns)
movies = in_memory (movies_table decimal) movies_table-PlainCodes

abbrev alien_dto : CreateMovieDto
alien_dto = record {
  title = "Alien";
  description = is_null;
  release_year = 1979;
  duration_minutes = 117;
  ticket_price = hundredths 1250;
}

alien_dto-IsCreateMovieDto : IsCreateMovieDto alien_dto
alien_dto-IsCreateMovieDto = record {
  title_given = ground arith;
  title_length = ground arith;
  description_length = λ d e. cc;
  year_min = ground arith;
  year_max = ground arith;
  duration_min = ground arith;
  duration_max = ground arith;
  cents = 1250;
  price = refl;
  price_max = ground arith;
}

empty-UniqueTitles : UniqueTitles documented decimal movies empty
unfolding movies in_memory UniqueTitles
empty-UniqueTitles i j a b ha hb same = ground arith

-- Two requests for the same movie, each of which looks for the title before either stores it.
interleave-UniqueTitles_example :
    UniqueTitles documented decimal movies
      (interleave
        (0 ∷ 1 ∷ 0 ∷ 1 ∷ [])
        (map
          (serve documented decimal movies)
          (Request.create alien_dto ∷ Request.create alien_dto ∷ []))
        empty).1
interleave-UniqueTitles_example =
    interleave-UniqueTitles documented decimal movies
      (Request.create alien_dto ∷ Request.create alien_dto ∷ []) (0 ∷ 1 ∷ 0 ∷ 1 ∷ []) empty
      empty-UniqueTitles

abbrev aliens_body : Body MovieColumns
aliens_body = record {
  columns = record (columns_of alien_dto) { title = "Aliens"; release_year = 1986 };
  created_at = 0;
  updated_at = 0;
}

-- A table with another movie in it.
abbrev with_aliens : Memory MovieColumns
with_aliens = put empty 1 (some aliens_body)

with_aliens_up : movies.is_up with_aliens ≡ true
unfolding movies in_memory
with_aliens_up = refl

create_up_example :
    let out = run (create documented decimal movies alien_dto) with_aliens in
    Created documented decimal movies alien_dto with_aliens out
    ⊎ (Taken documented decimal movies with_aliens "Alien" 1979
        × (out ≡ (rejected (movie_exists documented "Alien" 1979), with_aliens)))
create_up_example =
    create_up documented decimal movies alien_dto with_aliens with_aliens_up
      alien_dto-IsCreateMovieDto

abbrev aliens : Movie
aliens = record { id = 1; columns = aliens_body.columns; created_at = 0; updated_at = 0 }

abbrev with_both : Memory MovieColumns
with_both =
    put with_aliens 2
      (some (record { columns = columns_of alien_dto; created_at = 0; updated_at = 0 }))

abbrev alien : Movie
alien = record { id = 2; columns = columns_of alien_dto; created_at = 0; updated_at = 0 }

abbrev no_changes : UpdateMovieDto
no_changes = record {
  title = absent;
  description = absent;
  release_year = absent;
  duration_minutes = absent;
  ticket_price = absent;
}

with_aliens_row : movies.row with_aliens 1 ≡ some aliens
unfolding movies in_memory
with_aliens_row = refl

with_both_up : movies.is_up with_both ≡ true
unfolding movies in_memory
with_both_up = refl

with_both-alien : movies.row with_both 2 ≡ some alien
unfolding movies in_memory
with_both-alien = refl

with_both-aliens : movies.row with_both 1 ≡ some aliens
unfolding movies in_memory
with_both-aliens = refl

one_not_two : ¬ (aliens.id ≡ 2)
one_not_two e = omega arith

new_title : ¬ (aliens.columns.title ≡ "Alien")
new_title e = cc

remove_up_example :
    let (result, s') = run (remove documented decimal movies 1) with_aliens in
    ((m : Movie) × (movies.row with_aliens 1 ≡ some m)
      × (result ≡ fulfilled tt)
      × ((j : ℕ) → movies.row s' j ≡ (if j == 1 then none else movies.row with_aliens j)))
    ⊎ ((movies.row with_aliens 1 ≡ none)
        × (result ≡ rejected (movie_not_found documented 1))
        × ((j : ℕ) → movies.row s' j ≡ movies.row with_aliens j))
remove_up_example = remove_up documented decimal movies 1 with_aliens with_aliens_up (omega arith)

update_null_title_example :
    (run (update documented decimal movies 1 (record no_changes { title = is_null })) with_aliens).0
    ≡ rejected (query_failed (some "23502"))
update_null_title_example =
    update_null_title documented decimal movies 1 (record no_changes { title = is_null })
      with_aliens aliens with_aliens_up with_aliens_row refl refl

-- "Alien" of 1979 is to become "Aliens" of 1986, which is there.
update_taken_example :
    run
      (update documented decimal movies 2
        (record no_changes { title = given "Aliens"; release_year = given 1986 }))
      with_both
    ≡ (rejected (movie_exists documented "Aliens" 1986), with_both)
update_taken_example =
    update_taken documented decimal movies 2
      (record no_changes { title = given "Aliens"; release_year = given 1986 }) with_both alien
      aliens with_both_up with_both-alien with_both-aliens one_not_two refl refl (inl new_title)

alien-IsMovie : IsMovie alien.columns
alien-IsMovie = record {
  title_length = ground arith;
  year_max = ground arith;
  duration_min = ground arith;
  duration_max = ground arith;
  price = (1250, refl, ground arith);
}

-- A longer cut: the running time changes, and the description goes.
abbrev longer : UpdateMovieDto
longer = record no_changes { duration_minutes = given 137; description = is_null }

longer-IsUpdateMovieDto : IsUpdateMovieDto longer
longer-IsUpdateMovieDto = record {
  title_given = λ t e. cc;
  title_length = λ t e. cc;
  description_length = λ d e. cc;
  year_min = λ y e. cc;
  year_max = λ y e. cc;
  duration_min = λ d e. ground arith;
  duration_max = λ d e. ground arith;
  price = λ p e. cc;
}

longer-IsFilled : IsFilled longer
longer-IsFilled = record { title = λ e. cc; year = λ e. cc; duration = λ e. cc; price = λ e. cc }

with_both-OneEach : OneEach documented decimal movies with_both
unfolding movies in_memory
with_both-OneEach a b ra rb t y = ground arith

update_up_example :
    let out = run (update documented decimal movies 2 longer) with_both in
    (((other : Movie) → ¬ TakenBy documented decimal movies 2 with_both "Alien" 1979 other)
      × Changed documented decimal movies alien longer with_both out)
    ⊎ ((other : Movie) × TakenBy documented decimal movies 2 with_both "Alien" 1979 other
        × (out ≡ (rejected (movie_exists documented "Alien" 1979), with_both)))
update_up_example =
    update_up documented decimal movies 2 longer with_both alien with_both_up with_both-alien
      (omega arith) with_both-OneEach alien-IsMovie longer-IsUpdateMovieDto longer-IsFilled

find_all_up_example :
    (ms : List Movie) × (run (find_all documented decimal movies) with_both
      ≡ (fulfilled ms, with_both))
    × Ascending ms
    × ((m : Movie) → In m ms ↔ (movies.row with_both m.id ≡ some m))
find_all_up_example = find_all_up documented decimal movies with_both with_both_up
