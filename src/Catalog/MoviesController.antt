-- ===== src/Catalog/MoviesController.antt =====
-- apps/catalog-service/src/movies.controller.ts: one handler for each message pattern, behind the
-- exception filter that `configureMicroservice` installs.
pub mod Unique
use cinema_microservices.Prelude.{List, ℕ}
use cinema_microservices.Catalog.MoviesService
use cinema_microservices.Runtime.Exceptions.{Nest}
use cinema_microservices.Catalog.Movie.{Movie, Movies}
use cinema_microservices.Shared.Dtos.Movies.{CreateMovieDto, UpdateMovieDto}
use cinema_microservices.Shared.Money.{Arithmetic}
use cinema_microservices.Runtime.Async.{Async, ◌>>=◌, return, ◌>>◌}
use cinema_microservices.Shared.RpcError.{with_filter}

pub data Request : Type 0 where
  find_all : Request
  find_one : ℕ → Request
  create : CreateMovieDto → Request
  update : ℕ → UpdateMovieDto → Request
  remove : ℕ → Request

pub data Reply : Type 0 where
  movies : List Movie → Reply
  movie : Movie → Reply
  -- `{ id, deleted: true }`
  deleted : ℕ → Reply

module _ (nest : Nest) (arithmetic : Arithmetic) {S : Type 0}
    (repository : Movies arithmetic S) where
  unfoldable pub handle : Request → Async S Reply
  handle find_all = do
    found ← MoviesService.find_all nest arithmetic repository
    return (movies found)
  handle (find_one id) = do
    found ← MoviesService.find_one nest arithmetic repository id
    return (movie found)
  handle (create dto) = do
    created ← MoviesService.create nest arithmetic repository dto
    return (movie created)
  handle (update id changes) = do
    updated ← MoviesService.update nest arithmetic repository id changes
    return (movie updated)
  handle (remove id) = do MoviesService.remove nest arithmetic repository id; return (deleted id)

  unfoldable pub serve : Request → Async S Reply
  unfolding handle with_filter
  serve request = with_filter (handle request)
