-- ===== src/Catalog/MoviesController/Unique.antt =====
-- The constraint UQ_movies_title_release_year in the presence of concurrent requests.
use cinema_microservices.Catalog.MoviesService
use cinema_microservices.Prelude.{◌≡◌, ℕ, some, true, arith, eq_iff, [], ◌∷◌, List, All, map}
use cinema_microservices.Runtime.Exceptions.{Nest}
use cinema_microservices.Shared.Money.{Arithmetic}
use cinema_microservices.Catalog.Movie.{
  Movies, same_title_and_year, Movie, MovieColumns, MovieDraft,
}
use cinema_microservices.Shared.Dtos.Movies.{CreateMovieDto}
use cinema_microservices.Runtime.Async.Interleaving.{
  Keeps, interleave, Keeps-catch, interleave-Keeps, Keeps-throw, keeps_rules,
}
use cinema_microservices.Catalog.MoviesService.{
  merge, movie_of, movie_not_found, assert_title_is_free, by_id, has_title, movie_exists,
}
use cinema_microservices.Runtime.Repository.Unique.{delete-IsUnique, insert-IsUnique, save-IsUnique}
use cinema_microservices.Catalog.MoviesController.{handle, serve, Request}

module _ (nest : Nest) (arithmetic : Arithmetic) {S : Type 0}
    (repository : Movies arithmetic S) where
  -- No two stored movies have the same title and release year.
  unfoldable pub UniqueTitles : S → Type 0
  UniqueTitles s =
      (i j : ℕ) (a b : Movie)
      → repository.row s i ≡ some a
      → repository.row s j ≡ some b
      → same_title_and_year a.columns b.columns ≡ true
      → i ≡ j

  same_title_and_year_symm :
      (a b : MovieColumns) → same_title_and_year a b ≡ true → same_title_and_year b a ≡ true
  unfolding same_title_and_year
  same_title_and_year_symm a b h = ground (arith, eq_iff a.title b.title, eq_iff b.title a.title)

  insert_step :
      (dto : CreateMovieDto) (s : S)
      → UniqueTitles s
      → UniqueTitles (repository.insert (movie_of dto) s).1
  unfolding UniqueTitles
  insert_step dto = insert-IsUnique repository same_title_and_year_symm (movie_of dto)

  save_step :
      (id created : ℕ) (d : MovieDraft) (s : S)
      → UniqueTitles s
      → UniqueTitles (repository.save id created d s).1
  unfolding UniqueTitles
  save_step id created d = save-IsUnique repository same_title_and_year_symm id created d

  delete_step : (id : ℕ) (s : S) → UniqueTitles s → UniqueTitles (repository.delete id s).1
  unfolding UniqueTitles
  delete_step id = delete-IsUnique repository same_title_and_year_symm id

  handle-Keeps :
      (request : Request) → Keeps UniqueTitles (handle nest arithmetic repository request)
  unfolding handle MoviesService.find_all MoviesService.find_one MoviesService.create
      MoviesService.update MoviesService.remove
  handle-Keeps Request.find_all = search keeps_rules
  handle-Keeps (Request.find_one id) = search keeps_rules
  handle-Keeps (Request.create dto) = search (keeps_rules, insert_step) depth 8
  handle-Keeps (Request.update id changes) = search (keeps_rules, save_step) depth 9
  handle-Keeps (Request.remove id) = search (keeps_rules, delete_step) depth 8

  serve-Keeps :
      (requests : List Request)
      → All (Keeps UniqueTitles) (map (serve nest arithmetic repository) requests)
  unfolding serve
  serve-Keeps [] = tt
  serve-Keeps (r ∷ rs) = (
    Keeps-catch (handle nest arithmetic repository r) _ (handle-Keeps r) (λ e. Keeps-throw _),
    serve-Keeps rs,
  )

  -- Whatever requests run at the same time, and in whatever order their calls reach the database,
  -- no two stored movies ever have the same title and release year.
  pub interleave-UniqueTitles :
      (requests : List Request) (schedule : List ℕ) (s : S)
      → UniqueTitles s
      → UniqueTitles (interleave schedule (map (serve nest arithmetic repository) requests) s).1
  interleave-UniqueTitles requests schedule s u =
      interleave-Keeps UniqueTitles schedule (map (serve nest arithmetic repository) requests) s
        (serve-Keeps requests) u
