-- ===== src/Catalog/MoviesService.antt =====
-- apps/catalog-service/src/movies.service.ts
pub mod Validity
pub mod Creation
pub mod Changes
pub mod Merging
pub mod Updating
pub mod Listing
use cinema_microservices.Prelude.{
  [], if◌then◌else◌, ◌&&◌, ◌===◌, ◌==◌, ◌||◌, ◌∷◌, Option, String, Bool, none, ℕ, ltb, some, true,
  suc, List, not, zero,
}
use cinema_microservices.Catalog.Movie.{Movie, MovieColumns, MovieDraft, Movies}
use cinema_microservices.Runtime.Exceptions.{Nest, Thrown, http_exception}
use cinema_microservices.Shared.Dtos.Movies.{
  CreateMovieDto, Optional, UpdateMovieDto, given, absent, given_or, is_null,
}
use cinema_microservices.Shared.Money.{Arithmetic}
use cinema_microservices.Runtime.Async.{Async, read, ◌>>=◌, ◌>>◌, call, or_throw, throw_if, return}
use cinema_microservices.Runtime.Value.{template, show}

abbrev pub value_of : {A : Type 0} → Optional A → Option A
value_of absent = none
value_of is_null = none
value_of (given a) = some a

-- `this.movies.create(dto)`
abbrev pub movie_of : CreateMovieDto → MovieDraft
movie_of dto = record {
  title = some dto.title;
  description = value_of dto.description;
  release_year = some dto.release_year;
  duration_minutes = some dto.duration_minutes;
  ticket_price = some dto.ticket_price;
}

-- `merge` copies every property that is not `undefined`, a `null` too.
abbrev pub merged : {A : Type 0} → Option A → Optional A → Option A
merged old absent = old
merged old is_null = none
merged old (given a) = some a

abbrev pub merge : MovieColumns → UpdateMovieDto → MovieDraft
merge m changes = record {
  title = merged (some m.title) changes.title;
  description = merged m.description changes.description;
  release_year = merged (some m.release_year) changes.release_year;
  duration_minutes = merged (some m.duration_minutes) changes.duration_minutes;
  ticket_price = merged (some m.ticket_price) changes.ticket_price;
}

-- `order: { id: "ASC" }`
abbrev pub by_id : Movie → Movie → Bool
by_id a b = ltb a.id b.id

-- The condition on the id: `Not(excludeId)` where `excludeId` is given and not 0.
abbrev pub not_excluded : Option ℕ → Movie → Bool
not_excluded none o = true
not_excluded (some zero) o = true
not_excluded (some (suc id)) o = not (o.id == suc id)

abbrev pub has_title : String → ℕ → Option ℕ → Movie → Bool
has_title title year exclude_id o =
    o.columns.title === title && o.columns.release_year == year && not_excluded exclude_id o

module _ (nest : Nest) where
  unfoldable pub movie_not_found : ℕ → Thrown
  movie_not_found id =
      http_exception (nest.not_found (template ("Movie " ∷ show id ∷ " not found" ∷ [])))

  unfoldable pub movie_exists : String → ℕ → Thrown
  movie_exists title year =
      http_exception (
        nest.conflict
          (template ("Movie \"" ∷ title ∷ "\" (" ∷ show year ∷ ") already exists" ∷ [])))

module _ (nest : Nest) (arithmetic : Arithmetic) {S : Type 0} (movies : Movies arithmetic S) where
  unfoldable pub find_all : Async S (List Movie)
  find_all = read (movies.find (λ o. true) by_id)

  unfoldable pub find_one : ℕ → Async S Movie
  find_one id = do
    movie ← read (movies.find_one_by (λ o. o.id == id))
    or_throw movie (movie_not_found nest id)

  unfoldable pub assert_title_is_free : String → ℕ → Option ℕ → Async S (Unit {0})
  assert_title_is_free title year exclude_id = do
    exists ← read (movies.exists_by (has_title title year exclude_id))
    throw_if exists (movie_exists nest title year)

  unfoldable pub create : CreateMovieDto → Async S Movie
  unfolding assert_title_is_free
  create dto = do
    assert_title_is_free dto.title dto.release_year none
    call (movies.insert (movie_of dto))

  -- The check in `update`: only a new title or a new year is looked up.
  unfoldable pub assert_change_is_free : ℕ → Movie → String → ℕ → Async S (Unit {0})
  unfolding assert_title_is_free
  assert_change_is_free id movie title year =
      if not (title === movie.columns.title) || not (year == movie.columns.release_year)
      then assert_title_is_free title year (some id)
      else return tt

  unfoldable pub update : ℕ → UpdateMovieDto → Async S Movie
  unfolding find_one assert_change_is_free
  update id changes = do
    movie ← find_one id
    let title = given_or changes.title movie.columns.title
    let year = given_or changes.release_year movie.columns.release_year
    assert_change_is_free id movie title year
    call (movies.save movie.id movie.created_at (merge movie.columns changes))

  unfoldable pub remove : ℕ → Async S (Unit {0})
  remove id = do
    affected ← call (movies.delete id)
    throw_if (affected == 0) (movie_not_found nest id)
