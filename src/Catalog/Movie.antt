-- ===== src/Catalog/Movie.antt =====
-- apps/catalog-service/src/entities/movie.entity.ts and the migration CreateMovies: the table
-- `movies`.
use cinema_microservices.Prelude.{◌&&◌, ◌===◌, ◌==◌, Option, String, Bool, ℕ, ltb}
use cinema_microservices.Runtime.Repository.{Row, Accepted, Repository, Table, stores}
use cinema_microservices.Shared.Money.{Arithmetic}
use cinema_microservices.Runtime.Value.{Number}
use cinema_microservices.Runtime.Columns.{
  ◌>>=◌, required, varchar, smallint, check, in_numeric, non_negative,
}

-- The columns of a stored movie beside its id and its two times.
pub record MovieColumns : Type 0 where
  pub title : String
  pub description : Option String
  pub release_year : ℕ
  pub duration_minutes : ℕ
  pub ticket_price : Number

-- A `Movie` object in memory, whose properties may be `null` or `undefined` until it is saved.
pub record MovieDraft : Type 0 where
  pub title : Option String
  pub description : Option String
  pub release_year : Option ℕ
  pub duration_minutes : Option ℕ
  pub ticket_price : Option Number

abbrev pub Movie : Type 0
Movie = Row MovieColumns

-- UQ_movies_title_release_year
unfoldable pub same_title_and_year : MovieColumns → MovieColumns → Bool
same_title_and_year a b = a.title === b.title && a.release_year == b.release_year

module _ (arithmetic : Arithmetic) where
  -- Of several violations the one of the first column is reported; PostgreSQL reports a value out of
  -- the range of its type before a missing one, and a CHECK last.
  unfoldable pub accept_movie : MovieDraft → Accepted MovieColumns
  accept_movie d = do
    title ← required d.title
    title ← varchar 255 title
    year ← required d.release_year
    year ← smallint year
    minutes ← required d.duration_minutes
    minutes ← smallint minutes
    minutes ← check (ltb 0 minutes) minutes
    price ← required d.ticket_price
    price ← in_numeric (arithmetic.numeric 10 2 price)
    price ← check (non_negative price) price
    stores (record {
      title = title;
      description = d.description;
      release_year = year;
      duration_minutes = minutes;
      ticket_price = price;
    })

  abbrev pub movies_table : Table MovieDraft MovieColumns
  movies_table = record {
    accept = accept_movie;
    clashes = same_title_and_year;
    on_update = λ old new. new;
  }

  abbrev pub Movies : Type 0 → Type 0
  Movies S = Repository S MovieDraft MovieColumns movies_table
