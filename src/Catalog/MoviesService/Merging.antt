-- ===== src/Catalog/MoviesService/Merging.antt =====
-- `merge` of the changes to a movie in `MoviesService.update`.
use Prim.Native.String.{count}
use cinema_microservices.Catalog.MoviesService.{merge, merged}
use cinema_microservices.Prelude.{
  refl, ◌∙◌, ◌≡◌, ◌≤◌, ℕ, ap, some, arith, true, Option, String, none,
}
use cinema_microservices.Catalog.Movie.{MovieColumns, accept_movie, MovieDraft}
use cinema_microservices.Shared.Dtos.Movies.{
  Optional, UpdateMovieDto, IsUpdateMovieDto, given, given_or, is_null, absent,
}
use cinema_microservices.Shared.Money.{Arithmetic}
use cinema_microservices.Runtime.Repository.{stores}
use cinema_microservices.Runtime.Value.{hundredths}
use cinema_microservices.Runtime.Columns.{non_negative, non_negative-hundredths}

-- A value that is missing leaves the old one.
given_or-holds :
    {A : Type 0} (P : A → Type 0) (o : Optional A) (a : A)
    → P a
    → ((b : A) → o ≡ given b → P b)
    → P (given_or o a)
given_or-holds P absent a old new = old
given_or-holds P is_null a old new = old
given_or-holds P (given b) a old new = new b refl

merged_lem :
    {A : Type 0} (o : Optional A) (a : A)
    → ¬ (o ≡ is_null)
    → merged (some a) o ≡ some (given_or o a)
merged_lem absent a h = refl
merged_lem is_null a h = absurd (h refl)
merged_lem (given b) a h = refl

-- The columns of a stored movie are within the bounds of a validated one.
pub record IsMovie (m : MovieColumns) : Type 0 where
  pub title_length : count m.title ≤ 255
  pub year_max : m.release_year ≤ 2100
  pub duration_min : 1 ≤ m.duration_minutes
  pub duration_max : m.duration_minutes ≤ 600
  pub price : (cents : ℕ) × (m.ticket_price ≡ hundredths cents) × cents ≤ 1000000

-- No column that is NOT NULL is to become `null`.
pub record IsFilled (changes : UpdateMovieDto) : Type 0 where
  pub title : ¬ (changes.title ≡ is_null)
  pub year : ¬ (changes.release_year ≡ is_null)
  pub duration : ¬ (changes.duration_minutes ≡ is_null)
  pub price : ¬ (changes.ticket_price ≡ is_null)

-- A description that is `null` is taken away.
abbrev pub described : Option String → Optional String → Option String
described old absent = old
described old is_null = none
described old (given d) = some d

merged-described : (old : Option String) (o : Optional String) → merged old o ≡ described old o
merged-described old absent = refl
merged-described old is_null = refl
merged-described old (given d) = refl

-- The columns after the changes: what is given, and the old value of everything else.
abbrev pub changed : MovieColumns → UpdateMovieDto → MovieColumns
changed m changes = record {
  title = given_or changes.title m.title;
  description = described m.description changes.description;
  release_year = given_or changes.release_year m.release_year;
  duration_minutes = given_or changes.duration_minutes m.duration_minutes;
  ticket_price = given_or changes.ticket_price m.ticket_price;
}

pub changed-IsMovie :
    (m : MovieColumns) (changes : UpdateMovieDto)
    → IsMovie m
    → IsUpdateMovieDto changes
    → IsMovie (changed m changes)
changed-IsMovie m changes old new = record {
  title_length =
      given_or-holds (λ t. count t ≤ 255) changes.title m.title old.title_length new.title_length;
  year_max =
      given_or-holds (λ y. y ≤ 2100) changes.release_year m.release_year old.year_max new.year_max;
  duration_min =
      given_or-holds (λ d. 1 ≤ d) changes.duration_minutes m.duration_minutes old.duration_min
        new.duration_min;
  duration_max =
      given_or-holds (λ d. d ≤ 600) changes.duration_minutes m.duration_minutes old.duration_max
        new.duration_max;
  price =
      given_or-holds (λ p. (cents : ℕ) × (p ≡ hundredths cents) × cents ≤ 1000000)
        changes.ticket_price m.ticket_price old.price new.price;
}

abbrev draft_of : MovieColumns → MovieDraft
draft_of m = record {
  title = some m.title;
  description = m.description;
  release_year = some m.release_year;
  duration_minutes = some m.duration_minutes;
  ticket_price = some m.ticket_price;
}

merge_lem :
    (m : MovieColumns) (changes : UpdateMovieDto)
    → IsFilled changes
    → merge m changes ≡ draft_of (changed m changes)
merge_lem m changes filled =
    rw
      (
        merged-described m.description changes.description,
        merged_lem changes.title m.title filled.title,
        merged_lem changes.release_year m.release_year filled.year,
        merged_lem changes.duration_minutes m.duration_minutes filled.duration,
        merged_lem changes.ticket_price m.ticket_price filled.price,
      )
      refl

accept_movie-draft_of :
    (arithmetic : Arithmetic) (m : MovieColumns)
    → IsMovie m
    → accept_movie arithmetic (draft_of m) ≡ stores m
unfolding accept_movie
accept_movie-draft_of arithmetic m v =
    let (cents, is_cents, max) = v.price in
    let title = v.title_length in
    let year = v.year_max in
    let low = v.duration_min in
    let high = v.duration_max in
    let price : arithmetic.numeric 10 2 m.ticket_price ≡ some m.ticket_price =
      rw is_cents (arithmetic.numeric_hundredths 10 cents (omega arith)) in
    let sign : non_negative m.ticket_price ≡ true = rw is_cents (non_negative-hundredths cents) in
    ground arith

-- Changes within their bounds give columns that the table takes as they are.
pub accept_movie-merge :
    (arithmetic : Arithmetic) (m : MovieColumns) (changes : UpdateMovieDto)
    → IsMovie m
    → IsUpdateMovieDto changes
    → IsFilled changes
    → accept_movie arithmetic (merge m changes) ≡ stores (changed m changes)
accept_movie-merge arithmetic m changes old new filled =
    ap (accept_movie arithmetic) (merge_lem m changes filled)
    ∙ accept_movie-draft_of arithmetic (changed m changes) (changed-IsMovie m changes old new)
