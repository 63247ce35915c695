-- ===== src/Catalog/MoviesService/Creation.antt =====
-- `MoviesService.create` on every branch.
use cinema_microservices.Catalog.MoviesService.{create, movie_exists, movie_of}
use cinema_microservices.Prelude.{
  if◌then◌else◌, ◌==◌, ◌≡◌, ◌⊎◌, String, ℕ, some, none, false, arith, eq_iff, ==_iff, true, inl,
  inr, subst,
}
use cinema_microservices.Runtime.Exceptions.{Nest}
use cinema_microservices.Shared.Money.{Arithmetic}
use cinema_microservices.Catalog.Movie.{Movies, Movie, same_title_and_year, movies_table}
use cinema_microservices.Shared.Dtos.Movies.{CreateMovieDto, IsCreateMovieDto}
use cinema_microservices.Runtime.Async.{Settled, fulfilled, run, rejected}
use cinema_microservices.Catalog.MoviesService.{has_title}
use cinema_microservices.Catalog.MoviesService.Validity.{columns_of, accept_movie-movie_of}
use cinema_microservices.Runtime.Async.Interleaving.{run-settle}
use cinema_microservices.Runtime.Repository.{Clash}

module _ (nest : Nest) (arithmetic : Arithmetic) {S : Type 0} (movies : Movies arithmetic S) where
  -- Some stored movie has this title and release year.
  abbrev pub Taken : S → String → ℕ → Type 0
  Taken s title year =
      (o : Movie) × (movies.row s o.id ≡ some o)
      × (o.columns.title ≡ title)
      × (o.columns.release_year ≡ year)

  pub record Created (dto : CreateMovieDto) (s : S) (out : Settled Movie × S) : Type 0 where
    pub movie : Movie
    pub result : out.0 ≡ fulfilled movie
    pub columns : movie.columns ≡ columns_of dto
    pub fresh : movies.row s movie.id ≡ none
    pub was_free : ¬ Taken s dto.title dto.release_year
    pub rows : (j : ℕ) → movies.row out.1 j ≡ (if j == movie.id then some movie else movies.row s j)

  not-Taken :
      (s : S) (title : String) (year : ℕ)
      → ((j : ℕ) (o : Movie) → movies.row s j ≡ some o → has_title title year none o ≡ false)
      → ¬ Taken s title year
  not-Taken s title year h (o, found, t, y) =
      let no_match = h o.id o found in
      ground (arith, eq_iff o.columns.title title, ==_iff o.columns.release_year year)

  has_title-parts :
      (title : String) (year : ℕ) (o : Movie)
      → has_title title year none o ≡ true
      → (o.columns.title ≡ title) × (o.columns.release_year ≡ year)
  has_title-parts title year o h =
      ground (arith, eq_iff o.columns.title title, ==_iff o.columns.release_year year)

  -- Past the check, creating a movie is one INSERT.
  pub run-create_free :
      (dto : CreateMovieDto) (s : S)
      → movies.exists_by (has_title dto.title dto.release_year none) s ≡ fulfilled false
      → run (create nest arithmetic movies dto) s ≡ movies.insert (movie_of dto) s
  unfolding create
  run-create_free dto s found =
      rw (found, run) (let (r, s') = movies.insert (movie_of dto) s in run-settle r s')

  no-Clash :
      (dto : CreateMovieDto) (s : S)
      → ((j : ℕ) (o : Movie)
          → movies.row s j ≡ some o
          → has_title dto.title dto.release_year none o ≡ false)
      → ¬ Clash (movies_table arithmetic) movies.row movies.is_up s (λ j. false) (columns_of dto)
  unfolding same_title_and_year
  no-Clash dto s free c =
      let no_match = free c.other c.row_of c.found in
      let clashing = c.clashing in
      ground
        (arith, eq_iff c.row_of.columns.title dto.title, eq_iff dto.title c.row_of.columns.title)

  insert-Created :
      (dto : CreateMovieDto) (s : S)
      → movies.is_up s ≡ true
      → IsCreateMovieDto dto
      → ((j : ℕ) (o : Movie)
          → movies.row s j ≡ some o
          → has_title dto.title dto.release_year none o ≡ false)
      → Created dto s (movies.insert (movie_of dto) s)
  insert-Created dto s up valid free =
      let accepted = accept_movie-movie_of arithmetic dto valid in
      elim (movies.insert_up (movie_of dto) s up) [
        | inl stored ↦ record {
          movie = stored.new;
          result = stored.result;
          columns = cc (accepted, stored.accepted);
          fresh = stored.fresh;
          was_free = not-Taken s dto.title dto.release_year free;
          rows = stored.writes.0;
        }
        | inr refused ↦ elim refused.reason [
          | inl (c, stores_c, _, clash) ↦
              let same : c ≡ columns_of dto = cc (accepted, stores_c) in
              absurd (
                no-Clash dto s free (
                  subst
                    (λ x. Clash (movies_table arithmetic) movies.row movies.is_up s (λ j. false) x)
                    same clash))
          | inr (violation, _) ↦ cc (accepted, violation)
        ]
      ]

  -- With the database up, a validated payload is stored under a fresh id, with nothing else
  -- changed, if no movie has its title and release year; otherwise the answer is a conflict and
  -- nothing is written.
  pub create_up :
      (dto : CreateMovieDto) (s : S)
      → movies.is_up s ≡ true
      → IsCreateMovieDto dto
      → let out = run (create nest arithmetic movies dto) s in
        Created dto s out
        ⊎ (Taken s dto.title dto.release_year
            × (out ≡ (rejected (movie_exists nest dto.title dto.release_year), s)))
  unfolding create
  create_up dto s up valid =
      elim (movies.exists_by_up (has_title dto.title dto.release_year none) s up) [
        | inl (o, found, there, fits) ↦ inr (
          (
            o,
            there,
            (has_title-parts dto.title dto.release_year o fits).0,
            (has_title-parts dto.title dto.release_year o fits).1,
          ),
          ground arith,
        )
        | inr (found, free) ↦
            inl (rw (run-create_free dto s found) (insert-Created dto s up valid free))
      ]
