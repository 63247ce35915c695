-- ===== src/Catalog/MoviesService/Updating.antt =====
-- `MoviesService.update` of a stored movie by changes within their bounds.
use cinema_microservices.Catalog.MoviesService.{
  update, merge, not_excluded, find_one, assert_change_is_free, assert_title_is_free, has_title,
  movie_exists,
}
use cinema_microservices.Catalog.MoviesService.Merging.{
  IsMovie, IsFilled, changed, accept_movie-merge,
}
use cinema_microservices.Prelude.{
  if◌then◌else◌, ◌===◌, ◌==◌, ◌||◌, ◌∙◌, ◌≡◌, ◌≤◌, ℕ, String, some, true, arith, suc, ==_iff, zero,
  false, subst, Bool-cases, sym, ap, not, inl, inr, ◌⊎◌, Option, eq_iff,
}
use cinema_microservices.Runtime.Exceptions.{Nest}
use cinema_microservices.Catalog.Movie.{
  Movie, Movies, same_title_and_year, MovieColumns, movies_table,
}
use cinema_microservices.Shared.Money.{Arithmetic}
use cinema_microservices.Shared.Dtos.Movies.{UpdateMovieDto, given_or, IsUpdateMovieDto}
use cinema_microservices.Runtime.Async.{Settled, fulfilled, run, rejected}
use cinema_microservices.Runtime.Repository.{Clash}
use cinema_microservices.Catalog.MoviesService.Changes.{find_stored, not_excluded_lem}
use cinema_microservices.Runtime.Async.Interleaving.{run-settle}

excluded_lem : (id : ℕ) (o : Movie) → 1 ≤ id → not_excluded (some id) o ≡ true → ¬ (o.id ≡ id)
excluded_lem zero o low h e = omega arith
excluded_lem (suc id) o low h e = let same = (==_iff o.id (suc id)).1 e in ground arith

unchanged_parts :
    (title old_title : String) (year old_year : ℕ)
    → (not (title === old_title) || not (year == old_year)) ≡ false
    → (title ≡ old_title) × (year ≡ old_year)
unchanged_parts title old_title year old_year h =
    ground (arith, eq_iff title old_title, ==_iff year old_year)

same_parts :
    (a b : MovieColumns)
    → same_title_and_year a b ≡ true
    → (a.title ≡ b.title) × (a.release_year ≡ b.release_year)
unfolding same_title_and_year
same_parts a b h = ground (arith, eq_iff a.title b.title, ==_iff a.release_year b.release_year)

has_title_parts :
    (title : String) (year : ℕ) (x : Option ℕ) (o : Movie)
    → has_title title year x o ≡ true
    → (o.columns.title ≡ title) × (o.columns.release_year ≡ year) × (not_excluded x o ≡ true)
has_title_parts title year x o h =
    ground (arith, eq_iff o.columns.title title, ==_iff o.columns.release_year year)

module _ (nest : Nest) (arithmetic : Arithmetic) {S : Type 0} (movies : Movies arithmetic S) where
  -- Another stored movie has this title and year.
  abbrev pub TakenBy : ℕ → S → String → ℕ → Movie → Type 0
  TakenBy id s title year other =
      (movies.row s other.id ≡ some other)
      × ¬ (other.id ≡ id)
      × (other.columns.title ≡ title)
      × (other.columns.release_year ≡ year)

  -- No two stored movies have the same title and year.
  abbrev pub OneEach : S → Type 0
  OneEach s =
      (a b : Movie)
      → movies.row s a.id ≡ some a
      → movies.row s b.id ≡ some b
      → a.columns.title ≡ b.columns.title
      → a.columns.release_year ≡ b.columns.release_year
      → a.id ≡ b.id

  pub record Changed (m : Movie) (changes : UpdateMovieDto) (s : S) (out : Settled Movie × S)
      : Type 0 where
    pub movie : Movie
    pub result : out.0 ≡ fulfilled movie
    pub same_id : movie.id ≡ m.id
    pub same_created : movie.created_at ≡ m.created_at
    pub columns : movie.columns ≡ changed m.columns changes
    pub rows : (j : ℕ) → movies.row out.1 j ≡ (if j == m.id then some movie else movies.row s j)

  module _ (id : ℕ) (changes : UpdateMovieDto) (s : S) (m : Movie) (up : movies.is_up s ≡ true)
      (there : movies.row s id ≡ some m) where
    abbrev new_title : String
    new_title = given_or changes.title m.columns.title

    abbrev new_year : ℕ
    new_year = given_or changes.release_year m.columns.release_year

    -- Past the check, an update is one UPDATE.
    run-update_free :
        movies.exists_by (has_title new_title new_year (some id)) s ≡ fulfilled false
        → run (update nest arithmetic movies id changes) s
          ≡ movies.save m.id m.created_at (merge m.columns changes) s
    unfolding update find_one assert_change_is_free assert_title_is_free
    run-update_free free =
        elim (Bool-cases
          (not (new_title === m.columns.title) || not (new_year == m.columns.release_year))) [
            | inl new ↦
                rw (find_stored nest arithmetic movies id s m up there, new, free, run)
                  (let (r, s') = movies.save m.id m.created_at (merge m.columns changes) s in
                    run-settle r s')
            | inr same ↦
                rw (find_stored nest arithmetic movies id s m up there, same, run)
                  (let (r, s') = movies.save m.id m.created_at (merge m.columns changes) s in
                    run-settle r s')
          ]

    save-Changed :
        IsMovie m.columns
        → IsUpdateMovieDto changes
        → IsFilled changes
        → ((other : Movie) → ¬ TakenBy id s new_title new_year other)
        → Changed m changes s (movies.save m.id m.created_at (merge m.columns changes) s)
    save-Changed valid new filled free =
        let accepted = accept_movie-merge arithmetic m.columns changes valid new filled in
        let m_id = movies.row_id s id m there in
        let at_id : movies.row s m.id ≡ some m =
          subst (λ j. movies.row s j ≡ some m) (sym m_id) there in
        elim (movies.save_up m.id m.created_at (merge m.columns changes) s m up at_id) [
          | inl updated ↦ record {
            movie = updated.new;
            result = updated.result;
            same_id = updated.same_id;
            same_created = updated.same_created;
            columns = cc (accepted, updated.accepted);
            rows = updated.writes.0;
          }
          | inr refused ↦ elim refused.reason [
            | inl (c, stores_c, _, clash) ↦
                let same : c ≡ changed m.columns changes = cc (accepted, stores_c) in
                absurd (clash_free c same clash)
            | inr (violation, _) ↦ cc (accepted, violation)
          ]
        ]
      where
        clash_free :
            (c : MovieColumns)
            → c ≡ changed m.columns changes
            → Clash (movies_table arithmetic) movies.row movies.is_up s (λ j. j == m.id) c
            → ⊥
        clash_free c same clash =
            let o = clash.row_of in
            let o_id = movies.row_id s clash.other o clash.found in
            let o_there : movies.row s o.id ≡ some o =
              subst (λ j. movies.row s j ≡ some o) (sym o_id) clash.found in
            let (title, year) = same_parts c o.columns clash.clashing in
            let not_own = clash.not_own in
            let m_id = movies.row_id s id m there in
            let apart : ¬ (o.id ≡ id) = λ e.
              let own = (==_iff clash.other m.id).1 (sym o_id ∙ e ∙ sym m_id) in
              cc (own, not_own) in
            free o (
              o_there,
              apart,
              sym title ∙ ap (λ (x : MovieColumns). x.title) same,
              sym year ∙ ap (λ (x : MovieColumns). x.release_year) same,
            )

    run-update_taken :
        (not (new_title === m.columns.title) || not (new_year == m.columns.release_year)) ≡ true
        → movies.exists_by (has_title new_title new_year (some id)) s ≡ fulfilled true
        → run (update nest arithmetic movies id changes) s
          ≡ (rejected (movie_exists nest new_title new_year), s)
    unfolding update find_one assert_change_is_free assert_title_is_free
    run-update_taken new found =
        rw (find_stored nest arithmetic movies id s m up there, new, found, run)

    -- Where another movie has the title and year that this one is to have, these are new to it.
    TakenBy-new :
        (o : Movie)
        → OneEach s
        → TakenBy id s new_title new_year o
        → (not (new_title === m.columns.title) || not (new_year == m.columns.release_year)) ≡ true
    TakenBy-new o one_each (o_there, apart, t, y) =
        let m_id = movies.row_id s id m there in
        let at_id : movies.row s m.id ≡ some m =
          subst (λ j. movies.row s j ≡ some m) (sym m_id) there in
        elim (Bool-cases
          (not (new_title === m.columns.title) || not (new_year == m.columns.release_year))) [
            | inl new ↦ new
            | inr same ↦
                let (title, year) =
                  unchanged_parts new_title m.columns.title new_year m.columns.release_year same in
                absurd (apart (one_each o m o_there at_id (t ∙ title) (y ∙ year) ∙ m_id))
          ]

    no_row-free :
        ((j : ℕ) (o : Movie)
          → movies.row s j ≡ some o
          → has_title new_title new_year (some id) o ≡ false)
        → (other : Movie) → ¬ TakenBy id s new_title new_year other
    no_row-free no_row other (other_there, apart, t, y) =
        let fails = no_row other.id other other_there in
        let same_title = (eq_iff other.columns.title new_title).1 t in
        let same_year = (==_iff other.columns.release_year new_year).1 y in
        let other_id = not_excluded_lem id other apart in ground arith

    -- With the database up and no title and year stored twice, for a movie stored under an id from
    -- 1, itself within the bounds, and changes within their bounds, of which none takes a required
    -- column away: if another movie has the resulting title and year, the answer is a
    -- conflict and nothing is written; otherwise this row gets exactly the given columns and keeps
    -- the others, and no other row changes.
    pub update_up :
        1 ≤ id
        → OneEach s
        → IsMovie m.columns
        → IsUpdateMovieDto changes
        → IsFilled changes
        → let out = run (update nest arithmetic movies id changes) s in
          (((other : Movie) → ¬ TakenBy id s new_title new_year other) × Changed m changes s out)
          ⊎ ((other : Movie) × TakenBy id s new_title new_year other
              × (out ≡ (rejected (movie_exists nest new_title new_year), s)))
    update_up low one_each valid new filled =
        elim (movies.exists_by_up (has_title new_title new_year (some id)) s up) [
          | inr (found, no_row) ↦
              let free : (other : Movie) → ¬ TakenBy id s new_title new_year other =
                λ other taken. no_row-free no_row other taken in
              inl (free, rw (run-update_free found) (save-Changed valid new filled free))
          | inl (o, found, o_there, fits) ↦
              let (t, y, other) = has_title_parts new_title new_year (some id) o fits in
              let taken : TakenBy id s new_title new_year o =
                (o_there, excluded_lem id o low other, t, y) in
              inr (o, taken, run-update_taken (TakenBy-new o one_each taken) found)
        ]
