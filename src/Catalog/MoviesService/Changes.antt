-- ===== src/Catalog/MoviesService/Changes.antt =====
-- `MoviesService.remove` and `MoviesService.update` on stored movies.
use cinema_microservices.Catalog.MoviesService.{
  update, remove, has_title, find_one, assert_change_is_free, assert_title_is_free, merge,
  movie_not_found, not_excluded, movie_exists,
}
use cinema_microservices.Prelude.{
  if◌then◌else◌, refl, ◌===◌, ◌==◌, ◌∙◌, ◌≡◌, ◌⊎◌, ℕ, true, some, String, Option, none,
  Option-cases, eq_iff, inl, ==_iff, inr, ap, subst, Bool-cases, sym, arith, ◌||◌, ◌≤◌, not, suc,
  zero,
}
use cinema_microservices.Runtime.Exceptions.{Nest, query_failed}
use cinema_microservices.Shared.Money.{Arithmetic}
use cinema_microservices.Catalog.Movie.{Movies, Movie, accept_movie, movies_table, MovieColumns}
use cinema_microservices.Shared.Dtos.Movies.{UpdateMovieDto, is_null, absent, given_or}
use cinema_microservices.Runtime.Async.{run, fulfilled, rejected, Settled}
use cinema_microservices.Runtime.Repository.{violates, Finds}
use cinema_microservices.Runtime.Async.Interleaving.{run-settle}

pub not_excluded_lem : (id : ℕ) (o : Movie) → ¬ (o.id ≡ id) → not_excluded (some id) o ≡ true
not_excluded_lem zero o apart = refl
not_excluded_lem (suc id) o apart = elim (Bool-cases (o.id == suc id)) [
  | inl same ↦ absurd (apart ((==_iff o.id (suc id)).0 same))
  | inr other ↦ rw (other) refl
]

is_changed :
    (a b : MovieColumns)
    → (¬ (a.title ≡ b.title)) ⊎ (¬ (a.release_year ≡ b.release_year))
    → (not (a.title === b.title) || not (a.release_year == b.release_year)) ≡ true
is_changed a b new = elim (Bool-cases (a.title === b.title)) [
  | inr title ↦ rw (title) refl
  | inl title ↦ elim (Bool-cases (a.release_year == b.release_year)) [
    | inr year ↦ rw (title, year) refl
    | inl year ↦ elim new [
      | inl n ↦ absurd (n ((eq_iff a.title b.title).0 title))
      | inr n ↦ absurd (n ((==_iff a.release_year b.release_year).0 year))
    ]
  ]
]

module _ (nest : Nest) (arithmetic : Arithmetic) {S : Type 0} (movies : Movies arithmetic S) where
  -- With the database up and an id in the range of the column, either a movie has this id, and
  -- removing it takes this one row away and no other, or none has, and the answer is 404 and nothing
  -- changes.
  pub remove_up :
      (id : ℕ) (s : S)
      → movies.is_up s ≡ true
      → id ≤ 2147483647
      → let (result, s') = run (remove nest arithmetic movies id) s in
        ((m : Movie) × (movies.row s id ≡ some m)
          × (result ≡ fulfilled tt)
          × ((j : ℕ) → movies.row s' j ≡ (if j == id then none else movies.row s j)))
        ⊎ ((movies.row s id ≡ none)
            × (result ≡ rejected (movie_not_found nest id))
            × ((j : ℕ) → movies.row s' j ≡ movies.row s j))
  unfolding remove
  remove_up id s up in_range = elim (Option-cases (movies.row s id)) [
    | inl gone ↦
        let (affected, same) = movies.delete_missing id s up gone in
        inr (gone, rw (affected, run), rw (affected, run) same.0)
    | inr (old, there) ↦
        let (affected, writes) = movies.delete_up id s old up there in
        inl (old, there, rw (affected, run), rw (affected, run) writes.0)
  ]

  pub find_stored :
      (id : ℕ) (s : S) (m : Movie)
      → movies.is_up s ≡ true
      → movies.row s id ≡ some m
      → movies.find_one_by (λ o. o.id == id) s ≡ fulfilled (some m)
  find_stored id s m up there = cases (movies.find_one_by_up (λ o. o.id == id) s up)
    where
      cases :
          (o : Option Movie) × (movies.find_one_by (λ o. o.id == id) s ≡ fulfilled o)
            × Finds (movies_table arithmetic) movies.row movies.is_up (λ o. o.id == id) s o
          → movies.find_one_by (λ o. o.id == id) s ≡ fulfilled (some m)
      cases (none, e, no_row) =
          let fails = no_row id m there in
          let same = (==_iff m.id id).1 (movies.row_id s id m there) in cc (fails, same)
      cases (some o, e, (at_id, fits)) =
          let here : movies.row s id ≡ some o =
            subst (λ j. movies.row s j ≡ some o) ((==_iff o.id id).0 fits) at_id in
          let it : o ≡ m = cc in e ∙ ap (λ (x : Movie). fulfilled (some x)) it

  -- With the database up, a change of the title, of the year or of both that another stored movie
  -- already has is a conflict, and nothing is written.
  pub update_taken :
      (id : ℕ) (changes : UpdateMovieDto) (s : S) (m other : Movie)
      → movies.is_up s ≡ true
      → movies.row s id ≡ some m
      → movies.row s other.id ≡ some other
      → ¬ (other.id ≡ id)
      → other.columns.title ≡ given_or changes.title m.columns.title
      → other.columns.release_year ≡ given_or changes.release_year m.columns.release_year
      → (¬ (other.columns.title ≡ m.columns.title))
        ⊎ (¬ (other.columns.release_year ≡ m.columns.release_year))
      → run (update nest arithmetic movies id changes) s
        ≡ (rejected (movie_exists nest other.columns.title other.columns.release_year), s)
  unfolding update find_one assert_change_is_free assert_title_is_free
  update_taken id changes s m other up there other_there apart t y new =
      let title = given_or changes.title m.columns.title in
      let year = given_or changes.release_year m.columns.release_year in
      let changed : (not (title === m.columns.title) || not (year == m.columns.release_year))
          ≡ true =
        rw (← t, ← y) (is_changed other.columns m.columns new) in
      let found : movies.exists_by (has_title title year (some id)) s ≡ fulfilled true =
        elim (movies.exists_by_up (has_title title year (some id)) s up) [
          | inl (o, e, _, _) ↦ e
          | inr (_, no_row) ↦
              let fails = no_row other.id other other_there in
              let same_title = (eq_iff other.columns.title title).1 t in
              let same_year = (==_iff other.columns.release_year year).1 y in
              let other_id = not_excluded_lem id other apart in ground arith
        ] in
      rw (find_stored id s m up there, changed, found, t, y, run)

  accept_null :
      (m : Movie) (changes : UpdateMovieDto)
      → changes.title ≡ is_null
      → accept_movie arithmetic (merge m.columns changes) ≡ violates "23502"
  unfolding accept_movie
  accept_null m changes null = rw null refl

  save_null :
      (m : Movie) (changes : UpdateMovieDto) (s : S)
      → movies.is_up s ≡ true
      → movies.row s m.id ≡ some m
      → changes.title ≡ is_null
      → (movies.save m.id m.created_at (merge m.columns changes) s).0
        ≡ rejected (query_failed (some "23502"))
  save_null m changes s up there null =
      let violation = accept_null m changes null in
      elim (movies.save_up m.id m.created_at (merge m.columns changes) s m up there) [
        | inl updated ↦ cc (violation, updated.accepted)
        | inr refused ↦ elim refused.reason [
          | inl (c, stores_c, _, _) ↦ cc (violation, stores_c)
          | inr (e, _) ↦
              let same : refused.code ≡ "23502" = cc (violation, e) in
              let fault : String → Settled Movie = λ x. rejected (query_failed (some x)) in
              refused.result ∙ ap fault same
        ]
      ]

  -- With the old title and year an update is one UPDATE.
  pub run-update_same :
      (id : ℕ) (changes : UpdateMovieDto) (s : S) (m : Movie)
      → movies.is_up s ≡ true
      → movies.row s id ≡ some m
      → given_or changes.title m.columns.title ≡ m.columns.title
      → given_or changes.release_year m.columns.release_year ≡ m.columns.release_year
      → run (update nest arithmetic movies id changes) s
        ≡ movies.save m.id m.created_at (merge m.columns changes) s
  unfolding update find_one assert_change_is_free
  run-update_same id changes s m up there title year =
      let same_title = (eq_iff m.columns.title m.columns.title).1 refl in
      let same_year = (==_iff m.columns.release_year m.columns.release_year).1 refl in
      rw (find_stored id s m up there, title, year, same_title, same_year, run)
        (let (r, s') = movies.save m.id m.created_at (merge m.columns changes) s in run-settle r s')

  -- A title that is `null` passes for no change when it is checked, but is written: the answer is a
  -- NOT NULL violation of the database.
  pub update_null_title :
      (id : ℕ) (changes : UpdateMovieDto) (s : S) (m : Movie)
      → movies.is_up s ≡ true
      → movies.row s id ≡ some m
      → changes.title ≡ is_null
      → changes.release_year ≡ absent
      → (run (update nest arithmetic movies id changes) s).0
        ≡ rejected (query_failed (some "23502"))
  update_null_title id changes s m up there null no_year =
      let at_id : movies.row s m.id ≡ some m =
        subst (λ j. movies.row s j ≡ some m) (sym (movies.row_id s id m there)) there in
      let same_title : given_or changes.title m.columns.title ≡ m.columns.title = rw null refl in
      let same_year : given_or changes.release_year m.columns.release_year
          ≡ m.columns.release_year =
        rw no_year refl in
      ap (λ (r : Settled Movie × S). r.0)
        (run-update_same id changes s m up there same_title same_year)
      ∙ save_null m changes s up at_id null
