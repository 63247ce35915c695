-- ===== src/Catalog/MoviesService/Listing.antt =====
-- `MoviesService.findAll`: the list of the movies.
use cinema_microservices.Catalog.MoviesService.{find_all, by_id}
use cinema_microservices.Prelude.{
  [], refl, ◌<◌, ◌↔◌, ◌∷◌, ◌≡◌, List, All, false, true, arith, In, some,
}
use cinema_microservices.Catalog.Movie.{Movie, Movies}
use cinema_microservices.Runtime.Exceptions.{Nest}
use cinema_microservices.Runtime.Repository.{Sorted, IsOrder}
use cinema_microservices.Shared.Money.{Arithmetic}
use cinema_microservices.Runtime.Async.{run, fulfilled}

by_id-chain : (a b c : Movie) → by_id a b ≡ true → by_id b c ≡ true → by_id a c ≡ true
by_id-chain a b c h k = ground arith

by_id-total : (a b : Movie) → by_id a b ≡ false → by_id b a ≡ false → a.id ≡ b.id
by_id-total a b h k = ground arith

-- The id of each movie is below those of all that follow it.
abbrev pub Ascending : List Movie → Type 0
Ascending [] = Unit
Ascending (m ∷ ms) = All (λ m'. m.id < m'.id) ms × Ascending ms

All-by_id :
    (m : Movie) (ms : List Movie) → All (λ m'. by_id m m' ≡ true) ms → All (λ m'. m.id < m'.id) ms
All-by_id m [] h = tt
All-by_id m (m' ∷ ms) (h, hs) = (ground arith, All-by_id m ms hs)

Sorted-Ascending : (ms : List Movie) → Sorted by_id ms → Ascending ms
Sorted-Ascending [] h = tt
Sorted-Ascending (m ∷ ms) (h, hs) = (All-by_id m ms h, Sorted-Ascending ms hs)

module _ (nest : Nest) (arithmetic : Arithmetic) {S : Type 0} (movies : Movies arithmetic S) where
  -- With the database up, the list has exactly the stored movies, each of them once, by ascending
  -- ids; nothing changes.
  pub find_all_up :
      (s : S)
      → movies.is_up s ≡ true
      → (ms : List Movie) × (run (find_all nest arithmetic movies) s ≡ (fulfilled ms, s))
        × Ascending ms
        × ((m : Movie) → In m ms ↔ (movies.row s m.id ≡ some m))
  unfolding find_all
  find_all_up s up =
      let order : IsOrder by_id = record { chain = by_id-chain; total = by_id-total } in
      let (ms, found, sorted, exact) = movies.find_up (λ o. true) by_id s order up in
      (
        ms,
        rw (found, run),
        Sorted-Ascending ms sorted,
        λ m. (λ h. ((exact m).0 h).0, λ there. (exact m).1 (there, refl)),
      )
