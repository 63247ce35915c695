-- ===== src/Runtime/Memory/Operations.antt =====
-- The table in memory as a `Repository`.
use cinema_microservices.Prelude.{
  if◌then◌else◌, refl, ◌&&◌, ◌===◌, ◌==◌, ◌≡◌, ◌⊎◌, Bool, Option, String, ℕ, List, false, none,
  some, not, true, Option-cases, inl, subst, inr, arith, Bool-cases, ltb,
}
use cinema_microservices.Runtime.Exceptions.{Thrown, other_error, query_failed}
use cinema_microservices.Runtime.Memory.Search.{
  Memory, Body, row, search_below, put, Fits, row-put, search_below-Fits, row_id_lem,
}
use cinema_microservices.Runtime.Repository.{
  Table, Row, Writes, violates, Clash, IsFree, unique_violation, stores,
}
use cinema_microservices.Runtime.Async.{Settled, fulfilled, rejected}
use cinema_microservices.Runtime.Memory.Sorting.{collect}

-- Of the table's refusals none looks like a unique violation.
abbrev pub PlainCodes : {D C : Type 0} → Table D C → Type 0
PlainCodes {D} table =
    (d : D) (c : String) → table.accept d ≡ violates c → (c === unique_violation) ≡ false

abbrev pub down_error : Thrown
down_error = other_error (some "ECONNREFUSED")

abbrev pub unique_error : Thrown
unique_error = query_failed (some unique_violation)

abbrev pub is_up : {C : Type 0} → Memory C → Bool
is_up m = m.up

module _ {D C : Type 0} (table : Table D C) where
  -- A row that the given ids do not own and that clashes.
  abbrev pub rival : Memory C → (ℕ → Bool) → C → Option (Row C)
  rival m own c = search_below (λ o. not (own o.id) && table.clashes c o.columns) m m.size

  abbrev pub written : ℕ → ℕ → C → Row C
  written id created c = record { id = id; columns = c; created_at = created; updated_at = 0 }

  abbrev pub body_of : ℕ → C → Body C
  body_of created c = record { columns = c; created_at = created; updated_at = 0 }

  -- A write of `stored` that answers with `c`.
  unfoldable pub write : Memory C → (ℕ → Bool) → ℕ → ℕ → C → C → Settled (Row C) × Memory C
  write m own id created stored c = elim (rival m own stored) [
    | some o ↦ (rejected unique_error, m)
    | none ↦ (fulfilled (written id created c), put m id (some (body_of created stored)))
  ]

  pub rival-IsFree :
      (m : Memory C) (own : ℕ → Bool) (c : C)
      → rival m own c ≡ none
      → IsFree table row is_up m own c
  rival-IsFree m own c h j o there not_own =
      let all_fail : Fits (λ o. not (own o.id) && table.clashes c o.columns) m m.size none =
        subst (λ x. Fits (λ o. not (own o.id) && table.clashes c o.columns) m m.size x) h
          (search_below-Fits (λ o. not (own o.id) && table.clashes c o.columns) m m.size) in
      let e = row_id_lem m j o there in
      elim (Bool-cases (ltb j m.size)) [
        | inl inside ↦
            let fails = all_fail j o (ground arith) there in
            let not_own' : own o.id ≡ false = rw e not_own in ground arith
        | inr outside ↦ ground arith
      ]

  pub rival-Clash :
      (m : Memory C) (own : ℕ → Bool) (c : C) (o : Row C)
      → rival m own c ≡ some o
      → Clash table row is_up m own c
  rival-Clash m own c o h =
      let fits : Fits (λ o. not (own o.id) && table.clashes c o.columns) m m.size (some o) =
        subst (λ x. Fits (λ o. not (own o.id) && table.clashes c o.columns) m m.size x) h
          (search_below-Fits (λ o. not (own o.id) && table.clashes c o.columns) m m.size) in
      record {
        other = o.id;
        row_of = o;
        found = fits.0;
        not_own = ground arith;
        clashing = ground arith;
      }

  pub put-Writes :
      (m : Memory C) (id created : ℕ) (c : C)
      → Writes table row is_up m
          (put m id (some (body_of created c)))
          id
          (some (written id created c))
  put-Writes m id created c = (row-put m id (some (body_of created c)), refl)

  pub write_cases :
      (m : Memory C) (own : ℕ → Bool) (id created : ℕ) (stored c : C)
      → ((write m own id created stored c
            ≡ (fulfilled (written id created c), put m id (some (body_of created stored))))
          × IsFree table row is_up m own stored)
        ⊎ ((write m own id created stored c ≡ (rejected unique_error, m))
            × Clash table row is_up m own stored)
  unfolding write
  write_cases m own id created stored c = elim (Option-cases (rival m own stored)) [
    | inl free ↦ inl (rw (free, write), rival-IsFree m own stored free)
    | inr (o, clash) ↦ inr (rw (clash, write), rival-Clash m own stored o clash)
  ]

  unfoldable pub insert : D → Memory C → Settled (Row C) × Memory C
  insert d m =
      if m.up
      then (elim (table.accept d) [
        | violates code ↦ (rejected (query_failed (some code)), m)
        | stores c ↦ write m (λ j. false) m.size 0 c c
      ])
      else (rejected down_error, m)

  -- The columns that are stored where a row is there already.
  abbrev pub kept : Option (Row C) → C → C
  kept none c = c
  kept (some old) c = table.on_update old.columns c

  abbrev pub created_of : Option (Row C) → ℕ → ℕ
  created_of none created = created
  created_of (some old) created = old.created_at

  unfoldable pub save : ℕ → ℕ → D → Memory C → Settled (Row C) × Memory C
  save id created d m =
      if m.up
      then (elim (table.accept d) [
        | violates code ↦ (rejected (query_failed (some code)), m)
        | stores c ↦ write m (λ j. j == id) id (created_of (row m id) created) (kept (row m id) c) c
      ])
      else (rejected down_error, m)

  -- `delete({ id })`
  unfoldable pub delete : ℕ → Memory C → Settled ℕ × Memory C
  delete id m =
      if m.up
      then (elim (row m id) [ none ↦ (fulfilled 0, m) | some o ↦ (fulfilled 1, put m id none) ])
      else (rejected down_error, m)

  abbrev pub exists : Option (Row C) → Bool
  exists none = false
  exists (some o) = true

  abbrev pub guarded : {A : Type 0} → A → Memory C → Settled A
  guarded a m = if m.up then fulfilled a else rejected down_error

  unfoldable pub find_one_by : (Row C → Bool) → Memory C → Settled (Option (Row C))
  find_one_by p m = guarded (search_below p m m.size) m

  unfoldable pub exists_by : (Row C → Bool) → Memory C → Settled Bool
  exists_by p m = guarded (exists (search_below p m m.size)) m

  unfoldable pub find : (Row C → Bool) → (Row C → Row C → Bool) → Memory C → Settled (List (Row C))
  find p before m = guarded (collect p before m m.size) m
