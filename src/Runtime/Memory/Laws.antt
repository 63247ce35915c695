-- ===== src/Runtime/Memory/Laws.antt =====
-- The laws of `Repository` for the table in memory.
use cinema_microservices.Prelude.{
  refl, ◌↔◌, ◌≡◌, ◌⊎◌, Bool, true, List, Option, In, some, false, Bool-cases, ℕ, ltb, arith, inl,
  inr, none, ap, subst, sym,
}
use cinema_microservices.Runtime.Repository.{
  Table, Row, IsOrder, Finds, Sorted, Same, Repository, Unreachable, Writes,
}
use cinema_microservices.Runtime.Memory.Operations.{
  exists_by, find, find_one_by, insert, PlainCodes, is_up, save, delete, down_error, guarded,
}
use cinema_microservices.Runtime.Memory.Search.{
  Memory, row, Fits, search_below, search_below-Fits, put, row_id_lem, row-put,
}
use cinema_microservices.Runtime.Async.{fulfilled, rejected, Settled}
use cinema_microservices.Runtime.Memory.Sorting.{collect, collect-Sorted, In-collect}
use cinema_microservices.Runtime.Memory.Writes.{insert_up_lem, save_up_lem, save_gone_lem}

module _ {D C : Type 0} (table : Table D C) where
  pub find_one_by_up_lem :
      (p : Row C → Bool) (m : Memory C)
      → m.up ≡ true
      → (o : Option (Row C)) × (find_one_by table p m ≡ fulfilled o) × Finds table row is_up p m o
  unfolding find_one_by
  find_one_by_up_lem p m up = (
    search_below p m m.size,
    rw up,
    found (search_below p m m.size) (search_below-Fits p m m.size),
  )
    where
      found : (o : Option (Row C)) → Fits p m m.size o → Finds table row is_up p m o
      found none h = λ j o there. elim (Bool-cases (ltb j m.size)) [
        | inl inside ↦ h j o (ground arith) there
        | inr outside ↦ ground arith
      ]
      found (some o) h = h

  pub exists_by_up_lem :
      (p : Row C → Bool) (m : Memory C)
      → m.up ≡ true
      → ((o : Row C) × (exists_by table p m ≡ fulfilled true)
          × (row m o.id ≡ some o)
          × (p o ≡ true))
        ⊎ ((exists_by table p m ≡ fulfilled false)
            × ((j : ℕ) (o : Row C) → row m j ≡ some o → p o ≡ false))
  unfolding exists_by
  exists_by_up_lem p m up = cases (search_below p m m.size) refl (search_below-Fits p m m.size)
    where
      cases :
          (o : Option (Row C))
          → search_below p m m.size ≡ o
          → Fits p m m.size o
          → ((o : Row C) × (exists_by table p m ≡ fulfilled true)
              × (row m o.id ≡ some o)
              × (p o ≡ true))
            ⊎ ((exists_by table p m ≡ fulfilled false)
                × ((j : ℕ) (o : Row C) → row m j ≡ some o → p o ≡ false))
      cases none e h = inr (
        rw (e, up),
        λ j o there. elim (Bool-cases (ltb j m.size)) [
          | inl inside ↦ h j o (ground arith) there
          | inr outside ↦ ground arith
        ],
      )
      cases (some o) e h = inl (o, rw (e, up), h.0, h.1)

  pub find_up_lem :
      (p : Row C → Bool) (before : Row C → Row C → Bool) (m : Memory C)
      → IsOrder before
      → m.up ≡ true
      → (os : List (Row C)) × (find table p before m ≡ fulfilled os)
        × Sorted before os
        × ((o : Row C) → In o os ↔ ((row m o.id ≡ some o) × (p o ≡ true)))
  unfolding find
  find_up_lem p before m order up = (
    collect p before m m.size,
    rw up,
    collect-Sorted p before m m.size order,
    λ o.
        let (to, from) = In-collect p before m m.size o in
        (λ h. (let (lt, r, f) = to h in (r, f)), λ (r, f). from (ground arith, r, f)),
  )

  Same-self : (m : Memory C) → Same table row is_up m m
  Same-self m = (λ j. refl, refl)

  pub delete_up_lem :
      (id : ℕ) (m : Memory C) (old : Row C)
      → m.up ≡ true
      → row m id ≡ some old
      → ((delete table id m).0 ≡ fulfilled 1)
        × Writes table row is_up m (delete table id m).1 id none
  unfolding delete
  delete_up_lem id m old up there =
      let step : delete table id m ≡ (fulfilled 1, put m id none) = ground arith in
      (
        ap (λ (r : Settled ℕ × Memory C). r.0) step,
        subst (λ r. Writes table row is_up m r.1 id none) (sym step) (row-put m id none, refl),
      )

  pub delete_missing_lem :
      (id : ℕ) (m : Memory C)
      → m.up ≡ true
      → row m id ≡ none
      → ((delete table id m).0 ≡ fulfilled 0) × Same table row is_up m (delete table id m).1
  unfolding delete
  delete_missing_lem id m up gone =
      let step : delete table id m ≡ (fulfilled 0, m) = ground arith in
      (
        ap (λ (r : Settled ℕ × Memory C). r.0) step,
        subst (λ r. Same table row is_up m r.1) (sym step) (Same-self m),
      )

  pub unreachable :
      {R : Type 0} (m : Memory C) (r : Settled R × Memory C)
      → r ≡ (rejected down_error, m)
      → Unreachable table row is_up m r
  unreachable m r e =
      rw e (record { fault = down_error; result = refl; is_fault = tt; unchanged = Same-self m })

  pub insert_down_lem :
      (d : D) (m : Memory C) → m.up ≡ false → insert table d m ≡ (rejected down_error, m)
  unfolding insert
  insert_down_lem d m down = ground arith

  pub save_down_lem :
      (id created : ℕ) (d : D) (m : Memory C)
      → m.up ≡ false
      → save table id created d m ≡ (rejected down_error, m)
  unfolding save
  save_down_lem id created d m down = ground arith

  pub delete_down_lem :
      (id : ℕ) (m : Memory C) → m.up ≡ false → delete table id m ≡ (rejected down_error, m)
  unfolding delete
  delete_down_lem id m down = ground arith

  pub guarded_down :
      {A : Type 0} (a : A) (m : Memory C) → m.up ≡ false → guarded table a m ≡ rejected down_error
  guarded_down a m down = ground arith

-- The table in memory, with all its laws.
module _ {D C : Type 0} (table : Table D C) (plain : PlainCodes table) where
  unfoldable pub in_memory : Repository (Memory C) D C table
  unfolding insert save delete find_one_by exists_by find
  in_memory = record {
    row = row;
    is_up = is_up;
    find_one_by = find_one_by table;
    exists_by = exists_by table;
    find = find table;
    insert = insert table;
    save = save table;
    delete = delete table;
    row_id = row_id_lem;
    find_one_by_up = find_one_by_up_lem table;
    find_one_by_down = λ p m down. (down_error, guarded_down table _ m down, tt);
    exists_by_up = exists_by_up_lem table;
    exists_by_down = λ p m down. (down_error, guarded_down table _ m down, tt);
    find_up = find_up_lem table;
    find_down = λ p before m down. (down_error, guarded_down table _ m down, tt);
    insert_up = λ d m up. insert_up_lem table plain d m up (table.accept d) refl;
    insert_down = λ d m down. unreachable table m _ (insert_down_lem table d m down);
    save_up = λ id created d m old up there.
        save_up_lem table plain id created d m old up there (table.accept d) refl;
    save_gone = λ id created d m up gone.
        save_gone_lem table plain id created d m up gone (table.accept d) refl;
    save_down =
        λ id created d m down. unreachable table m _ (save_down_lem table id created d m down);
    delete_up = delete_up_lem table;
    delete_missing = delete_missing_lem table;
    delete_down = λ id m down. unreachable table m _ (delete_down_lem table id m down);
  }
