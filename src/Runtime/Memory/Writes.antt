-- ===== src/Runtime/Memory/Writes.antt =====
-- How INSERT and UPDATE end on the table in memory.
use cinema_microservices.Prelude.{
  refl, ◌≡◌, ◌⊎◌, Bool, true, Option, some, false, ℕ, arith, inl, inr, none, ◌==◌, String, ◌∙◌, ap,
}
use cinema_microservices.Runtime.Repository.{
  Table, Row, Inserted, Refused, Accepted, Updated, stores, Clash, violates, unique_violation,
  Restored,
}
use cinema_microservices.Runtime.Memory.Operations.{
  insert, PlainCodes, is_up, save, kept, write_cases, write, written, created_of, put-Writes,
  unique_error,
}
use cinema_microservices.Runtime.Memory.Search.{Memory, row, row_outside}
use cinema_microservices.Runtime.Async.{rejected}
use cinema_microservices.Runtime.Exceptions.{query_failed}

module _ {D C : Type 0} (table : Table D C) where
  -- What a write comes down to, with the connection up.
  module _ (d : D) (m : Memory C) (up : m.up ≡ true) where
    insert_violates :
        (code : String)
        → table.accept d ≡ violates code
        → insert table d m ≡ (rejected (query_failed (some code)), m)
    unfolding insert
    insert_violates code e = ground arith

    insert_stores :
        (c : C)
        → table.accept d ≡ stores c
        → insert table d m ≡ write table m (λ j. false) m.size 0 c c
    unfolding insert
    insert_stores c e = ground arith

    save_violates :
        (id created : ℕ) (code : String)
        → table.accept d ≡ violates code
        → save table id created d m ≡ (rejected (query_failed (some code)), m)
    unfolding save
    save_violates id created code e = ground arith

    save_stores :
        (id created : ℕ) (c : C)
        → table.accept d ≡ stores c
        → save table id created d m
          ≡ write table m
              (λ j. j == id)
              id
              (created_of table (row m id) created)
              (kept table (row m id) c)
              c
    unfolding save
    save_stores id created c e = ground arith

  -- A refusal by a column type or a constraint, and one by a UNIQUE constraint.
  violation :
      PlainCodes table
      → (own : ℕ → Bool) (stored : C → C) (d : D) (m : Memory C) (code : String)
      → table.accept d ≡ violates code
      → Refused table row is_up {R = Row C} d own stored m (rejected (query_failed (some code)), m)
  violation plain own stored d m code e = record {
    code = code;
    result = refl;
    unchanged = (λ j. refl, refl);
    reason = inr (e, plain d code e);
  }

  collision :
      (own : ℕ → Bool) (stored : C → C) (d : D) (m : Memory C) (c : C)
      → table.accept d ≡ stores c
      → Clash table row is_up m own (stored c)
      → Refused table row is_up {R = Row C} d own stored m (rejected unique_error, m)
  collision own stored d m c e clash = record {
    code = unique_violation;
    result = refl;
    unchanged = (λ j. refl, refl);
    reason = inl (c, e, refl, clash);
  }

  pub insert_up_lem :
      PlainCodes table
      → (d : D) (m : Memory C) → m.up ≡ true
      → (a : Accepted C) → table.accept d ≡ a
      → Inserted table row is_up d m (insert table d m)
        ⊎ Refused table row is_up d (λ j. false) (λ x. x) m (insert table d m)
  insert_up_lem plain d m up (violates code) e =
      rw (insert_violates d m up code e) (inr (violation plain (λ j. false) (λ x. x) d m code e))
  insert_up_lem plain d m up (stores c) e = elim (write_cases table m (λ j. false) m.size 0 c c) [
    | inl (w, free) ↦
        rw (insert_stores d m up c e, w)
          (inl (record {
            new = written table m.size 0 c;
            result = refl;
            accepted = e;
            fresh = row_outside m m.size (omega arith);
            free = free;
            writes = put-Writes table m m.size 0 c;
          }))
    | inr (w, clash) ↦
        rw (insert_stores d m up c e, w) (inr (collision (λ j. false) (λ x. x) d m c e clash))
  ]

  pub save_up_lem :
      PlainCodes table
      → (id created : ℕ) (d : D) (m : Memory C) (old : Row C) → m.up ≡ true
      → row m id ≡ some old
      → (a : Accepted C) → table.accept d ≡ a
      → Updated table row is_up id old d m (save table id created d m)
        ⊎ Refused table row is_up d
            (λ j. j == id)
            (table.on_update old.columns)
            m
            (save table id created d m)
  save_up_lem plain id created d m old up there (violates code) e =
      rw (save_violates d m up id created code e)
        (inr (violation plain (λ j. j == id) (table.on_update old.columns) d m code e))
  save_up_lem plain id created d m old up there (stores c) e =
      let step : save table id created d m
          ≡ write table m (λ j. j == id) id old.created_at (table.on_update old.columns c) c =
        save_stores d m up id created c e
        ∙ ap
            (λ (o : Option (Row C)).
              write table m (λ j. j == id) id (created_of table o created) (kept table o c) c)
            there in
      elim (write_cases table m (λ j. j == id) id old.created_at (table.on_update old.columns c)
        c) [
          | inl (w, free) ↦
              rw (step, w)
                (inl (record {
                  new = written table id old.created_at c;
                  result = refl;
                  same_id = refl;
                  same_created = refl;
                  accepted = e;
                  free = free;
                  writes = put-Writes table m id old.created_at (table.on_update old.columns c);
                }))
          | inr (w, clash) ↦
              rw (step, w)
                (inr (collision (λ j. j == id) (table.on_update old.columns) d m c e clash))
        ]

  pub save_gone_lem :
      PlainCodes table
      → (id created : ℕ) (d : D) (m : Memory C) → m.up ≡ true
      → row m id ≡ none
      → (a : Accepted C) → table.accept d ≡ a
      → Restored table row is_up id d m (save table id created d m)
        ⊎ Refused table row is_up d (λ j. j == id) (λ x. x) m (save table id created d m)
  save_gone_lem plain id created d m up gone (violates code) e =
      rw (save_violates d m up id created code e)
        (inr (violation plain (λ j. j == id) (λ x. x) d m code e))
  save_gone_lem plain id created d m up gone (stores c) e =
      let step : save table id created d m ≡ write table m (λ j. j == id) id created c c =
        save_stores d m up id created c e
        ∙ ap
            (λ (o : Option (Row C)).
              write table m (λ j. j == id) id (created_of table o created) (kept table o c) c)
            gone in
      elim (write_cases table m (λ j. j == id) id created c c) [
        | inl (w, free) ↦
            rw (step, w)
              (inl (record {
                new = written table id created c;
                result = refl;
                same_id = refl;
                accepted = e;
                free = free;
                writes = put-Writes table m id created c;
              }))
        | inr (w, clash) ↦ rw (step, w) (inr (collision (λ j. j == id) (λ x. x) d m c e clash))
      ]
