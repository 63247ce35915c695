-- ===== src/Runtime/Repository/Unique.antt =====
-- The UNIQUE constraints of a table, as a property of its state.
use cinema_microservices.Prelude.{
  ◌∙◌, ◌≡◌, true, ℕ, Bool, sym, none, some, arith, ◌==◌, Bool-cases, inl, Option-cases, false,
  ==_iff, inr,
}
use cinema_microservices.Runtime.Repository.{Table, Repository, Same, Row, Writes, IsFree}

module _ {S D C : Type 0} {table : Table D C} (repository : Repository S D C table) where
  open repository use {row, is_up, insert, save, delete}

  -- Rows that may not stand together are one row.
  abbrev pub IsUnique : S → Type 0
  IsUnique s =
      (i j : ℕ) (a b : Row C)
      → row s i ≡ some a
      → row s j ≡ some b
      → table.clashes a.columns b.columns ≡ true
      → i ≡ j

  Same-IsUnique : (s s' : S) → Same table row is_up s s' → IsUnique s → IsUnique s'
  Same-IsUnique s s' same u i j a b ra rb c =
      u i j a b (sym (same.0 i) ∙ ra) (sym (same.0 j) ∙ rb) c

  module _ (symmetric : (a b : C) → table.clashes a b ≡ true → table.clashes b a ≡ true) where
    -- A row that clashes with no other row may be written.
    Writes-IsUnique :
        (s s' : S) (id : ℕ) (own : ℕ → Bool) (new : Row C)
        → Writes table row is_up s s' id (some new)
        → IsFree table row is_up s own new.columns
        → ((j : ℕ) (o : Row C) → row s j ≡ some o → own j ≡ true → j ≡ id)
        → IsUnique s
        → IsUnique s'
    Writes-IsUnique s s' id own new w free own_id u i j a b ra rb c =
        let wi = w.0 i in
        let wj = w.0 j in
        ground (
          arith,
          u i j a b,
          symmetric a.columns b.columns c,
          free i a,
          free j b,
          own_id i a,
          own_id j b,
          Bool-cases (own i),
          Bool-cases (own j),
        )

    Removes-IsUnique :
        (s s' : S) (id : ℕ) → Writes table row is_up s s' id none → IsUnique s → IsUnique s'
    Removes-IsUnique s s' id w u i j a b ra rb c =
        let wi = w.0 i in let wj = w.0 j in ground (arith, u i j a b)

    -- Each write of the repository keeps the constraint, whether it goes through or not.
    pub insert-IsUnique : (d : D) (s : S) → IsUnique s → IsUnique (insert d s).1
    insert-IsUnique d s u = elim (Bool-cases (is_up s)) [
      | inl up ↦ elim (repository.insert_up d s up) [
        | inl stored ↦
            Writes-IsUnique s (insert d s).1 stored.new.id (λ j. false) stored.new stored.writes
              stored.free (λ j o r e. cc) u
        | inr refused ↦ Same-IsUnique s (insert d s).1 refused.unchanged u
      ]
      | inr down ↦ Same-IsUnique s (insert d s).1 (repository.insert_down d s down).unchanged u
    ]

    pub save-IsUnique :
        (id created : ℕ) (d : D) (s : S) → IsUnique s → IsUnique (save id created d s).1
    save-IsUnique id created d s u = elim (Bool-cases (is_up s)) [
      | inl up ↦ elim (Option-cases (row s id)) [
        | inl gone ↦ elim (repository.save_gone id created d s up gone) [
          | inl stored ↦
              Writes-IsUnique s (save id created d s).1 id (λ j. j == id) stored.new stored.writes
                stored.free (λ j o r e. (==_iff j id).0 e) u
          | inr refused ↦ Same-IsUnique s (save id created d s).1 refused.unchanged u
        ]
        | inr (old, there) ↦ elim (repository.save_up id created d s old up there) [
          | inl stored ↦
              Writes-IsUnique s (save id created d s).1 id (λ j. j == id)
                (record stored.new { columns = table.on_update old.columns stored.new.columns })
                stored.writes stored.free (λ j o r e. (==_iff j id).0 e) u
          | inr refused ↦ Same-IsUnique s (save id created d s).1 refused.unchanged u
        ]
      ]
      | inr down ↦
          Same-IsUnique s (save id created d s).1
            (repository.save_down id created d s down).unchanged u
    ]

    pub delete-IsUnique : (id : ℕ) (s : S) → IsUnique s → IsUnique (delete id s).1
    delete-IsUnique id s u = elim (Bool-cases (is_up s)) [
      | inl up ↦ elim (Option-cases (row s id)) [
        | inl gone ↦ Same-IsUnique s (delete id s).1 (repository.delete_missing id s up gone).1 u
        | inr (old, there) ↦
            Removes-IsUnique s (delete id s).1 id (repository.delete_up id s old up there).1 u
      ]
      | inr down ↦ Same-IsUnique s (delete id s).1 (repository.delete_down id s down).unchanged u
    ]
