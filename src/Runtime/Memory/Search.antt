-- ===== src/Runtime/Memory/Search.antt =====
-- A table as cells below a size, with a search through them.
use cinema_microservices.Prelude.{
  if◌then◌else◌, refl, ◌+◌, ◌<◌, ◌==◌, ◌≡◌, ◌≤◌, none, ℕ, Bool, Option, arith, some, true,
  Bool-cases, Option-cases, false, ltb, suc, inl, zero, ==_iff, inr, subst, sym,
}
use cinema_microservices.Runtime.Repository.{Row}

pub record Body (C : Type 0) : Type 0 where
  pub columns : C
  pub created_at : ℕ
  pub updated_at : ℕ

pub record Memory (C : Type 0) : Type 0 where
  pub size : ℕ
  pub cell : ℕ → Option (Body C)
  pub up : Bool

module _ {C : Type 0} where
  abbrev pub empty : Memory C
  empty = record { size = 0; cell = λ j. none; up = true }

  abbrev pub visible : Memory C → ℕ → Option (Body C)
  visible m j = if ltb j m.size then m.cell j else none

  abbrev pub with_id : ℕ → Option (Body C) → Option (Row C)
  with_id j none = none
  with_id j (some b) =
      some (record {
        id = j;
        columns = b.columns;
        created_at = b.created_at;
        updated_at = b.updated_at;
      })

  abbrev pub row : Memory C → ℕ → Option (Row C)
  row m j = with_id j (visible m j)

  abbrev pub put : Memory C → ℕ → Option (Body C) → Memory C
  put m id new = record {
    size = m.size + suc id;
    cell = λ k. if k == id then new else visible m k;
    up = m.up;
  }

  pub row_id_lem : (m : Memory C) (j : ℕ) (o : Row C) → row m j ≡ some o → o.id ≡ j
  row_id_lem m j o h = elim (Option-cases (visible m j)) [
    | inl nothing ↦ ground arith
    | inr (b, there) ↦ ground arith
  ]

  pub row-put :
      (m : Memory C) (id : ℕ) (new : Option (Body C)) (j : ℕ)
      → row (put m id new) j ≡ (if j == id then with_id id new else row m j)
  row-put m id new j = elim (Bool-cases (j == id)) [
    | inl same ↦
        let e : j ≡ id = (==_iff j id).0 same in
        let inside : ltb j (m.size + suc id) ≡ true = ground arith in rw (same, inside) (rw e refl)
    | inr other ↦ ground arith
  ]

  pub row_outside : (m : Memory C) (j : ℕ) → m.size ≤ j → row m j ≡ none
  row_outside m j h = ground arith

  -- The row with the largest id below `n` that fits.
  unfoldable pub search_below : (Row C → Bool) → Memory C → ℕ → Option (Row C)
  search_below p m zero = none
  search_below p m (suc n) = elim (row m n) [
    | none ↦ search_below p m n
    | some o ↦ if p o then some o else search_below p m n
  ]

  abbrev pub Fits : (Row C → Bool) → Memory C → ℕ → Option (Row C) → Type 0
  Fits p m n none = (j : ℕ) (o : Row C) → j < n → row m j ≡ some o → p o ≡ false
  Fits p m n (some o) = (row m o.id ≡ some o) × (p o ≡ true)

  Fits-more :
      (p : Row C → Bool) (m : Memory C) (n : ℕ) (found : Option (Row C))
      → ((o : Row C) → row m n ≡ some o → p o ≡ false)
      → Fits p m n found
      → Fits p m (suc n) found
  Fits-more p m n none last h = λ j o lt r. elim (Bool-cases (j == n)) [
    | inl same ↦ last o (subst (λ k. row m k ≡ some o) ((==_iff j n).0 same) r)
    | inr other ↦ h j o (ground arith) r
  ]
  Fits-more p m n (some o) last h = h

  pub search_below-Fits :
      (p : Row C → Bool) (m : Memory C) (n : ℕ) → Fits p m n (search_below p m n)
  unfolding search_below
  search_below-Fits p m zero = λ j o lt r. absurd (omega arith)
  search_below-Fits p m (suc n) = elim (Option-cases (row m n)) [
    | inl nothing ↦
        rw (nothing, search_below)
          (Fits-more p m n (search_below p m n) (λ o r. cc) (search_below-Fits p m n))
    | inr (o, there) ↦ elim (Bool-cases (p o)) [
      | inl fits ↦
          rw (there, fits, search_below)
            (subst (λ k. row m k ≡ some o) (sym (row_id_lem m n o there)) there, fits)
      | inr not_it ↦
          rw (there, not_it, search_below)
            (Fits-more p m n (search_below p m n)
              (λ o' r. let same : o ≡ o' = cc in rw (← same) not_it) (search_below-Fits p m n))
    ]
  ]
