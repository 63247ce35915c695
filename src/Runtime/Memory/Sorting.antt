-- ===== src/Runtime/Memory/Sorting.antt =====
-- The result list of `find`: the rows that fit, by insertion sort.
use cinema_microservices.Prelude.{
  none, some, [], if◌then◌else◌, ◌<◌, ◌↔◌, ◌∷◌, ◌≡◌, ◌≢◌, ◌⊎◌, Bool, List, All, In, Bool-cases, ℕ,
  inl, suc, Option-cases, arith, inr, some, true, zero, ◌==◌, subst, ==_iff, sym, ap,
}
use cinema_microservices.Runtime.Repository.{Row, IsOrder, Sorted}
use cinema_microservices.Runtime.Memory.Search.{Memory, row, row_id_lem}

module _ {C : Type 0} where
  pub insert_by : (Row C → Row C → Bool) → Row C → List (Row C) → List (Row C)
  insert_by before x [] = x ∷ []
  insert_by before x (y ∷ ys) = if before x y then x ∷ y ∷ ys else y ∷ insert_by before x ys

  unfoldable pub collect : (Row C → Bool) → (Row C → Row C → Bool) → Memory C → ℕ → List (Row C)
  unfolding insert_by
  collect p before m zero = []
  collect p before m (suc n) = elim (row m n) [
    | none ↦ collect p before m n
    | some o ↦ if p o then insert_by before o (collect p before m n) else collect p before m n
  ]

  In-insert_by :
      (before : Row C → Row C → Bool) (x o : Row C) (ys : List (Row C))
      → In o (insert_by before x ys) ↔ ((x ≡ o) ⊎ In o ys)
  unfolding insert_by
  In-insert_by before x o [] = (λ h. h, λ h. h)
  In-insert_by before x o (y ∷ ys) = elim (Bool-cases (before x y)) [
    | inl first ↦ rw first (λ h. h, λ h. h)
    | inr later ↦
        let (to, from) = In-insert_by before x o ys in
        rw later (ground (arith, to), ground (arith, from))
  ]

  All-insert_by :
      (P : Row C → Type 0) (before : Row C → Row C → Bool) (x : Row C) (ys : List (Row C))
      → P x
      → All P ys
      → All P (insert_by before x ys)
  unfolding insert_by
  All-insert_by P before x [] h hs = (h, tt)
  All-insert_by P before x (y ∷ ys) h (k, ks) = elim (Bool-cases (before x y)) [
    | inl first ↦ rw first (h, (k, ks))
    | inr later ↦ rw later (k, All-insert_by P before x ys h ks)
  ]

  All-map :
      (P Q : Row C → Type 0) (f : (o : Row C) → P o → Q o) (os : List (Row C)) → All P os → All Q os
  All-map P Q f [] h = tt
  All-map P Q f (o ∷ os) (h, hs) = (f o h, All-map P Q f os hs)

  insert_by-Sorted :
      (before : Row C → Row C → Bool) (x : Row C) (ys : List (Row C))
      → IsOrder before
      → All (λ y. y.id ≢ x.id) ys
      → Sorted before ys
      → Sorted before (insert_by before x ys)
  unfolding insert_by
  insert_by-Sorted before x [] order ne s = (tt, tt)
  insert_by-Sorted before x (y ∷ ys) order (ne, nes) (first, s) = elim (Bool-cases (before x y)) [
    | inl xy ↦ rw xy (
      (
        xy,
        All-map (λ o. before y o ≡ true) (λ o. before x o ≡ true) (λ o yo. order.chain x y o xy yo)
            ys first,
      ),
      (first, s),
    )
    | inr not_xy ↦ elim (Bool-cases (before y x)) [
      | inl yx ↦ rw not_xy (
        All-insert_by (λ o. before y o ≡ true) before x ys yx first,
        insert_by-Sorted before x ys order nes s,
      )
      | inr not_yx ↦ absurd (ne (order.total y x not_yx not_xy))
    ]
  ]

  collect_below :
      (p : Row C → Bool) (before : Row C → Row C → Bool) (m : Memory C) (n : ℕ)
      → All (λ o. o.id < n) (collect p before m n)
  unfolding collect
  collect_below p before m zero = tt
  collect_below p before m (suc n) =
      let weaker =
        All-map (λ o. o.id < n) (λ o. o.id < suc n) (λ o h. omega arith) (collect p before m n)
          (collect_below p before m n) in
      elim (Option-cases (row m n)) [
        | inl nothing ↦ rw (nothing, collect) weaker
        | inr (o, there) ↦ elim (Bool-cases (p o)) [
          | inl fits ↦
              let e = row_id_lem m n o there in
              rw (there, fits, collect)
                (All-insert_by (λ o. o.id < suc n) before o (collect p before m n) (omega arith)
                  weaker)
          | inr not_it ↦ rw (there, not_it, collect) weaker
        ]
      ]

  pub collect-Sorted :
      (p : Row C → Bool) (before : Row C → Row C → Bool) (m : Memory C) (n : ℕ)
      → IsOrder before
      → Sorted before (collect p before m n)
  unfolding collect
  collect-Sorted p before m zero order = tt
  collect-Sorted p before m (suc n) order =
      let rest = collect-Sorted p before m n order in
      elim (Option-cases (row m n)) [
        | inl nothing ↦ rw (nothing, collect) rest
        | inr (o, there) ↦ elim (Bool-cases (p o)) [
          | inl fits ↦
              let e = row_id_lem m n o there in
              rw (there, fits, collect)
                (insert_by-Sorted before o (collect p before m n) order
                  (All-map (λ y. y.id < n) (λ y. y.id ≢ o.id) (λ y h. omega arith)
                    (collect p before m n) (collect_below p before m n))
                  rest)
          | inr not_it ↦ rw (there, not_it, collect) rest
        ]
      ]

  last_or_below :
      (m : Memory C) (n : ℕ) (o : Row C)
      → row m o.id ≡ some o
      → o.id < suc n
      → (row m n ≡ some o) ⊎ (o.id < n)
  last_or_below m n o there lt = elim (Bool-cases (o.id == n)) [
    | inl same ↦ inl (subst (λ k. row m k ≡ some o) ((==_iff o.id n).0 same) there)
    | inr other ↦ inr (ground arith)
  ]

  -- A row is listed exactly if it is there, below the bound, and fits.
  pub In-collect :
      (p : Row C → Bool) (before : Row C → Row C → Bool) (m : Memory C) (n : ℕ) (o : Row C)
      → In o (collect p before m n) ↔ ((o.id < n) × (row m o.id ≡ some o) × (p o ≡ true))
  unfolding collect
  In-collect p before m zero o = (λ h. absurd h, λ h. absurd (omega arith))
  In-collect p before m (suc n) o =
      let (to, from) = In-collect p before m n o in
      elim (Option-cases (row m n)) [
        | inl nothing ↦
            rw (nothing, collect)
              (grind (arith, to), λ h. from (ground (arith, last_or_below m n o h.1 h.0)))
        | inr (x, there) ↦ elim (Bool-cases (p x)) [
          | inl fits ↦
              rw (there, fits, collect)
                (let e = row_id_lem m n x there in
                  let here : (x.id < suc n) × (row m x.id ≡ some x) × (p x ≡ true) =
                    (omega arith, subst (λ k. row m k ≡ some x) (sym e) there, fits) in
                  (
                    λ h. elim ((In-insert_by before x o (collect p before m n)).0 h) [
                      | inl same ↦
                          subst (λ y. (y.id < suc n) × (row m y.id ≡ some y) × (p y ≡ true)) same
                            here
                      | inr listed ↦ let (lt, r, f) = to listed in (omega arith, r, f)
                    ],
                    λ (lt, r, f).
                        (In-insert_by before x o (collect p before m n)).1
                          (elim (last_or_below m n o r lt) [
                            | inl last ↦ inl (cc)
                            | inr below ↦ inr (from (below, r, f))
                          ]),
                  ))
          | inr not_it ↦
              rw (there, not_it, collect)
                (
                  grind (arith, to),
                  λ (lt, r, f). from (elim (last_or_below m n o r lt) [
                    | inl last ↦ let same : x ≡ o = cc in cc (ap p same)
                    | inr below ↦ (below, r, f)
                  ]),
                )
        ]
      ]
