-- ===== src/Runtime/Repository.antt =====
-- The interface of a TypeORM `Repository` over one PostgreSQL table. Both are third-party code, so
-- what a service relies on is a record of operations and of laws that state their documented
-- behaviour. A service fills in the table: which drafts its columns accept, and which rows clash
-- under its UNIQUE constraints.
pub mod Unique
pub mod Part
use cinema_microservices.Prelude.{
  ℕ, String, ◌≡◌, ◌⊎◌, Bool, true, false, Option, none, some, ◌↔◌, List, [], ◌∷◌, All, In, ◌==◌,
  ◌===◌, if◌then◌else◌,
}
use cinema_microservices.Runtime.Async.{Settled, fulfilled, rejected}
use cinema_microservices.Runtime.Exceptions.{
  Thrown, http_exception, rpc_exception, query_failed, timeout_error, other_error, plain,
}

-- A stored row: generated id, columns, `created_at` and `updated_at`.
pub record Row (C : Type 0) : Type 0 where
  pub id : ℕ
  pub columns : C
  pub created_at : ℕ
  pub updated_at : ℕ

-- What the column types and the NOT NULL and CHECK constraints say of an entity to be saved: the
-- column values, or the SQLSTATE of the violation.
pub data Accepted (C : Type 0) : Type 0 where
  stores : C → Accepted C
  violates : String → Accepted C

pub record Table (D C : Type 0) : Type 0 where
  pub accept : D → Accepted C
  -- Two rows that a UNIQUE constraint does not allow together.
  pub clashes : C → C → Bool
  -- The columns after an UPDATE by new ones: a column with `update: false` stays.
  pub on_update : C → C → C

-- The SQLSTATE of a unique violation.
abbrev pub unique_violation : String
unique_violation = "23505"

-- A rejection that no unique constraint caused.
abbrev pub IsFault : Thrown → Type 0
IsFault (http_exception e) = ⊥
IsFault (rpc_exception v m) = ⊥
IsFault (query_failed none) = Unit
IsFault (query_failed (some code)) = (code === unique_violation) ≡ false
IsFault timeout_error = ⊥
IsFault (other_error code) = Unit
IsFault (plain v) = ⊥

module _ {S D C : Type 0} (table : Table D C) (row : S → ℕ → Option (Row C))
    (is_up : S → Bool) where
  -- Nothing that a query can see has changed.
  abbrev pub Same : S → S → Type 0
  Same s s' = ((j : ℕ) → row s' j ≡ row s j) × (is_up s' ≡ is_up s)

  abbrev pub Writes : S → S → ℕ → Option (Row C) → Type 0
  Writes s s' id new =
      ((j : ℕ) → row s' j ≡ (if j == id then new else row s j)) × (is_up s' ≡ is_up s)

  -- No row but the one with this id clashes with the columns.
  abbrev pub IsFree : S → (ℕ → Bool) → C → Type 0
  IsFree s own c =
      (j : ℕ) (o : Row C) → row s j ≡ some o → own j ≡ false → table.clashes c o.columns ≡ false

  pub record Clash (s : S) (own : ℕ → Bool) (c : C) : Type 0 where
    pub other : ℕ
    pub row_of : Row C
    pub found : row s other ≡ some row_of
    pub not_own : own other ≡ false
    pub clashing : table.clashes c row_of.columns ≡ true

  -- How a write was refused: `s` is the state before, the pair is what came of the call, and `stored`
  -- says which columns the row would have had.
  pub record Refused {R : Type 0} (d : D) (own : ℕ → Bool) (stored : C → C) (s : S)
      (r : Settled R × S) : Type 0 where
    pub code : String
    pub result : r.0 ≡ rejected (query_failed (some code))
    pub unchanged : Same s r.1
    pub reason :
        ((c : C) × (table.accept d ≡ stores c) × (code ≡ unique_violation) × Clash s own (stored c))
        ⊎ ((table.accept d ≡ violates code) × ((code === unique_violation) ≡ false))

  -- An INSERT that went through: a fresh id and the columns of the draft.
  pub record Inserted (d : D) (s : S) (r : Settled (Row C) × S) : Type 0 where
    pub new : Row C
    pub result : r.0 ≡ fulfilled new
    pub accepted : table.accept d ≡ stores new.columns
    pub fresh : row s new.id ≡ none
    pub free : IsFree s (λ j. false) new.columns
    pub writes : Writes s r.1 new.id (some new)

  -- An UPDATE that went through: it returns the entity that was saved.
  pub record Updated (id : ℕ) (old : Row C) (d : D) (s : S) (r : Settled (Row C) × S) : Type 0 where
    pub new : Row C
    pub result : r.0 ≡ fulfilled new
    pub same_id : new.id ≡ id
    pub same_created : new.created_at ≡ old.created_at
    pub accepted : table.accept d ≡ stores new.columns
    pub free : IsFree s (λ j. j == id) (table.on_update old.columns new.columns)
    pub writes :
        Writes s r.1 id (some (record new { columns = table.on_update old.columns new.columns }))

  -- An UPDATE whose row had gone: `save` inserts the entity again under its id.
  pub record Restored (id : ℕ) (d : D) (s : S) (r : Settled (Row C) × S) : Type 0 where
    pub new : Row C
    pub result : r.0 ≡ fulfilled new
    pub same_id : new.id ≡ id
    pub accepted : table.accept d ≡ stores new.columns
    pub free : IsFree s (λ j. j == id) new.columns
    pub writes : Writes s r.1 id (some new)

  -- A query that could not be run.
  pub record Unreachable {R : Type 0} (s : S) (r : Settled R × S) : Type 0 where
    pub fault : Thrown
    pub result : r.0 ≡ rejected fault
    pub is_fault : IsFault fault
    pub unchanged : Same s r.1

  -- The answer of a search for one row: a row that fits, or the fact that none does.
  abbrev pub Finds : (Row C → Bool) → S → Option (Row C) → Type 0
  Finds p s none = (j : ℕ) (o : Row C) → row s j ≡ some o → p o ≡ false
  Finds p s (some o) = (row s o.id ≡ some o) × (p o ≡ true)

-- The order of a result list: each row before all that follow it.
abbrev pub Sorted : {C : Type 0} → (Row C → Row C → Bool) → List (Row C) → Type 0
Sorted before [] = Unit
Sorted before (o ∷ os) = All (λ o'. before o o' ≡ true) os × Sorted before os

-- A strict total order on rows with different ids, as `order` on the primary key makes it.
pub record IsOrder {C : Type 0} (before : Row C → Row C → Bool) : Type 0 where
  pub chain : (a b c : Row C) → before a b ≡ true → before b c ≡ true → before a c ≡ true
  pub total : (a b : Row C) → before a b ≡ false → before b a ≡ false → a.id ≡ b.id

pub record Repository (S D C : Type 0) (table : Table D C) : Type 0 where
  -- The table as a map from ids, and whether the connection works. Other handlers and the outside
  -- world change both between two calls; a call itself changes rows only as its law says.
  pub row : S → ℕ → Option (Row C)
  pub is_up : S → Bool
  -- The laws of the searches and of `delete` are about values in the range of their columns; for an
  -- id above 2147483647 PostgreSQL raises 22003 where they have an answer. A search reads all
  -- columns, those with `select: false` too.
  pub find_one_by : (Row C → Bool) → S → Settled (Option (Row C))
  pub exists_by : (Row C → Bool) → S → Settled Bool
  -- `find({ where, order })`; the order as a strict comparison.
  pub find : (Row C → Bool) → (Row C → Row C → Bool) → S → Settled (List (Row C))
  -- `save` of an entity that `create` made, without an id.
  pub insert : D → S → Settled (Row C) × S
  -- `save` of an entity that was loaded: its id and `created_at`, and its columns now. TypeORM sends
  -- a SELECT, BEGIN, an UPDATE and COMMIT; here they are one call, which waits for no row lock.
  pub save : ℕ → ℕ → D → S → Settled (Row C) × S
  -- `delete({ id })`: how many rows it affected.
  pub delete : ℕ → S → Settled ℕ × S
  pub row_id : (s : S) (j : ℕ) (o : Row C) → row s j ≡ some o → o.id ≡ j
  pub find_one_by_up :
      (p : Row C → Bool) (s : S)
      → is_up s ≡ true
      → (o : Option (Row C)) × (find_one_by p s ≡ fulfilled o) × Finds table row is_up p s o
  pub find_one_by_down :
      (p : Row C → Bool) (s : S)
      → is_up s ≡ false
      → (e : Thrown) × (find_one_by p s ≡ rejected e) × IsFault e
  pub exists_by_up :
      (p : Row C → Bool) (s : S)
      → is_up s ≡ true
      → ((o : Row C) × (exists_by p s ≡ fulfilled true) × (row s o.id ≡ some o) × (p o ≡ true))
        ⊎ ((exists_by p s ≡ fulfilled false)
            × ((j : ℕ) (o : Row C) → row s j ≡ some o → p o ≡ false))
  pub exists_by_down :
      (p : Row C → Bool) (s : S)
      → is_up s ≡ false
      → (e : Thrown) × (exists_by p s ≡ rejected e) × IsFault e
  pub find_up :
      (p : Row C → Bool) (before : Row C → Row C → Bool) (s : S)
      → IsOrder before
      → is_up s ≡ true
      → (os : List (Row C)) × (find p before s ≡ fulfilled os)
        × Sorted before os
        × ((o : Row C) → In o os ↔ ((row s o.id ≡ some o) × (p o ≡ true)))
  pub find_down :
      (p : Row C → Bool) (before : Row C → Row C → Bool) (s : S)
      → is_up s ≡ false
      → (e : Thrown) × (find p before s ≡ rejected e) × IsFault e
  pub insert_up :
      (d : D) (s : S)
      → is_up s ≡ true
      → Inserted table row is_up d s (insert d s)
        ⊎ Refused table row is_up d (λ j. false) (λ c. c) s (insert d s)
  pub insert_down : (d : D) (s : S) → is_up s ≡ false → Unreachable table row is_up s (insert d s)
  -- An entity whose row is still there is updated.
  pub save_up :
      (id created : ℕ) (d : D) (s : S) (old : Row C)
      → is_up s ≡ true
      → row s id ≡ some old
      → Updated table row is_up id old d s (save id created d s)
        ⊎ Refused table row is_up d
            (λ j. j == id)
            (table.on_update old.columns)
            s
            (save id created d s)
  -- One whose row has gone in the meantime is inserted again under its id.
  pub save_gone :
      (id created : ℕ) (d : D) (s : S)
      → is_up s ≡ true
      → row s id ≡ none
      → Restored table row is_up id d s (save id created d s)
        ⊎ Refused table row is_up d (λ j. j == id) (λ c. c) s (save id created d s)
  pub save_down :
      (id created : ℕ) (d : D) (s : S)
      → is_up s ≡ false
      → Unreachable table row is_up s (save id created d s)
  pub delete_up :
      (id : ℕ) (s : S) (old : Row C)
      → is_up s ≡ true
      → row s id ≡ some old
      → ((delete id s).0 ≡ fulfilled 1) × Writes table row is_up s (delete id s).1 id none
  pub delete_missing :
      (id : ℕ) (s : S)
      → is_up s ≡ true
      → row s id ≡ none
      → ((delete id s).0 ≡ fulfilled 0) × Same table row is_up s (delete id s).1
  pub delete_down : (id : ℕ) (s : S) → is_up s ≡ false → Unreachable table row is_up s (delete id s)
