-- ===== src/Runtime/Repository/Part.antt =====
-- A table that is a part of a larger state, as the tables of several services are.
use cinema_microservices.Prelude.{◌==◌, ◌∙◌, ◌≡◌, Bool, inl, ℕ, Option, ap, inr, some, false, none}
use cinema_microservices.Runtime.Repository.{
  Table, Repository, Inserted, Row, Same, Refused, Restored, Unreachable, Updated, Finds, Writes,
}
use cinema_microservices.Runtime.Async.{Settled}

-- A part of the state `S`.
pub record Part (S T : Type 0) : Type 0 where
  pub get : S → T
  pub put : T → S → S
  pub get-put : (t : T) (s : S) → get (put t s) ≡ t

module _ {S T D C : Type 0} {table : Table D C} (part : Part S T)
    (inner : Repository T D C table) where
  abbrev row : S → ℕ → Option (Row C)
  row s = inner.row (part.get s)

  abbrev is_up : S → Bool
  is_up s = inner.is_up (part.get s)

  -- A call on the part leaves the rest as it is.
  abbrev on_part : {A : Type 0} → (T → A × T) → S → A × S
  on_part op s = ((op (part.get s)).0, part.put (op (part.get s)).1 s)

  pub of_part-Same :
      (s : S) (t : T)
      → Same table inner.row inner.is_up (part.get s) t
      → Same table row is_up s (part.put t s)
  of_part-Same s t h = (
    λ j. ap (λ x. inner.row x j) (part.get-put t s) ∙ h.0 j,
    ap inner.is_up (part.get-put t s) ∙ h.1,
  )

  pub of_part-Writes :
      (s : S) (t : T) (id : ℕ) (new : Option (Row C))
      → Writes table inner.row inner.is_up (part.get s) t id new
      → Writes table row is_up s (part.put t s) id new
  of_part-Writes s t id new h = (
    λ j. ap (λ x. inner.row x j) (part.get-put t s) ∙ h.0 j,
    ap inner.is_up (part.get-put t s) ∙ h.1,
  )

  pub of_part-Refused :
      {R : Type 0} (d : D) (own : ℕ → Bool) (stored : C → C) (op : T → Settled R × T) (s : S)
      → Refused table inner.row inner.is_up d own stored (part.get s) (op (part.get s))
      → Refused table row is_up d own stored s (on_part op s)
  of_part-Refused d own stored op s h = record {
    code = h.code;
    result = h.result;
    unchanged = of_part-Same s (op (part.get s)).1 h.unchanged;
    reason = elim h.reason [
      | inl (c, accepted, code, clash) ↦ inl (
        c,
        accepted,
        code,
        record {
          other = clash.other;
          row_of = clash.row_of;
          found = clash.found;
          not_own = clash.not_own;
          clashing = clash.clashing;
        },
      )
      | inr violation ↦ inr violation
    ];
  }

  pub of_part-Unreachable :
      {R : Type 0} (op : T → Settled R × T) (s : S)
      → Unreachable table inner.row inner.is_up (part.get s) (op (part.get s))
      → Unreachable table row is_up s (on_part op s)
  of_part-Unreachable op s h = record {
    fault = h.fault;
    result = h.result;
    is_fault = h.is_fault;
    unchanged = of_part-Same s (op (part.get s)).1 h.unchanged;
  }

  pub of_part-Finds :
      (p : Row C → Bool) (s : S) (o : Option (Row C))
      → Finds table inner.row inner.is_up p (part.get s) o
      → Finds table row is_up p s o
  of_part-Finds p s none h = h
  of_part-Finds p s (some o) h = h

  pub of_part-Inserted :
      (d : D) (s : S)
      → Inserted table inner.row inner.is_up d (part.get s) (inner.insert d (part.get s))
      → Inserted table row is_up d s (on_part (inner.insert d) s)
  of_part-Inserted d s h = record {
    new = h.new;
    result = h.result;
    accepted = h.accepted;
    fresh = h.fresh;
    free = h.free;
    writes = of_part-Writes s (inner.insert d (part.get s)).1 h.new.id (some h.new) h.writes;
  }

  pub of_part-Updated :
      (id created : ℕ) (d : D) (s : S) (old : Row C)
      → Updated table inner.row inner.is_up id old d
          (part.get s)
          (inner.save id created d (part.get s))
      → Updated table row is_up id old d s (on_part (inner.save id created d) s)
  of_part-Updated id created d s old h = record {
    new = h.new;
    result = h.result;
    same_id = h.same_id;
    same_created = h.same_created;
    accepted = h.accepted;
    free = h.free;
    writes =
        of_part-Writes s (inner.save id created d (part.get s)).1 id
          (some (record (h.new) { columns = table.on_update old.columns h.new.columns })) h.writes;
  }

  pub of_part-Restored :
      (id created : ℕ) (d : D) (s : S)
      → Restored table inner.row inner.is_up id d
          (part.get s)
          (inner.save id created d (part.get s))
      → Restored table row is_up id d s (on_part (inner.save id created d) s)
  of_part-Restored id created d s h = record {
    new = h.new;
    result = h.result;
    same_id = h.same_id;
    accepted = h.accepted;
    free = h.free;
    writes = of_part-Writes s (inner.save id created d (part.get s)).1 id (some h.new) h.writes;
  }

  -- The same repository on the larger state.
  unfoldable pub of_part : Repository S D C table
  of_part = record {
    row = row;
    is_up = is_up;
    find_one_by = λ p s. inner.find_one_by p (part.get s);
    exists_by = λ p s. inner.exists_by p (part.get s);
    find = λ p before s. inner.find p before (part.get s);
    insert = λ d. on_part (inner.insert d);
    save = λ id created d. on_part (inner.save id created d);
    delete = λ id. on_part (inner.delete id);
    row_id = λ s. inner.row_id (part.get s);
    find_one_by_up = λ p s up.
        let (o, answer, finds) = inner.find_one_by_up p (part.get s) up in
        (o, answer, of_part-Finds p s o finds);
    find_one_by_down = λ p s. inner.find_one_by_down p (part.get s);
    exists_by_up = λ p s. inner.exists_by_up p (part.get s);
    exists_by_down = λ p s. inner.exists_by_down p (part.get s);
    find_up = λ p before s. inner.find_up p before (part.get s);
    find_down = λ p before s. inner.find_down p before (part.get s);
    insert_up = λ d s up. elim (inner.insert_up d (part.get s) up) [
      | inl h ↦ inl (of_part-Inserted d s h)
      | inr h ↦ inr (of_part-Refused d (λ j. false) (λ c. c) (inner.insert d) s h)
    ];
    insert_down =
        λ d s down. of_part-Unreachable (inner.insert d) s (inner.insert_down d (part.get s) down);
    save_up = λ id created d s old up there.
        elim (inner.save_up id created d (part.get s) old up there) [
          | inl h ↦ inl (of_part-Updated id created d s old h)
          | inr h ↦ inr (
              of_part-Refused d (λ j. j == id) (table.on_update old.columns)
                (inner.save id created d) s h)
        ];
    save_gone = λ id created d s up gone. elim (inner.save_gone id created d (part.get s) up gone) [
      | inl h ↦ inl (of_part-Restored id created d s h)
      | inr h ↦ inr (of_part-Refused d (λ j. j == id) (λ c. c) (inner.save id created d) s h)
    ];
    save_down = λ id created d s down.
        of_part-Unreachable (inner.save id created d) s
          (inner.save_down id created d (part.get s) down);
    delete_up = λ id s old up there.
        let (result, writes) = inner.delete_up id (part.get s) old up there in
        (result, of_part-Writes s (inner.delete id (part.get s)).1 id none writes);
    delete_missing = λ id s up gone.
        let (result, same) = inner.delete_missing id (part.get s) up gone in
        (result, of_part-Same s (inner.delete id (part.get s)).1 same);
    delete_down = λ id s down.
        of_part-Unreachable (inner.delete id) s (inner.delete_down id (part.get s) down);
  }
