-- ===== src/Runtime/Async/Interleaving.antt =====
-- Handlers that run at the same time in one service: at each step the event loop resumes one of
-- them, up to its next `await`.
use cinema_microservices.Prelude.{
  ℕ, zero, suc, ◌≡◌, List, [], ◌∷◌, All, arith, refl, if◌then◌else◌, Bool, Option, true, false,
  some, none,
}
use cinema_microservices.Runtime.Async.{
  Async, return, throw, await, settle, Settled, fulfilled, rejected, read, call, catch, run, ◌>>=◌,
  or_throw, throw_if,
}
use cinema_microservices.Runtime.Exceptions.{Thrown}

module _ {S A : Type 0} where
  -- The next call of a handler; a finished one stays as it is.
  abbrev pub advance : Async S A → S → Async S A × S
  advance (return a) s = (return a, s)
  advance (throw e) s = (throw e, s)
  advance (await w k) s = (k s, w s)

  -- Resumes the handler at a position; an index out of range resumes none.
  unfoldable pub resume : ℕ → List (Async S A) → S → List (Async S A) × S
  resume i [] s = ([], s)
  resume zero (m ∷ ms) s = let (m', s') = advance m s in (m' ∷ ms, s')
  resume (suc i) (m ∷ ms) s = let (ms', s') = resume i ms s in (m ∷ ms', s')

  -- A schedule: the positions in the order in which they are resumed.
  unfoldable pub interleave : List ℕ → List (Async S A) → S → List (Async S A) × S
  unfolding resume
  interleave [] ms s = (ms, s)
  interleave (i ∷ is) ms s = let (ms', s') = resume i ms s in interleave is ms' s'

  -- Every call that the handler may make keeps `P`, whatever the others did in between.
  abbrev CallsKeep : (S → Type 0) → Async S A → Type 0
  CallsKeep P (return a) = Unit
  CallsKeep P (throw e) = Unit
  CallsKeep P (await w k) = (s : S) → P s → P (w s) × CallsKeep P (k s)

-- The same, as a record, so that the rules below apply to a handler as it is written.
pub record Keeps {S A : Type 0} (P : S → Type 0) (m : Async S A) : Type 0 where
  pub calls : CallsKeep P m

module _ {S : Type 0} (P : S → Type 0) where
  settle_calls : {A : Type 0} (r : Settled A) → CallsKeep P (settle r)
  settle_calls (fulfilled a) = tt
  settle_calls (rejected e) = tt

  bind_calls :
      {A B : Type 0} (m : Async S A) (f : A → Async S B)
      → CallsKeep P m
      → ((a : A) → CallsKeep P (f a))
      → CallsKeep P (m >>= f)
  bind_calls (return a) f k kf = kf a
  bind_calls (throw e) f k kf = tt
  bind_calls (await w c) f k kf = λ s h. ((k s h).0, bind_calls (c s) f (k s h).1 kf)

  catch_calls :
      {A : Type 0} (m : Async S A) (h : Thrown → Async S A)
      → CallsKeep P m
      → ((e : Thrown) → CallsKeep P (h e))
      → CallsKeep P (catch m h)
  catch_calls (return a) h k kh = tt
  catch_calls (throw e) h k kh = kh e
  catch_calls (await w c) h k kh = λ s p. ((k s p).0, catch_calls (c s) h (k s p).1 kh)

  -- After a query the rest may use what it answered and the state that it saw.
  read_calls :
      {A B C : Type 0} (r : Settled A) (g : A → Async S B) (f : B → Async S C)
      → ((a : A) → r ≡ fulfilled a → CallsKeep P (g a >>= f))
      → CallsKeep P (settle r >>= g >>= f)
  read_calls (fulfilled a) g f k = k a refl
  read_calls (rejected e) g f k = tt

  run_calls : {A : Type 0} (m : Async S A) (s : S) → CallsKeep P m → P s → P (run m s).1
  run_calls (return a) s k h = h
  run_calls (throw e) s k h = h
  run_calls (await w c) s k h = run_calls (c s) (w s) (k s h).1 (k s h).0

module _ {S : Type 0} {P : S → Type 0} where
  pub Keeps-return : {A : Type 0} (a : A) → Keeps P (return a)
  Keeps-return a = record { calls = tt }

  pub Keeps-throw : {A : Type 0} (e : Thrown) → Keeps {A = A} P (throw e)
  Keeps-throw e = record { calls = tt }

  pub Keeps-throw_if : (b : Bool) (e : Thrown) → Keeps P (throw_if b e)
  Keeps-throw_if true e = Keeps-throw e
  Keeps-throw_if false e = Keeps-return tt

  pub Keeps-or_throw : {A : Type 0} (o : Option A) (e : Thrown) → Keeps P (or_throw o e)
  Keeps-or_throw none e = Keeps-throw e
  Keeps-or_throw (some a) e = Keeps-return a

  pub Keeps-if :
      {A : Type 0} (b : Bool) (m n : Async S A)
      → Keeps P m
      → Keeps P n
      → Keeps P (if b then m else n)
  Keeps-if true m n km kn = km
  Keeps-if false m n km kn = kn

  pub Keeps-read : {A : Type 0} (op : S → Settled A) → Keeps P (read op)
  Keeps-read op = record { calls = λ s h. (h, settle_calls P (op s)) }

  pub Keeps-call :
      {A : Type 0} (op : S → Settled A × S) → ((s : S) → P s → P (op s).1) → Keeps P (call op)
  Keeps-call op keep = record { calls = λ s h. (keep s h, settle_calls P (op s).0) }

  pub Keeps-read_bind :
      {A B C : Type 0} (op : S → Settled A) (g : A → Async S B) (f : B → Async S C)
      → ((s : S) → P s → (a : A) → op s ≡ fulfilled a → Keeps P (g a >>= f))
      → Keeps P (read op >>= g >>= f)
  Keeps-read_bind op g f k = record {
    calls = λ s h. (h, read_calls P (op s) g f (λ a e. (k s h a e).calls));
  }

  pub Keeps-bind :
      {A B : Type 0} (m : Async S A) (f : A → Async S B)
      → Keeps P m
      → ((a : A) → Keeps P (f a))
      → Keeps P (m >>= f)
  Keeps-bind m f k kf = record { calls = bind_calls P m f k.calls (λ a. (kf a).calls) }

  pub Keeps-catch :
      {A : Type 0} (m : Async S A) (h : Thrown → Async S A)
      → Keeps P m
      → ((e : Thrown) → Keeps P (h e))
      → Keeps P (catch m h)
  Keeps-catch m h k kh = record { calls = catch_calls P m h k.calls (λ e. (kh e).calls) }

  -- A handler that runs alone keeps `P`.
  pub run-Keeps : {A : Type 0} (m : Async S A) (s : S) → Keeps P m → P s → P (run m s).1
  run-Keeps m s k h = run_calls P m s k.calls h

module _ {S A : Type 0} (P : S → Type 0) where
  advance-Keeps :
      (m : Async S A) (s : S) → Keeps P m → P s → Keeps P (advance m s).0 × P (advance m s).1
  advance-Keeps (return a) s k h = (k, h)
  advance-Keeps (throw e) s k h = (k, h)
  advance-Keeps (await w c) s k h = let (h', k') = k.calls s h in (record { calls = k' }, h')

  resume-Keeps :
      (i : ℕ) (ms : List (Async S A)) (s : S)
      → All (Keeps P) ms
      → P s
      → All (Keeps P) (resume i ms s).0 × P (resume i ms s).1
  unfolding resume
  resume-Keeps i [] s k h = (tt, h)
  resume-Keeps zero (m ∷ ms) s (k, ks) h = let (k', h') = advance-Keeps m s k h in ((k', ks), h')
  resume-Keeps (suc i) (m ∷ ms) s (k, ks) h =
      let (ks', h') = resume-Keeps i ms s ks h in ((k, ks'), h')

  -- Handlers that each keep `P` keep it under every schedule.
  pub interleave-Keeps :
      (is : List ℕ) (ms : List (Async S A)) (s : S)
      → All (Keeps P) ms
      → P s
      → P (interleave is ms s).1
  unfolding interleave
  interleave-Keeps [] ms s k h = h
  interleave-Keeps (i ∷ is) ms s k h =
      let (ms', s') = resume i ms s in
      let (k', h') = resume-Keeps i ms s k h in interleave-Keeps is ms' s' k' h'

pub ruleset keeps_rules = (
  Keeps-return, Keeps-throw, Keeps-throw_if, Keeps-or_throw, Keeps-if, Keeps-read, Keeps-call,
  Keeps-bind, Keeps-catch,
)

-- A settled promise that is awaited alone.
pub run-settle : {S A : Type 0} (r : Settled A) (s : S) → run (settle r) s ≡ (r, s)
run-settle (fulfilled a) s = refl
run-settle (rejected e) s = refl

-- A handler after another, where the first one has a known end.
module _ {S A B : Type 0} where
  pub run-bind_fulfilled :
      (m : Async S A) (f : A → Async S B) (s : S) {a : A} {s' : S}
      → run m s ≡ (fulfilled a, s')
      → run (m >>= f) s ≡ run (f a) s'
  run-bind_fulfilled (return a) f s e = ground arith
  run-bind_fulfilled (throw x) f s e = ground arith
  run-bind_fulfilled (await w k) f s e = run-bind_fulfilled (k s) f (w s) e

  pub run-bind_rejected :
      (m : Async S A) (f : A → Async S B) (s : S) {x : Thrown} {s' : S}
      → run m s ≡ (rejected x, s')
      → run (m >>= f) s ≡ (rejected x, s')
  run-bind_rejected (return a) f s e = ground arith
  run-bind_rejected (throw x) f s e = ground arith
  run-bind_rejected (await w k) f s e = run-bind_rejected (k s) f (w s) e
