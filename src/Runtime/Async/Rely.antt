-- ===== src/Runtime/Async/Rely.antt =====
-- What the calls of concurrent handlers do to the state, where a handler may rely on what the
-- others do. `R s s'` holds of two states when the calls of any handlers lead from `s` to `s'`.
use cinema_microservices.Runtime.Async.{
  ◌>>=◌, Async, Settled, return, call, catch, fulfilled, read, settle, throw, await, rejected,
  or_throw, throw_if,
}
use cinema_microservices.Prelude.{
  [], refl, ◌∷◌, ◌≡◌, List, All, ℕ, suc, zero, Bool, Option, some, true, false, none,
}
use cinema_microservices.Runtime.Async.Interleaving.{interleave, resume, advance}
use cinema_microservices.Runtime.Exceptions.{Thrown}

-- Started in the state `s`, or in any that the others make of it, every call of the handler is a
-- change that `R` allows.
abbrev CallsObey : {S A : Type 0} → (S → S → Type 0) → S → Async S A → Type 0
CallsObey R s (return a) = Unit
CallsObey R s (throw e) = Unit
CallsObey R s (await w k) = (s' : _) → R s s' → R s' (w s') × CallsObey R (w s') (k s')

pub record Obeys {S A : Type 0} (R : S → S → Type 0) (s : S) (m : Async S A) : Type 0 where
  pub calls : CallsObey R s m

pub record IsPreorder {S : Type 0} (R : S → S → Type 0) : Type 0 where
  pub at_once : (s : S) → R s s
  pub then_on : (s t u : S) → R s t → R t u → R s u

settle_obeys :
    {S A : Type 0} (R : S → S → Type 0) (s : S) (r : Settled A) → CallsObey R s (settle r)
settle_obeys R s (fulfilled a) = tt
settle_obeys R s (rejected e) = tt

module _ {S : Type 0} {R : S → S → Type 0} where
  pub Obeys-return : {A : Type 0} (s : S) (a : A) → Obeys R s (return a)
  Obeys-return s a = record { calls = tt }

  pub Obeys-throw : {A : Type 0} (s : S) (e : Thrown) → Obeys {A = A} R s (throw e)
  Obeys-throw s e = record { calls = tt }

  pub Obeys-throw_if : (s : S) (b : Bool) (e : Thrown) → Obeys R s (throw_if b e)
  Obeys-throw_if s true e = record { calls = tt }
  Obeys-throw_if s false e = record { calls = tt }

  pub Obeys-or_throw : {A : Type 0} (s : S) (a : Option A) (e : Thrown) → Obeys R s (or_throw a e)
  Obeys-or_throw s none e = record { calls = tt }
  Obeys-or_throw s (some a) e = record { calls = tt }

  pub Obeys-call :
      {A : Type 0} (s : S) (op : S → Settled A × S)
      → ((s' : S) → R s s' → R s' (op s').1)
      → Obeys R s (call op)
  Obeys-call s op step = record { calls = λ s' r. (step s' r, settle_obeys R (op s').1 (op s').0) }

module _ {S : Type 0} (R : S → S → Type 0) (order : IsPreorder R) where
  obeys_later : {A : Type 0} (s t : S) (m : Async S A) → R s t → CallsObey R s m → CallsObey R t m
  obeys_later s t (return a) r h = tt
  obeys_later s t (throw e) r h = tt
  obeys_later s t (await w k) r h = λ u r'. h u (order.then_on s t u r r')

  bind_obeys :
      {A B : Type 0} (s : S) (m : Async S A) (f : A → Async S B)
      → CallsObey R s m
      → ((t : S) (a : A) → R s t → CallsObey R t (f a))
      → CallsObey R s (m >>= f)
  bind_obeys s (return a) f h hf = hf s a (order.at_once s)
  bind_obeys s (throw e) f h hf = tt
  bind_obeys s (await w k) f h hf = λ t r.
      let (step, rest) = h t r in
      (
        step,
        bind_obeys (w t) (k t) f rest
            (λ u a r'. hf u a (order.then_on s t u r (order.then_on t (w t) u step r'))),
      )

  catch_obeys :
      {A : Type 0} (s : S) (m : Async S A) (h : Thrown → Async S A)
      → CallsObey R s m
      → ((t : S) (e : Thrown) → CallsObey R t (h e))
      → CallsObey R s (catch m h)
  catch_obeys s (return a) h k kh = tt
  catch_obeys s (throw e) h k kh = kh s e
  catch_obeys s (await w c) h k kh =
      λ t r. let (step, rest) = k t r in (step, catch_obeys (w t) (c t) h rest kh)

  read_obeys :
      {A B C : Type 0} (s : S) (r : Settled A) (g : A → Async S B) (f : B → Async S C)
      → ((a : A) → r ≡ fulfilled a → CallsObey R s (g a >>= f))
      → CallsObey R s (settle r >>= g >>= f)
  read_obeys s (fulfilled a) g f k = k a refl
  read_obeys s (rejected e) g f k = tt

  pub Obeys-bind :
      {A B : Type 0} (s : S) (m : Async S A) (f : A → Async S B)
      → Obeys R s m
      → ((t : S) (a : A) → R s t → Obeys R t (f a))
      → Obeys R s (m >>= f)
  Obeys-bind s m f k kf = record { calls = bind_obeys s m f k.calls (λ t a r. (kf t a r).calls) }

  pub Obeys-catch :
      {A : Type 0} (s : S) (m : Async S A) (h : Thrown → Async S A)
      → Obeys R s m
      → ((t : S) (e : Thrown) → Obeys R t (h e))
      → Obeys R s (catch m h)
  Obeys-catch s m h k kh = record { calls = catch_obeys s m h k.calls (λ t e. (kh t e).calls) }

  -- After a query the handler may use what it answered about the state that it saw.
  pub Obeys-read_bind :
      {A B C : Type 0} (s : S) (op : S → Settled A) (g : A → Async S B) (f : B → Async S C)
      → ((t : S) (a : A) → op t ≡ fulfilled a → Obeys R t (g a >>= f))
      → Obeys R s (read op >>= g >>= f)
  Obeys-read_bind s op g f k = record {
    calls = λ t r. (order.at_once t, read_obeys t (op t) g f (λ a e. (k t a e).calls));
  }

  pub Obeys-read : {A : Type 0} (s : S) (op : S → Settled A) → Obeys R s (read op)
  Obeys-read s op = record { calls = λ t r. (order.at_once t, settle_obeys R t (op t)) }

  module _ {A : Type 0} where
    All-later : (s t : S) (ms : List (Async S A)) → R s t → All (Obeys R s) ms → All (Obeys R t) ms
    All-later s t [] r h = tt
    All-later s t (m ∷ ms) r (h, hs) =
        (record { calls = obeys_later s t m r h.calls }, All-later s t ms r hs)

    advance-Obeys :
        (m : Async S A) (s : S)
        → Obeys R s m
        → Obeys R (advance m s).1 (advance m s).0 × R s (advance m s).1
    advance-Obeys (return a) s h = (h, order.at_once s)
    advance-Obeys (throw e) s h = (h, order.at_once s)
    advance-Obeys (await w k) s h =
        let (step, rest) = h.calls s (order.at_once s) in (record { calls = rest }, step)

    resume-Obeys :
        (i : ℕ) (ms : List (Async S A)) (s : S)
        → All (Obeys R s) ms
        → All (Obeys R (resume i ms s).1) (resume i ms s).0 × R s (resume i ms s).1
    unfolding resume
    resume-Obeys i [] s h = (tt, order.at_once s)
    resume-Obeys zero (m ∷ ms) s (h, hs) =
        let (h', r) = advance-Obeys m s h in ((h', All-later s (advance m s).1 ms r hs), r)
    resume-Obeys (suc i) (m ∷ ms) s (h, hs) =
        let (hs', r) = resume-Obeys i ms s hs in
        ((record { calls = obeys_later s (resume i ms s).1 m r h.calls }, hs'), r)

    -- However the handlers interleave, the whole run is a change that `R` allows.
    pub interleave-Obeys :
        (is : List ℕ) (ms : List (Async S A)) (s : S)
        → All (Obeys R s) ms
        → R s (interleave is ms s).1
    unfolding interleave
    interleave-Obeys [] ms s h = order.at_once s
    interleave-Obeys (i ∷ is) ms s h =
        let (ms', s') = resume i ms s in
        let (h', r) = resume-Obeys i ms s h in
        order.then_on s s' (interleave is ms' s').1 r (interleave-Obeys is ms' s' h')
