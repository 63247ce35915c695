-- ===== src/Runtime/Async/PromiseAll.antt =====
-- `Promise.all`: promises that run at the same time, in the order that a schedule gives. It is for
-- promises that never reject, the only ones that the program gives to it.
use cinema_microservices.Prelude.{[], refl, ◌∙◌, ◌∷◌, ◌≡◌, List, ℕ, ap, suc, zero}
use cinema_microservices.Runtime.Async.{◌>>=◌, Async, return, run, await, fulfilled, throw}
use cinema_microservices.Runtime.Async.Interleaving.{resume, advance, run-bind_fulfilled}

module _ {S A : Type 0} where
  sequence : List (Async S A) → Async S (List A)
  sequence [] = return []
  sequence (m ∷ ms) = m >>= λ a. sequence ms >>= λ rest. return (a ∷ rest)

  -- Each step lets one promise run up to its next `await`; what the schedule leaves over runs in
  -- the order of the list. Other handlers may run between two steps.
  unfoldable pub promise_all : List ℕ → List (Async S A) → Async S (List A)
  unfolding sequence resume
  promise_all [] ms = sequence ms
  promise_all (i ∷ is) ms = await (λ s. (resume i ms s).1) (λ s. promise_all is (resume i ms s).0)

  -- The promise resolves to `a` and leaves the state `s` as it is.
  abbrev pub SettlesAt : S → Async S A → A → Type 0
  SettlesAt s (return b) a = b ≡ a
  SettlesAt s (throw e) a = ⊥
  SettlesAt s (await w k) a = (w s ≡ s) × SettlesAt s (k s) a

  abbrev pub AllSettleAt : S → List (Async S A) → List A → Type 0
  AllSettleAt s [] [] = Unit
  AllSettleAt s (m ∷ ms) (a ∷ rest) = SettlesAt s m a × AllSettleAt s ms rest
  AllSettleAt s [] (a ∷ rest) = ⊥
  AllSettleAt s (m ∷ ms) [] = ⊥

  settled_bind :
      {B : Type 0} (s : S) (m : Async S A) (a : A) (f : A → Async S B)
      → SettlesAt s m a
      → run (m >>= f) s ≡ run (f a) s
  settled_bind s (return b) a f h = ap (λ x. run (f x) s) h
  settled_bind s (throw e) a f h = elim h [ ]
  settled_bind s (await w k) a f (same, h) =
      ap (λ t. run (k s >>= f) t) same ∙ settled_bind s (k s) a f h

  run-sequence :
      (s : S) (ms : List (Async S A)) (rest : List A)
      → AllSettleAt s ms rest
      → run (sequence ms) s ≡ (fulfilled rest, s)
  unfolding sequence
  run-sequence s [] [] h = refl
  run-sequence s (m ∷ ms) (a ∷ rest) (h, hs) =
      settled_bind s m a (λ x. sequence ms >>= λ xs. return (x ∷ xs)) h
      ∙ run-bind_fulfilled (sequence ms) (λ xs. return (a ∷ xs)) s (run-sequence s ms rest hs)
  run-sequence s [] (a ∷ rest) h = elim h [ ]
  run-sequence s (m ∷ ms) [] h = elim h [ ]

  advance-SettlesAt :
      (s : S) (m : Async S A) (a : A)
      → SettlesAt s m a
      → SettlesAt s (advance m s).0 a × ((advance m s).1 ≡ s)
  advance-SettlesAt s (return b) a h = (h, refl)
  advance-SettlesAt s (throw e) a h = elim h [ ]
  advance-SettlesAt s (await w k) a (same, h) = (h, same)

  resume-SettlesAt :
      (i : ℕ) (s : S) (ms : List (Async S A)) (rest : List A)
      → AllSettleAt s ms rest
      → AllSettleAt s (resume i ms s).0 rest × ((resume i ms s).1 ≡ s)
  unfolding resume
  resume-SettlesAt i s [] [] h = (tt, refl)
  resume-SettlesAt zero s (m ∷ ms) (a ∷ rest) (h, hs) =
      let (h', same) = advance-SettlesAt s m a h in ((h', hs), same)
  resume-SettlesAt (suc i) s (m ∷ ms) (a ∷ rest) (h, hs) =
      let (hs', same) = resume-SettlesAt i s ms rest hs in ((h, hs'), same)
  resume-SettlesAt i s [] (a ∷ rest) h = elim h [ ]
  resume-SettlesAt i s (m ∷ ms) [] h = elim h [ ]

  -- Under every schedule the promises resolve to the list of their values, in their order.
  pub run-promise_all :
      (is : List ℕ) (s : S) (ms : List (Async S A)) (rest : List A)
      → AllSettleAt s ms rest
      → run (promise_all is ms) s ≡ (fulfilled rest, s)
  unfolding promise_all
  run-promise_all [] s ms rest h = run-sequence s ms rest h
  run-promise_all (i ∷ is) s ms rest h =
      let (h', same) = resume-SettlesAt i s ms rest h in
      ap (λ t. run (promise_all is (resume i ms s).0) t) same
      ∙ run-promise_all is s (resume i ms s).0 rest h'
