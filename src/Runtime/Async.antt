-- ===== src/Runtime/Async.antt =====
-- Asynchronous handlers. An `async` function runs to its next `await`; there one call to the
-- database or to another service happens on the shared state `S`, and other handlers may run before
-- it goes on. A handler is the tree of its awaits, so that it can be run alone or interleaved.
pub mod Interleaving
pub mod Rely
pub mod PromiseAll
use cinema_microservices.Prelude.{Bool, Option, none, some, if◌then◌else◌}
use cinema_microservices.Runtime.Exceptions.{Thrown}

pub data Settled (A : Type 0) : Type 0 where
  fulfilled : A → Settled A
  rejected : Thrown → Settled A

pub data Async (S A : Type 0) : Type 0 where
  return : A → Async S A
  throw : Thrown → Async S A
  -- One atomic call: what it makes of the state, and how the handler goes on from what it saw.
  await : (S → S) → (S → Async S A) → Async S A

module _ {S A : Type 0} where
  abbrev pub settle : Settled A → Async S A
  settle (fulfilled a) = return a
  settle (rejected e) = throw e

  -- `await` on a query that writes nothing.
  abbrev pub read : (S → Settled A) → Async S A
  read op = await (λ s. s) (λ s. settle (op s))

  -- `await` on one call of a database or of another service.
  abbrev pub call : (S → Settled A × S) → Async S A
  call op = await (λ s. (op s).1) (λ s. settle (op s).0)

  -- `try { m } catch (e) { h(e) }`
  abbrev pub catch : Async S A → (Thrown → Async S A) → Async S A
  catch (return a) h = return a
  catch (throw e) h = h e
  catch (await w k) h = await w (λ s. catch (k s) h)

  -- A handler that nothing interrupts.
  abbrev pub run : Async S A → S → Settled A × S
  run (return a) s = (fulfilled a, s)
  run (throw e) s = (rejected e, s)
  run (await w k) s = run (k s) (w s)

infixl 5 ◌>>=◌ ◌>>◌
abbrev pub ◌>>=◌ : {S A B : Type 0} → Async S A → (A → Async S B) → Async S B
return a >>= f = f a
throw e >>= f = throw e
await w k >>= f = await w (λ s. k s >>= f)

abbrev pub ◌>>◌ : {S A B : Type 0} → Async S A → Async S B → Async S B
m >> n = m >>= λ _. n

abbrev pub throw_if : {S : Type 0} → Bool → Thrown → Async S (Unit {0})
throw_if b e = if b then throw e else return tt

-- `if (!x) throw e;` on a value that may be `null`
abbrev pub or_throw : {S A : Type 0} → Option A → Thrown → Async S A
or_throw none e = throw e
or_throw (some a) e = return a
