-- ===== src/Tests/Codes.antt =====
-- The SQLSTATEs that the constraints of the tables yield: none is that of a unique violation.
use Prim.Native.String.{count}
use cinema_microservices.Runtime.Columns.{◌>>=◌}
use cinema_microservices.Prelude.{
  refl, ◌===◌, ◌≡◌, Bool, Option, ℕ, String, Bool-cases, some, true, false, ltb, none, inl, inr,
}
use cinema_microservices.Catalog.Movie.{accept_movie, movies_table}
use cinema_microservices.Orders.Order.{accept_order, orders_table}
use cinema_microservices.Runtime.Repository.{Accepted, stores, violates, unique_violation}
use cinema_microservices.Runtime.Columns.{
  check, integer, required, smallint, in_numeric, varchar, non_negative,
}
use cinema_microservices.Runtime.Memory.Operations.{PlainCodes}
use cinema_microservices.Runtime.Value.{Number}
use cinema_microservices.Shared.Money.Decimal.{decimal}
use cinema_microservices.Auth.User.{accept_user, users_table}

abbrev IsPlain : {A : Type 0} → Accepted A → Type 0
IsPlain (stores a) = Unit
IsPlain (violates c) = (c === unique_violation) ≡ false

bind-IsPlain :
    {A B : Type 0} (a : Accepted A) (f : A → Accepted B)
    → IsPlain a
    → ((x : A) → IsPlain (f x))
    → IsPlain (a >>= f)
bind-IsPlain (stores a) f h k = k a
bind-IsPlain (violates c) f h k = h

required-IsPlain : {A : Type 0} (a : Option A) → IsPlain (required a)
required-IsPlain none = refl
required-IsPlain (some a) = tt

varchar-IsPlain : (n : ℕ) (s : String) → IsPlain (varchar n s)
varchar-IsPlain n s = elim (Bool-cases (ltb n (count s))) [ inl h ↦ rw h refl | inr h ↦ rw h tt ]

smallint-IsPlain : (n : ℕ) → IsPlain (smallint n)
smallint-IsPlain n = elim (Bool-cases (ltb 32767 n)) [ inl h ↦ rw h refl | inr h ↦ rw h tt ]

integer-IsPlain : (n : ℕ) → IsPlain (integer n)
integer-IsPlain n = elim (Bool-cases (ltb 2147483647 n)) [ inl h ↦ rw h refl | inr h ↦ rw h tt ]

in_numeric-IsPlain : (n : Option Number) → IsPlain (in_numeric n)
in_numeric-IsPlain none = refl
in_numeric-IsPlain (some n) = tt

check-IsPlain : {A : Type 0} (b : Bool) (a : A) → IsPlain (check b a)
check-IsPlain true a = tt
check-IsPlain false a = refl

code-IsPlain :
    {A : Type 0} (a : Accepted A) (c : String)
    → IsPlain a
    → a ≡ violates c
    → (c === unique_violation) ≡ false
code-IsPlain (stores a) c h e = cc
code-IsPlain (violates c') c h e = cc

pub movies_table-PlainCodes : PlainCodes (movies_table decimal)
unfolding accept_movie
movies_table-PlainCodes d c e =
    code-IsPlain (accept_movie decimal d) c
      (bind-IsPlain (required d.title) _ (required-IsPlain _) (λ title.
        bind-IsPlain (varchar 255 title) _ (varchar-IsPlain 255 title) (λ title.
          bind-IsPlain (required d.release_year) _ (required-IsPlain _) (λ year.
            bind-IsPlain (smallint year) _ (smallint-IsPlain year) (λ year.
              bind-IsPlain (required d.duration_minutes) _ (required-IsPlain _) (λ minutes.
                bind-IsPlain (smallint minutes) _ (smallint-IsPlain minutes) (λ minutes.
                  bind-IsPlain (check (ltb 0 minutes) minutes) _ (check-IsPlain _ _) (λ minutes.
                    bind-IsPlain (required d.ticket_price) _ (required-IsPlain _) (λ price.
                      bind-IsPlain (in_numeric (decimal.numeric 10 2 price)) _
                        (in_numeric-IsPlain _)
                        (λ price.
                          bind-IsPlain (check (non_negative price) price) _ (check-IsPlain _ _)
                            (λ price. tt)))))))))))
      e

pub orders_table-PlainCodes : PlainCodes (orders_table decimal)
unfolding accept_order
orders_table-PlainCodes d c e =
    code-IsPlain (accept_order decimal d) c
      (bind-IsPlain (integer d.user_id) _ (integer-IsPlain _) (λ user.
        bind-IsPlain (integer d.movie_id) _ (integer-IsPlain _) (λ movie.
          bind-IsPlain (varchar 255 d.movie_title) _ (varchar-IsPlain 255 _) (λ title.
            bind-IsPlain (smallint d.movie_release_year) _ (smallint-IsPlain _) (λ year.
              bind-IsPlain (in_numeric (decimal.numeric 10 2 d.ticket_price)) _
                (in_numeric-IsPlain _)
                (λ price. bind-IsPlain (smallint d.quantity) _ (smallint-IsPlain _) (λ quantity.
                  bind-IsPlain (in_numeric (decimal.numeric 12 2 d.total_price)) _
                    (in_numeric-IsPlain _)
                    (λ total.
                      bind-IsPlain (check (ltb 0 quantity) quantity) _ (check-IsPlain _ _)
                        (λ quantity.
                          bind-IsPlain (check (non_negative total) total) _ (check-IsPlain _ _)
                            (λ total. tt))))))))))
      e

pub users_table-PlainCodes : PlainCodes users_table
unfolding accept_user
users_table-PlainCodes d c e =
    code-IsPlain (accept_user d) c
      (bind-IsPlain (varchar 255 d.email) _ (varchar-IsPlain 255 d.email) (λ email. tt)) e
