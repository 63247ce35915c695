-- ===== src/Auth/User.antt =====
-- apps/auth-service/src/entities/user.entity.ts and the migration CreateUsers: the table `users`.
use cinema_microservices.Runtime.Columns.{◌>>=◌, varchar}
use cinema_microservices.Prelude.{◌===◌, Bool, String, ◌≡◌, true, eq_iff, sym}
use cinema_microservices.Runtime.Repository.{Accepted, Repository, Row, Table, stores}
use cinema_microservices.Shared.Role.{Role}

pub record UserColumns : Type 0 where
  pub email : String
  pub password_hash : String
  pub role : Role

abbrev pub User : Type 0
User = Row UserColumns

unfoldable pub accept_user : UserColumns → Accepted UserColumns
accept_user d = do
  email ← varchar 255 d.email
  stores (record { email = email; password_hash = d.password_hash; role = d.role })

-- UQ_users_email
unfoldable pub same_email : UserColumns → UserColumns → Bool
same_email a b = a.email === b.email

pub same_email_lem : (a b : UserColumns) → a.email ≡ b.email → same_email a b ≡ true
unfolding same_email
same_email_lem a b e = (eq_iff a.email b.email).1 e

pub same_email_symm : (a b : UserColumns) → same_email a b ≡ true → same_email b a ≡ true
unfolding same_email
same_email_symm a b h = (eq_iff b.email a.email).1 (sym ((eq_iff a.email b.email).0 h))

abbrev pub users_table : Table UserColumns UserColumns
users_table = record { accept = accept_user; clashes = same_email; on_update = λ old new. new }

abbrev pub Users : Type 0 → Type 0
Users S = Repository S UserColumns UserColumns users_table
