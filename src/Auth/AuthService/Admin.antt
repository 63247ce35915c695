-- ===== src/Auth/AuthService/Admin.antt =====
-- `AuthService.ensureAdminAccount`: the admin account that the configuration names.
use cinema_microservices.Auth.AuthService.Registration.{Taken}
use cinema_microservices.Shared.Role.{Role}
use Prim.Native.String.{count}
use cinema_microservices.Prelude.{
  refl, ◌∙◌, ◌≡◌, ◌≤◌, String, true, none, some, false, arith, inl, ap, eq_iff, inr,
}
use cinema_microservices.Runtime.Exceptions.{Nest}
use cinema_microservices.Auth.User.{Users, UserColumns}
use cinema_microservices.Auth.Credentials.{Bcrypt, JwtService}
use cinema_microservices.Auth.AuthService.{
  AuthConfig, ensure_account, ensure_admin_account, given_both, has_email, bcrypt_salt_rounds,
  create_user,
}
use cinema_microservices.Runtime.Async.{Settled, fulfilled, run, return}
use cinema_microservices.Auth.AuthService.Registration.{Added, create_user-Added}
use cinema_microservices.Runtime.Async.Interleaving.{run-bind_fulfilled}
use cinema_microservices.Shared.Dtos.Accounts.{PublicUser}

module _ (nest : Nest) {S : Type 0} (users : Users S) (bcrypt : Bcrypt S) (jwt : JwtService S)
    (config : AuthConfig) (normalize : String → String) where
  -- What a start of the service leaves behind: nothing new where the address is in use, and else
  -- one account with the role ADMIN.
  pub data Ensured (email password_hash : String) (s : S) (out : Settled (Unit {0}) × S)
      : Type 0 where
    found :
        Taken nest users bcrypt jwt config s email
        → out ≡ (fulfilled tt, s)
        → Ensured email password_hash s out
    created :
        (made : Settled PublicUser)
        → out.0 ≡ fulfilled tt
        → Added nest users bcrypt jwt config email password_hash Role.admin s (made, out.1)
        → Ensured email password_hash s out

  run-ensure_free :
      (email password password_hash : String) (s : S)
      → users.exists_by (has_email (normalize email)) s ≡ fulfilled false
      → Added nest users bcrypt jwt config
          (normalize email)
          password_hash
          Role.admin
          s
          (run (create_user nest users bcrypt jwt config (normalize email) password Role.admin) s)
      → run (ensure_account nest users bcrypt jwt config normalize (some (email, password))) s ≡ (
        fulfilled tt,
        (run (create_user nest users bcrypt jwt config (normalize email) password Role.admin) s).1,
      )
  unfolding ensure_account
  run-ensure_free email password password_hash s answer added =
      rw (answer, run)
        (run-bind_fulfilled
          (create_user nest users bcrypt jwt config (normalize email) password Role.admin)
          (λ user. return tt) s
          (ap
            (λ (r : Settled PublicUser). (
              r,
              (run (create_user nest users bcrypt jwt config (normalize email) password Role.admin)
                  s).1,
            ))
            added.result))

  -- With the database up, a start of the service makes the configured admin account, with the hash
  -- of its password and nothing else changed, unless the address is in use: then it writes nothing.
  pub ensure_admin_account_up :
      (email password password_hash : String) (s : S)
      → given_both config.admin_email config.admin_password ≡ some (email, password)
      → users.is_up s ≡ true
      → count (normalize email) ≤ 255
      → bcrypt.hash password bcrypt_salt_rounds s ≡ fulfilled password_hash
      → Ensured
          (normalize email)
          password_hash
          s
          (run (ensure_admin_account nest users bcrypt jwt config normalize) s)
  unfolding ensure_admin_account ensure_account
  ensure_admin_account_up email password password_hash s given up fits hashed =
      rw given (elim (users.exists_by_up (has_email (normalize email)) s up) [
        | inl (o, answer, there, match) ↦
            found (o, there, (eq_iff o.columns.email (normalize email)).0 match) (rw (answer, run))
        | inr (answer, free) ↦
            let added =
              create_user-Added nest users bcrypt jwt config (normalize email) password
                password_hash Role.admin s up fits hashed free in
            let e = run-ensure_free email password password_hash s answer added in
            rw e (created _ refl added)
      ])

  -- Where the address or the password is missing or empty, a start makes no account.
  pub ensure_admin_account_unset :
      (s : S)
      → given_both config.admin_email config.admin_password ≡ none
      → run (ensure_admin_account nest users bcrypt jwt config normalize) s ≡ (fulfilled tt, s)
  unfolding ensure_admin_account ensure_account
  ensure_admin_account_unset s unset = rw unset refl

  Taken-again :
      (email password : String) (s : S)
      → users.is_up s ≡ true
      → Taken nest users bcrypt jwt config s (normalize email)
      → run (ensure_account nest users bcrypt jwt config normalize (some (email, password))) s
        ≡ (fulfilled tt, s)
  unfolding ensure_account
  Taken-again email password s up (o, there, e) =
      elim (users.exists_by_up (has_email (normalize email)) s up) [
        | inl (o', answer, there', match) ↦ rw (answer, run)
        | inr (answer, free) ↦
            let fails = free o.id o there in
            cc (fails, (eq_iff o.columns.email (normalize email)).1 e)
      ]

  -- The next start of the service finds the account and changes nothing.
  pub ensure_admin_account_again :
      (email password password_hash : String) (s : S)
      → given_both config.admin_email config.admin_password ≡ some (email, password)
      → users.is_up s ≡ true
      → count (normalize email) ≤ 255
      → bcrypt.hash password bcrypt_salt_rounds s ≡ fulfilled password_hash
      → let s' = (run (ensure_admin_account nest users bcrypt jwt config normalize) s).1 in
        run (ensure_admin_account nest users bcrypt jwt config normalize) s' ≡ (fulfilled tt, s')
  unfolding ensure_admin_account
  ensure_admin_account_again email password password_hash s given up fits hashed =
      let out = run (ensure_admin_account nest users bcrypt jwt config normalize) s in
      again out (ensure_admin_account_up email password password_hash s given up fits hashed)
    where
      again :
          (out : Settled (Unit {0}) × S)
          → Ensured (normalize email) password_hash s out
          → run (ensure_admin_account nest users bcrypt jwt config normalize) out.1
            ≡ (fulfilled tt, out.1)
      again out (found taken e) = rw (given, e) (Taken-again email password s up taken)
      again out (created made done a) =
          let own = a.rows a.account.id in
          rw given (
            Taken-again email password out.1 (a.still_up ∙ up)
              (a.account, ground arith, ap (λ (c : UserColumns). c.email) a.columns))
