-- ===== src/Auth/AuthController/RoundTrip.antt =====
-- A registration and the log-in after it.
use cinema_microservices.Auth.AuthService.{
  register, login, create_user, to_public_user, email_registered,
}
use cinema_microservices.Auth.AuthService.Registration.{register_up}
use cinema_microservices.Auth.AuthController.Accounts.{UniqueEmails, insert-UniqueEmails}
use cinema_microservices.Shared.Role.{Role}
use cinema_microservices.Prelude.{◌∙◌, ◌≡◌, String, true, arith, ap, inr, inl}
use cinema_microservices.Runtime.Exceptions.{Nest}
use cinema_microservices.Auth.User.{Users, UserColumns}
use cinema_microservices.Auth.Credentials.{Bcrypt, JwtService}
use cinema_microservices.Auth.AuthService.{AuthConfig, bcrypt_salt_rounds}
use cinema_microservices.Shared.Dtos.Accounts.{RegisterDto, IsRegisterDto, PublicUser}
use cinema_microservices.Runtime.Async.{Settled, fulfilled, run, rejected}
use cinema_microservices.Auth.AuthService.Registration.{Added}
use cinema_microservices.Auth.AuthService.Login.{login_accepted}
use cinema_microservices.Runtime.Async.Interleaving.{Keeps, run-Keeps, keeps_rules}

module _ (nest : Nest) {S : Type 0} (users : Users S) (bcrypt : Bcrypt S) (jwt : JwtService S)
    (config : AuthConfig) where
  register-UniqueEmails :
      (dto : RegisterDto)
      → Keeps
          (UniqueEmails nest users bcrypt jwt config)
          (register nest users bcrypt jwt config dto)
  unfolding register create_user
  register-UniqueEmails dto = search (keeps_rules, insert-UniqueEmails) depth 10

  log_in :
      (dto : RegisterDto) (password_hash token : String) (s : S) (out : Settled PublicUser × S)
      → users.is_up s ≡ true
      → bcrypt.hash dto.password bcrypt_salt_rounds s ≡ fulfilled password_hash
      → UniqueEmails nest users bcrypt jwt config out.1
      → (added : Added nest users bcrypt jwt config dto.email password_hash Role.user s out)
      → jwt.sign_async
          (record { sub = added.account.id; email = dto.email; role = Role.user })
          out.1
        ≡ fulfilled token
      → run
          (login nest users bcrypt jwt config
            (record { email = dto.email; password = dto.password }))
          out.1
        ≡ (
          fulfilled (record {
            access_token = token;
            token_type = "Bearer";
            expires_in = config.jwt_expires_in;
          }),
          out.1,
        )
  unfolding UniqueEmails
  log_in dto password_hash token s out up hashed unique added signed =
      let own = added.rows added.account.id in
      let columns = added.columns in
      login_accepted nest users bcrypt jwt config
        (record { email = dto.email; password = dto.password }) out.1 added.account token
        (added.still_up ∙ up) unique
        (record {
          there = ground arith;
          email = ap (λ (c : UserColumns). c.email) columns;
          matches =
              rw columns
                (bcrypt.compare-hash dto.password password_hash bcrypt_salt_rounds s hashed);
        })
        (rw columns signed)

  -- With the database up and no address used twice, whoever has registered can log in at once with
  -- that address and password, and gets a token that was signed for the new account, with the role
  -- USER.
  pub register-login :
      (dto : RegisterDto) (password_hash token : String) (account : PublicUser) (s : S)
      → users.is_up s ≡ true
      → UniqueEmails nest users bcrypt jwt config s
      → IsRegisterDto dto
      → dto.password ≡ dto.confirm_password
      → bcrypt.hash dto.password bcrypt_salt_rounds s ≡ fulfilled password_hash
      → (run (register nest users bcrypt jwt config dto) s).0 ≡ fulfilled account
      → let s' = (run (register nest users bcrypt jwt config dto) s).1 in
        jwt.sign_async (record { sub = account.id; email = dto.email; role = Role.user }) s'
          ≡ fulfilled token
        → run
            (login nest users bcrypt jwt config
              (record { email = dto.email; password = dto.password }))
            s'
          ≡ (
            fulfilled (record {
              access_token = token;
              token_type = "Bearer";
              expires_in = config.jwt_expires_in;
            }),
            s',
          )
  register-login dto password_hash token account s up unique valid agree hashed done signed =
      let out = run (register nest users bcrypt jwt config dto) s in
      let unique' =
        run-Keeps (register nest users bcrypt jwt config dto) s (register-UniqueEmails dto)
          unique in
      elim (register_up nest users bcrypt jwt config dto password_hash s up valid agree hashed) [
        | inr (taken, e) ↦
            let refused : out.0 ≡ rejected (email_registered nest) =
              ap (λ (r : Settled PublicUser × S). r.0) e in
            cc (refused, done)
        | inl added ↦
            let it : to_public_user added.account ≡ account = cc (added.result, done) in
            let id : added.account.id ≡ account.id = ap (λ (u : PublicUser). u.id) it in
            log_in dto password_hash token s out up hashed unique' added (rw id signed)
      ]
