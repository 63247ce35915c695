-- ===== src/Auth/AuthService/Registration.antt =====
-- `AuthService.register` on every branch, and making an account.
use Prim.Native.String.{count}
use cinema_microservices.Shared.Role.{Role}
use cinema_microservices.Prelude.{
  if◌then◌else◌, refl, ◌===◌, ◌==◌, ◌≡◌, ◌≤◌, ◌⊎◌, String, true, ℕ, some, arith, false, none,
  Bool-cases, eq_iff, inl, inr, subst, sym,
}
use cinema_microservices.Runtime.Exceptions.{Nest}
use cinema_microservices.Auth.User.{Users, accept_user, same_email, User, UserColumns, users_table}
use cinema_microservices.Auth.Credentials.{Bcrypt, JwtService}
use cinema_microservices.Auth.AuthService.{
  AuthConfig, create_user, register, bcrypt_salt_rounds, has_email, to_public_user,
  email_registered, passwords_differ,
}
use cinema_microservices.Runtime.Async.{Settled, fulfilled, run, rejected}
use cinema_microservices.Shared.Dtos.Accounts.{RegisterDto, IsRegisterDto, PublicUser}
use cinema_microservices.Runtime.Repository.{stores, Clash}

module _ (nest : Nest) {S : Type 0} (users : Users S) (bcrypt : Bcrypt S) (jwt : JwtService S)
    (config : AuthConfig) where
  -- Some account has this email address.
  abbrev pub Taken : S → String → Type 0
  Taken s email = (o : User) × (users.row s o.id ≡ some o) × (o.columns.email ≡ email)

  -- A new account, stored under a fresh id.
  pub record Added (email password_hash : String) (role : Role) (s : S)
      (out : Settled PublicUser × S) : Type 0 where
    pub account : User
    pub result : out.0 ≡ fulfilled (to_public_user account)
    pub columns :
        account.columns ≡ record { email = email; password_hash = password_hash; role = role }
    pub fresh : users.row s account.id ≡ none
    pub was_free : ¬ Taken s email
    pub rows :
        (j : ℕ) → users.row out.1 j ≡ (if j == account.id then some account else users.row s j)
    pub still_up : users.is_up out.1 ≡ users.is_up s

  not-Taken :
      (s : S) (email : String)
      → ((j : ℕ) (o : User) → users.row s j ≡ some o → has_email email o ≡ false)
      → ¬ Taken s email
  not-Taken s email free (o, there, e) =
      let fails = free o.id o there in cc (fails, (eq_iff o.columns.email email).1 e)

  no-Clash :
      (email password_hash : String) (role : Role) (s : S)
      → ((j : ℕ) (o : User) → users.row s j ≡ some o → has_email email o ≡ false)
      → ¬ Clash users_table users.row users.is_up s
          (λ j. false)
          (record { email = email; password_hash = password_hash; role = role })
  unfolding same_email
  no-Clash email password_hash role s free c =
      let fails = free c.other c.row_of c.found in
      let clashing = c.clashing in
      let same = sym ((eq_iff email c.row_of.columns.email).0 clashing) in
      cc (fails, (eq_iff c.row_of.columns.email email).1 same)

  accept_user-fits : (d : UserColumns) → count d.email ≤ 255 → accept_user d ≡ stores d
  unfolding accept_user
  accept_user-fits d fits = ground arith

  run-create_user :
      (email password password_hash : String) (role : Role) (s : S)
      → bcrypt.hash password bcrypt_salt_rounds s ≡ fulfilled password_hash
      → (new : User)
      → (users.insert (record { email = email; password_hash = password_hash; role = role }) s).0
        ≡ fulfilled new
      → run (create_user nest users bcrypt jwt config email password role) s ≡ (
        fulfilled (to_public_user new),
        (users.insert (record { email = email; password_hash = password_hash; role = role }) s).1,
      )
  unfolding create_user
  run-create_user email password password_hash role s hashed new inserted =
      rw (hashed, run, inserted)

  -- With no account under the address, creating one always goes through.
  pub create_user-Added :
      (email password password_hash : String) (role : Role) (s : S)
      → users.is_up s ≡ true
      → count email ≤ 255
      → bcrypt.hash password bcrypt_salt_rounds s ≡ fulfilled password_hash
      → ((j : ℕ) (o : User) → users.row s j ≡ some o → has_email email o ≡ false)
      → Added email password_hash role s
          (run (create_user nest users bcrypt jwt config email password role) s)
  create_user-Added email password password_hash role s up fits hashed free =
      let d : UserColumns = record { email = email; password_hash = password_hash; role = role } in
      let accepted = accept_user-fits d fits in
      elim (users.insert_up d s up) [
        | inl stored ↦
            rw (run-create_user email password password_hash role s hashed stored.new stored.result)
              (record {
                account = stored.new;
                result = refl;
                columns = cc (accepted, stored.accepted);
                fresh = stored.fresh;
                was_free = not-Taken s email free;
                rows = stored.writes.0;
                still_up = stored.writes.1;
              })
        | inr refused ↦ elim refused.reason [
          | inl (c, stores_c, _, clash) ↦
              let same : c ≡ d = cc (accepted, stores_c) in
              absurd (
                no-Clash email password_hash role s free (
                  subst (λ x. Clash users_table users.row users.is_up s (λ j. false) x) same clash))
          | inr (violation, _) ↦ cc (accepted, violation)
        ]
      ]

  -- Two different passwords are refused before anything is looked up.
  pub register_mismatch :
      (dto : RegisterDto) (s : S)
      → ¬ (dto.password ≡ dto.confirm_password)
      → run (register nest users bcrypt jwt config dto) s ≡ (rejected (passwords_differ nest), s)
  unfolding register
  register_mismatch dto s differ = elim (Bool-cases (dto.password === dto.confirm_password)) [
    | inl same ↦ absurd (differ ((eq_iff dto.password dto.confirm_password).0 same))
    | inr other ↦ rw (other, run)
  ]

  -- With the database up, a registration whose passwords agree stores one account with the role
  -- USER and the hash of the password under a fresh id, with nothing else changed, if the email
  -- address is free; otherwise the answer is a conflict and nothing is written.
  pub register_up :
      (dto : RegisterDto) (password_hash : String) (s : S)
      → users.is_up s ≡ true
      → IsRegisterDto dto
      → dto.password ≡ dto.confirm_password
      → bcrypt.hash dto.password bcrypt_salt_rounds s ≡ fulfilled password_hash
      → let out = run (register nest users bcrypt jwt config dto) s in
        Added dto.email password_hash Role.user s out
        ⊎ (Taken s dto.email × (out ≡ (rejected (email_registered nest), s)))
  unfolding register
  register_up dto password_hash s up valid agree hashed =
      let same = (eq_iff dto.password dto.confirm_password).1 agree in
      elim (users.exists_by_up (has_email dto.email) s up) [
        | inl (o, found, there, fits) ↦
            inr ((o, there, (eq_iff o.columns.email dto.email).0 fits), rw (same, found, run))
        | inr (found, free) ↦ inl (
            rw (same, found, run)
              (create_user-Added dto.email dto.password password_hash Role.user s up
                valid.email_length hashed free))
      ]
