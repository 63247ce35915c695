-- ===== src/Auth/AuthService/Login.antt =====
-- `AuthService.login`: who gets a token, and what everybody else is told.
use cinema_microservices.Prelude.{
  ◌∙◌, ◌≡◌, ◌⊎◌, String, true, some, inr, none, eq_iff, inl, ℕ, Bool-cases, false, Option, sym,
  subst,
}
use cinema_microservices.Runtime.Exceptions.{Nest}
use cinema_microservices.Auth.User.{Users, User, same_email_lem, users_table}
use cinema_microservices.Auth.Credentials.{Bcrypt, JwtService}
use cinema_microservices.Auth.AuthService.{
  AuthConfig, login, password_matches, has_email, invalid_credentials,
}
use cinema_microservices.Shared.Dtos.Accounts.{LoginDto}
use cinema_microservices.Runtime.Async.{run, fulfilled, rejected}
use cinema_microservices.Runtime.Repository.Unique.{IsUnique}
use cinema_microservices.Runtime.Repository.{Finds}

module _ (nest : Nest) {S : Type 0} (users : Users S) (bcrypt : Bcrypt S) (jwt : JwtService S)
    (config : AuthConfig) where
  -- The account that the credentials belong to.
  pub record Authentic (s : S) (dto : LoginDto) (account : User) : Type 0 where
    pub there : users.row s account.id ≡ some account
    pub email : account.columns.email ≡ dto.email
    pub matches : bcrypt.compare dto.password account.columns.password_hash ≡ true

  -- What the query finds, with the database up.
  find_account :
      (email : String) (s : S)
      → users.is_up s ≡ true
      → ((account : User) × (users.find_one_by (has_email email) s ≡ fulfilled (some account))
          × (users.row s account.id ≡ some account)
          × (account.columns.email ≡ email))
        ⊎ ((users.find_one_by (has_email email) s ≡ fulfilled none)
            × ((j : ℕ) (o : User) → users.row s j ≡ some o → has_email email o ≡ false))
  find_account email s up = cases (users.find_one_by_up (has_email email) s up)
    where
      cases :
          (o : Option User) × (users.find_one_by (has_email email) s ≡ fulfilled o)
            × Finds users_table users.row users.is_up (has_email email) s o
          → ((account : User) × (users.find_one_by (has_email email) s ≡ fulfilled (some account))
              × (users.row s account.id ≡ some account)
              × (account.columns.email ≡ email))
            ⊎ ((users.find_one_by (has_email email) s ≡ fulfilled none)
                × ((j : ℕ) (o : User) → users.row s j ≡ some o → has_email email o ≡ false))
      cases (some o, e, (there, fits)) = inl (o, e, there, (eq_iff o.columns.email email).0 fits)
      cases (none, e, none_fits) = inr (e, none_fits)

  -- With the database up, an unknown email address and a wrong password give the same answer, and
  -- a failed log-in changes nothing.
  pub login_refused :
      (dto : LoginDto) (s : S)
      → users.is_up s ≡ true
      → ((account : User) → ¬ Authentic s dto account)
      → run (login nest users bcrypt jwt config dto) s ≡ (rejected (invalid_credentials nest), s)
  unfolding login password_matches
  login_refused dto s up nobody = elim (find_account dto.email s up) [
    | inr (e, none_fits) ↦ rw (e, run)
    | inl (account, e, there, email) ↦
        elim (Bool-cases (bcrypt.compare dto.password account.columns.password_hash)) [
          | inl matches ↦
              absurd (nobody account (record { there = there; email = email; matches = matches }))
          | inr wrong ↦ rw (e, wrong, run)
        ]
  ]

  -- With the database up and no email address used twice, the right credentials give a bearer token
  -- that was signed for exactly this account: its id, its email address and its role.
  pub login_accepted :
      (dto : LoginDto) (s : S) (account : User) (token : String)
      → users.is_up s ≡ true
      → IsUnique users s
      → Authentic s dto account
      → jwt.sign_async
          (record { sub = account.id; email = account.columns.email; role = account.columns.role })
          s
        ≡ fulfilled token
      → run (login nest users bcrypt jwt config dto) s ≡ (
        fulfilled (record {
          access_token = token;
          token_type = "Bearer";
          expires_in = config.jwt_expires_in;
        }),
        s,
      )
  unfolding login password_matches
  login_accepted dto s account token up unique it signed = elim (find_account dto.email s up) [
    | inr (e, none_fits) ↦
        let fails = none_fits account.id account it.there in
        cc (fails, (eq_iff account.columns.email dto.email).1 it.email)
    | inl (found, e, there, email) ↦
        let same_id : found.id ≡ account.id =
          unique found.id account.id found account there it.there
            (same_email_lem found.columns account.columns (email ∙ sym it.email)) in
        let there' : users.row s account.id ≡ some found =
          subst (λ j. users.row s j ≡ some found) same_id there in
        let same : found ≡ account = let known = it.there in cc in
        let e' : users.find_one_by (has_email dto.email) s ≡ fulfilled (some account) =
          rw (← same) e in
        let matches = it.matches in rw (e', matches, signed, run)
  ]
