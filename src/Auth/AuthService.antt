-- ===== src/Auth/AuthService.antt =====
-- apps/auth-service/src/auth.service.ts
pub mod Login
pub mod Registration
pub mod Admin
use cinema_microservices.Runtime.Async.{
  ◌>>=◌, ◌>>◌, Async, read, return, throw_if, call, or_throw, fulfilled,
}
use cinema_microservices.Prelude.{
  if◌then◌else◌, ◌===◌, ◌==◌, ◌||◌, Option, String, ℕ, Bool, some, none, false, not,
}
use cinema_microservices.Auth.User.{User, Users}
use cinema_microservices.Runtime.Exceptions.{Nest, Thrown, http_exception}
use cinema_microservices.Shared.Dtos.Accounts.{PublicUser, LoginDto, RegisterDto, AccessToken}
use cinema_microservices.Shared.Role.{Role, JwtPayload}
use cinema_microservices.Auth.Credentials.{Bcrypt, JwtService}

abbrev pub bcrypt_salt_rounds : ℕ
bcrypt_salt_rounds = 12

-- The variables that the service reads from its configuration.
pub record AuthConfig : Type 0 where
  pub jwt_expires_in : String
  pub admin_email : Option String
  pub admin_password : Option String

-- `toPublicUser`: everything but the hash.
abbrev pub to_public_user : User → PublicUser
to_public_user account = record {
  id = account.id;
  email = account.columns.email;
  role = account.columns.role;
  created_at = account.created_at;
}

abbrev pub payload_of : User → JwtPayload
payload_of account = record {
  sub = account.id;
  email = account.columns.email;
  role = account.columns.role;
}

abbrev pub has_email : String → User → Bool
has_email email account = account.columns.email === email

-- `if (!email || !password) return;`: none where one is missing or empty.
abbrev pub given_both : Option String → Option String → Option (String × String)
given_both none password = none
given_both (some email) none = none
given_both (some email) (some password) =
    if email === "" || password === "" then none else some (email, password)

module _ (nest : Nest) where
  unfoldable pub passwords_differ : Thrown
  passwords_differ = http_exception (nest.bad_request "Passwords do not match")

  unfoldable pub email_registered : Thrown
  email_registered = http_exception (nest.conflict "Email is already registered")

  unfoldable pub invalid_credentials : Thrown
  invalid_credentials = http_exception (nest.unauthorized "Invalid email or password")

  unfoldable pub user_not_found : Thrown
  user_not_found = http_exception (nest.not_found "User not found")

module _ (nest : Nest) {S : Type 0} (users : Users S) (bcrypt : Bcrypt S) (jwt : JwtService S)
    (config : AuthConfig) where
  unfoldable pub create_user : String → String → Role → Async S PublicUser
  create_user email password role = do
    password_hash ← read (bcrypt.hash password bcrypt_salt_rounds)
    account ←
        call (users.insert (record { email = email; password_hash = password_hash; role = role }))
    return (to_public_user account)

  unfoldable pub register : RegisterDto → Async S PublicUser
  unfolding create_user
  register dto = do
    throw_if (not (dto.password === dto.confirm_password)) (passwords_differ nest)
    exists ← read (users.exists_by (has_email dto.email))
    throw_if exists (email_registered nest)
    create_user dto.email dto.password Role.user

  -- `user !== null && (await bcrypt.compare(...))`
  unfoldable pub password_matches : Option User → String → Async S Bool
  password_matches none password = return false
  password_matches (some account) password =
      read (λ s. fulfilled (bcrypt.compare password account.columns.password_hash))

  -- The query names the column `passwordHash`, which is `select: false`: a row that was found has it.
  unfoldable pub login : LoginDto → Async S AccessToken
  unfolding password_matches
  login dto = do
    found ← read (users.find_one_by (has_email dto.email))
    matches ← password_matches found dto.password
    throw_if (not matches) (invalid_credentials nest)
    account ← or_throw found (invalid_credentials nest)
    access_token ← read (jwt.sign_async (payload_of account))
    return (record {
      access_token = access_token;
      token_type = "Bearer";
      expires_in = config.jwt_expires_in;
    })

  unfoldable pub get_profile : ℕ → Async S PublicUser
  get_profile user_id = do
    found ← read (users.find_one_by (λ o. o.id == user_id))
    account ← or_throw found (user_not_found nest)
    return (to_public_user account)

  -- With `normalize` for `trim().toLowerCase()`.
  unfoldable pub ensure_account : (String → String) → Option (String × String) → Async S (Unit {0})
  unfolding create_user
  ensure_account normalize none = return tt
  ensure_account normalize (some (email, password)) = do
    exists ← read (users.exists_by (has_email (normalize email)))
    if exists
        then return tt
        else (create_user (normalize email) password Role.admin >>= λ created. return tt)

  unfoldable pub ensure_admin_account : (String → String) → Async S (Unit {0})
  unfolding ensure_account
  ensure_admin_account normalize =
      ensure_account normalize (given_both config.admin_email config.admin_password)
