-- ===== src/Tests/AuthExamples.antt =====
-- The auth service on a table in memory.
use cinema_microservices.Auth.AuthController.{Request, serve}
use cinema_microservices.Auth.AuthService.{
  register, login, create_user, AuthConfig, ensure_admin_account, email_registered,
  invalid_credentials, passwords_differ,
}
use cinema_microservices.Auth.AuthService.Registration.{
  Taken, Added, register_mismatch, register_up,
}
use cinema_microservices.Shared.Role.{Role}
use cinema_microservices.Runtime.Memory.Operations.{exists_by, insert, write}
use cinema_microservices.Runtime.Memory.Search.{search_below}
use cinema_microservices.Auth.User.{accept_user}
use cinema_microservices.Auth.AuthService.Admin.{Ensured, ensure_admin_account_up}
use cinema_microservices.Prelude.{
  [], refl, ◌===◌, ◌∷◌, ◌≡◌, ◌⊎◌, String, arith, none, some, true, eq_iff, map, false,
}
use cinema_microservices.Auth.AuthController.Accounts.{
  Grown, UniqueEmails, interleave-Grown, interleave-UniqueEmails,
}
use cinema_microservices.Auth.Credentials.{Bcrypt, JwtService}
use cinema_microservices.Auth.User.{User, Users, UserColumns, users_table}
use cinema_microservices.Runtime.Async.{run, fulfilled, rejected}
use cinema_microservices.Runtime.Memory.Laws.{in_memory}
use cinema_microservices.Runtime.Memory.Search.{Memory, empty, put}
use cinema_microservices.Shared.Dtos.Accounts.{IsRegisterDto, PublicUser, RegisterDto}
use cinema_microservices.Auth.AuthService.Login.{Authentic, login_accepted, login_refused}
use cinema_microservices.Runtime.Exceptions.{documented}
use cinema_microservices.Runtime.Repository.Unique.{IsUnique}
use cinema_microservices.Runtime.Value.{template}
use cinema_microservices.Runtime.Async.Interleaving.{interleave}
use cinema_microservices.Auth.AuthController.RoundTrip.{register-login}
use cinema_microservices.Auth.AuthService.Admin.{
  ensure_admin_account_again, ensure_admin_account_unset,
}
use cinema_microservices.Tests.Codes.{users_table-PlainCodes}

unfoldable users : Users (Memory UserColumns)
users = in_memory users_table users_table-PlainCodes

-- A stand-in for bcrypt without a secret: the hash shows the password.
abbrev hash_of : String → String
hash_of password = template ("$2b$12$" ∷ password ∷ [])

fulfilled-injective : {A : Type 0} {a b : A} → fulfilled a ≡ fulfilled b → a ≡ b
fulfilled-injective e = ground arith

abbrev bcrypt : Bcrypt (Memory UserColumns)
bcrypt = record {
  hash = λ password rounds s. fulfilled (hash_of password);
  compare = λ password hashed. hash_of password === hashed;
  compare-hash = λ password hashed rounds s made.
      (eq_iff (hash_of password) hashed).1 (fulfilled-injective made);
}

abbrev jwt : JwtService (Memory UserColumns)
jwt = record { sign_async = λ payload s. fulfilled payload.email }

abbrev config : AuthConfig
config = record {
  jwt_expires_in = "1h";
  admin_email = some "root@cinema.io";
  admin_password = some "correct horse";
}

abbrev no_admin : AuthConfig
no_admin = record config { admin_password = none }

abbrev ann : RegisterDto
ann = record { email = "ann@x.io"; password = "password1"; confirm_password = "password1" }

ann-IsRegisterDto : IsRegisterDto ann
ann-IsRegisterDto = record {
  email_length = ground arith;
  password_min = ground arith;
  password_max = ground arith;
  confirm_given = ground arith;
}

empty_up : users.is_up empty ≡ true
unfolding users in_memory
empty_up = refl

empty-UniqueEmails : UniqueEmails documented users bcrypt jwt config empty
unfolding users in_memory UniqueEmails
empty-UniqueEmails i j a b ha hb same = ground arith

-- Two registrations of one address at the same time, and a log-in.
interleave-UniqueEmails_example :
    UniqueEmails documented users bcrypt jwt config
      (interleave
        (0 ∷ 1 ∷ 0 ∷ 1 ∷ 2 ∷ 0 ∷ 1 ∷ [])
        (map (serve documented users bcrypt jwt config) (
          Request.register ann
          ∷ Request.register ann
          ∷ Request.login (record { email = "ann@x.io"; password = "password1" })
          ∷ []))
        empty).1
interleave-UniqueEmails_example =
    interleave-UniqueEmails documented users bcrypt jwt config
      (Request.register ann
        ∷ Request.register ann
        ∷ Request.login (record { email = "ann@x.io"; password = "password1" })
        ∷ [])
      (0 ∷ 1 ∷ 0 ∷ 1 ∷ 2 ∷ 0 ∷ 1 ∷ []) empty empty-UniqueEmails

interleave-Grown_example :
    Grown documented users bcrypt jwt config empty
      (interleave
        (0 ∷ 1 ∷ 0 ∷ 1 ∷ 0 ∷ 1 ∷ [])
        (map
          (serve documented users bcrypt jwt config)
          (Request.register ann ∷ Request.register ann ∷ []))
        empty).1
interleave-Grown_example =
    interleave-Grown documented users bcrypt jwt config
      (Request.register ann ∷ Request.register ann ∷ []) (0 ∷ 1 ∷ 0 ∷ 1 ∷ 0 ∷ 1 ∷ []) empty

register_up_example :
    let out = run (register documented users bcrypt jwt config ann) empty in
    Added documented users bcrypt jwt config "ann@x.io" (hash_of "password1") Role.user empty out
    ⊎ (Taken documented users bcrypt jwt config empty "ann@x.io"
        × (out ≡ (rejected (email_registered documented), empty)))
register_up_example =
    register_up documented users bcrypt jwt config ann (hash_of "password1") empty empty_up
      ann-IsRegisterDto refl refl

abbrev mistyped : RegisterDto
mistyped = record ann { confirm_password = "password2" }

differ : ¬ (mistyped.password ≡ mistyped.confirm_password)
differ e =
    let equal = (eq_iff "password1" "password2").1 e in
    let unequal : ("password1" === "password2") ≡ false = refl in cc

register_mismatch_example :
    run (register documented users bcrypt jwt config mistyped) empty
    ≡ (rejected (passwords_differ documented), empty)
register_mismatch_example =
    register_mismatch documented users bcrypt jwt config mistyped empty differ

nobody :
    (account : User)
    → ¬ Authentic documented users bcrypt jwt config empty
        (record { email = "ann@x.io"; password = "password1" })
        account
unfolding users in_memory
nobody account it = let there = it.there in ground arith

login_refused_example :
    run
      (login documented users bcrypt jwt config
        (record { email = "ann@x.io"; password = "password1" }))
      empty
    ≡ (rejected (invalid_credentials documented), empty)
login_refused_example =
    login_refused documented users bcrypt jwt config
      (record { email = "ann@x.io"; password = "password1" }) empty empty_up nobody

abbrev account : User
account = record {
  id = 3;
  columns = record { email = "ann@x.io"; password_hash = hash_of "password1"; role = Role.user };
  created_at = 5;
  updated_at = 5;
}

abbrev with_account : Memory UserColumns
with_account =
    put empty 3 (some (record { columns = account.columns; created_at = 5; updated_at = 5 }))

with_account_up : users.is_up with_account ≡ true
unfolding users in_memory
with_account_up = refl

with_account-IsUnique : IsUnique users with_account
unfolding users in_memory
with_account-IsUnique i j a b ha hb same = ground arith

account-Authentic :
    Authentic documented users bcrypt jwt config with_account
      (record { email = "ann@x.io"; password = "password1" })
      account
unfolding users in_memory
account-Authentic = record {
  there = refl;
  email = refl;
  matches = (eq_iff (hash_of "password1") (hash_of "password1")).1 refl;
}

login_accepted_example :
    run
      (login documented users bcrypt jwt config
        (record { email = "ann@x.io"; password = "password1" }))
      with_account
    ≡ (
      fulfilled (record { access_token = "ann@x.io"; token_type = "Bearer"; expires_in = "1h" }),
      with_account,
    )
login_accepted_example =
    login_accepted documented users bcrypt jwt config
      (record { email = "ann@x.io"; password = "password1" }) with_account account "ann@x.io"
      with_account_up with_account-IsUnique account-Authentic refl

abbrev same_text : String → String
same_text s = s

ensure_admin_account_up_example :
    Ensured documented users bcrypt jwt config same_text "root@cinema.io"
      (hash_of "correct horse")
      empty
      (run (ensure_admin_account documented users bcrypt jwt config same_text) empty)
ensure_admin_account_up_example =
    ensure_admin_account_up documented users bcrypt jwt config same_text "root@cinema.io"
      "correct horse" (hash_of "correct horse") empty refl empty_up (ground arith) refl

ensure_admin_account_again_example :
    let s' = (run (ensure_admin_account documented users bcrypt jwt config same_text) empty).1 in
    run (ensure_admin_account documented users bcrypt jwt config same_text) s' ≡ (fulfilled tt, s')
ensure_admin_account_again_example =
    ensure_admin_account_again documented users bcrypt jwt config same_text "root@cinema.io"
      "correct horse" (hash_of "correct horse") empty refl empty_up (ground arith) refl

ensure_admin_account_unset_example :
    run (ensure_admin_account documented users bcrypt jwt no_admin same_text) empty
    ≡ (fulfilled tt, empty)
ensure_admin_account_unset_example =
    ensure_admin_account_unset documented users bcrypt jwt no_admin same_text empty refl

abbrev ann_public : PublicUser
ann_public = record { id = 0; email = "ann@x.io"; role = Role.user; created_at = 0 }

ann_registered :
    (run (register documented users bcrypt jwt config ann) empty).0 ≡ fulfilled ann_public
unfolding register create_user users in_memory exists_by insert search_below write accept_user
ann_registered = refl

register-login_example :
    let s' = (run (register documented users bcrypt jwt config ann) empty).1 in
    run
      (login documented users bcrypt jwt config
        (record { email = "ann@x.io"; password = "password1" }))
      s'
    ≡ (
      fulfilled (record { access_token = "ann@x.io"; token_type = "Bearer"; expires_in = "1h" }),
      s',
    )
register-login_example =
    register-login documented users bcrypt jwt config ann (hash_of "password1") "ann@x.io"
      ann_public empty empty_up empty-UniqueEmails ann-IsRegisterDto refl refl ann_registered refl
