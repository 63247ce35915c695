-- ===== src/Auth/AuthController/Accounts.antt =====
-- What concurrent requests may do to the accounts.
use cinema_microservices.Auth.AuthService
use cinema_microservices.Auth.AuthController.{Request, handle, serve}
use cinema_microservices.Shared.Role.{Role}
use cinema_microservices.Prelude.{
  [], refl, ◌==◌, ◌∙◌, ◌∷◌, ◌≡◌, ◌⊎◌, List, String, ℕ, All, Bool-cases, map, some, arith, inr, inl,
  sym, subst, ==_iff, ap, Option, false, none,
}
use cinema_microservices.Runtime.Exceptions.{Nest}
use cinema_microservices.Auth.User.{Users, accept_user, User, UserColumns, same_email_symm}
use cinema_microservices.Auth.Credentials.{Bcrypt, JwtService}
use cinema_microservices.Auth.AuthService.{AuthConfig}
use cinema_microservices.Runtime.Async.Interleaving.{
  Keeps, interleave, keeps_rules, Keeps-catch, interleave-Keeps, Keeps-throw, Keeps-return,
  Keeps-read,
}
use cinema_microservices.Runtime.Repository.Unique.{IsUnique, insert-IsUnique}
use cinema_microservices.Runtime.Repository.{stores}
use cinema_microservices.Runtime.Async.{fulfilled}

module _ (nest : Nest) {S : Type 0} (users : Users S) (bcrypt : Bcrypt S) (jwt : JwtService S)
    (config : AuthConfig) where
  password_matches-Keeps :
      {P : S → Type 0} (account : Option User) (password : String)
      → Keeps P (AuthService.password_matches nest users bcrypt jwt config account password)
  unfolding AuthService.password_matches
  password_matches-Keeps none password = Keeps-return false
  password_matches-Keeps (some account) password =
      Keeps-read (λ s. fulfilled (bcrypt.compare password account.columns.password_hash))

  -- From the state `first` to the state `s` accounts were only added, and only those of regular
  -- users.
  pub record Grown (first s : S) : Type 0 where
    pub kept : (j : ℕ) (o : User) → users.row first j ≡ some o → users.row s j ≡ some o
    pub added :
        (j : ℕ) (o : User)
        → users.row s j ≡ some o
        → (users.row first j ≡ some o) ⊎ (o.columns.role ≡ Role.user)

  accept_user-role :
      (d c : UserColumns) → accept_user d ≡ stores c → d.role ≡ Role.user → c.role ≡ Role.user
  unfolding accept_user
  accept_user-role d c h r = ground arith

  insert-Grown :
      (first : S) (email password_hash : String) (s : S)
      → Grown first s
      → Grown first
          (users.insert
            (record { email = email; password_hash = password_hash; role = Role.user })
            s).1
  insert-Grown first email password_hash s g =
      let d : UserColumns = record {
        email = email;
        password_hash = password_hash;
        role = Role.user;
      } in
      elim (Bool-cases (users.is_up s)) [
        | inr down ↦
            let same = (users.insert_down d s down).unchanged.0 in
            record {
              kept = λ j o h. same j ∙ g.kept j o h;
              added = λ j o h. g.added j o (sym (same j) ∙ h);
            }
        | inl up ↦ elim (users.insert_up d s up) [
          | inr refused ↦
              let same = refused.unchanged.0 in
              record {
                kept = λ j o h. same j ∙ g.kept j o h;
                added = λ j o h. g.added j o (sym (same j) ∙ h);
              }
          | inl stored ↦
              let role = accept_user-role d stored.new.columns stored.accepted refl in
              record {
                kept = λ j o h.
                    let w = stored.writes.0 j in
                    let now = g.kept j o h in
                    let fresh = stored.fresh in
                    elim (Bool-cases (j == stored.new.id)) [
                      | inl same ↦
                          let taken : users.row s stored.new.id ≡ some o =
                            subst (λ k. users.row s k ≡ some o) ((==_iff j stored.new.id).0 same)
                              now in
                          cc
                      | inr other ↦ ground arith
                    ];
                added = λ j o h.
                    let w = stored.writes.0 j in
                    elim (Bool-cases (j == stored.new.id)) [
                      | inl same ↦
                          let it : stored.new ≡ o = ground arith in
                          inr (ap (λ (x : User). x.columns.role) (sym it) ∙ role)
                      | inr other ↦ g.added j o (ground arith)
                    ];
              }
        ]
      ]

  handle-Grown :
      (first : S) (request : Request)
      → Keeps (Grown first) (handle nest users bcrypt jwt config request)
  unfolding handle AuthService.register AuthService.login AuthService.get_profile
      AuthService.create_user
  handle-Grown first (Request.register dto) = search (keeps_rules, insert-Grown) depth 12
  handle-Grown first (Request.login dto) = search (keeps_rules, password_matches-Keeps) depth 12
  handle-Grown first (Request.get_profile user_id) = search keeps_rules

  serve-Grown :
      (first : S) (requests : List Request)
      → All (Keeps (Grown first)) (map (serve nest users bcrypt jwt config) requests)
  unfolding serve
  serve-Grown first [] = tt
  serve-Grown first (r ∷ rs) =
      (Keeps-catch _ _ (handle-Grown first r) (λ e. Keeps-throw _), serve-Grown first rs)

  -- Whatever requests run at the same time: every account that there was before is still there and
  -- unchanged, and every new one is that of a regular user. No request makes an admin.
  pub interleave-Grown :
      (requests : List Request) (schedule : List ℕ) (s : S)
      → Grown s (interleave schedule (map (serve nest users bcrypt jwt config) requests) s).1
  interleave-Grown requests schedule s =
      interleave-Keeps (Grown s) schedule (map (serve nest users bcrypt jwt config) requests) s
        (serve-Grown s requests) (record { kept = λ j o h. h; added = λ j o h. inl h })

  -- No two accounts have the same email address.
  unfoldable pub UniqueEmails : S → Type 0
  UniqueEmails s = IsUnique users s

  pub insert-UniqueEmails :
      (email password_hash : String) (role : Role) (s : S)
      → UniqueEmails s
      → UniqueEmails
          (users.insert (record { email = email; password_hash = password_hash; role = role }) s).1
  unfolding UniqueEmails
  insert-UniqueEmails email password_hash role s u =
      insert-IsUnique users same_email_symm
        (record { email = email; password_hash = password_hash; role = role }) s u

  handle-UniqueEmails :
      (request : Request) → Keeps UniqueEmails (handle nest users bcrypt jwt config request)
  unfolding handle AuthService.register AuthService.login AuthService.get_profile
      AuthService.create_user
  handle-UniqueEmails (Request.register dto) = search (keeps_rules, insert-UniqueEmails) depth 12
  handle-UniqueEmails (Request.login dto) = search (keeps_rules, password_matches-Keeps) depth 12
  handle-UniqueEmails (Request.get_profile user_id) = search keeps_rules

  serve-UniqueEmails :
      (requests : List Request)
      → All (Keeps UniqueEmails) (map (serve nest users bcrypt jwt config) requests)
  unfolding serve
  serve-UniqueEmails [] = tt
  serve-UniqueEmails (r ∷ rs) =
      (Keeps-catch _ _ (handle-UniqueEmails r) (λ e. Keeps-throw _), serve-UniqueEmails rs)

  -- Whatever requests run at the same time, no email address is ever used by two accounts.
  pub interleave-UniqueEmails :
      (requests : List Request) (schedule : List ℕ) (s : S)
      → UniqueEmails s
      → UniqueEmails (interleave schedule (map (serve nest users bcrypt jwt config) requests) s).1
  interleave-UniqueEmails requests schedule s u =
      interleave-Keeps UniqueEmails schedule (map (serve nest users bcrypt jwt config) requests) s
        (serve-UniqueEmails requests) u
