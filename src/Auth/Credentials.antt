-- ===== src/Auth/Credentials.antt =====
-- The interfaces of two packages: bcrypt and @nestjs/jwt.
use cinema_microservices.Prelude.{◌≡◌, String, ℕ, Bool, true}
use cinema_microservices.Shared.Role.{JwtPayload}
use cinema_microservices.Runtime.Async.{Settled, fulfilled}

-- `hash` draws its salt, and `sign_async` reads the clock, so that both depend on the state.
pub record Bcrypt (S : Type 0) : Type 0 where
  pub hash : (password : String) (rounds : ℕ) → S → Settled String
  pub compare : (password hashed : String) → Bool
  -- A password matches every hash that was made of it.
  pub compare-hash :
      (password hashed : String) (rounds : ℕ) (s : S)
      → hash password rounds s ≡ fulfilled hashed
      → compare password hashed ≡ true

pub record JwtService (S : Type 0) : Type 0 where
  pub sign_async : JwtPayload → S → Settled String
