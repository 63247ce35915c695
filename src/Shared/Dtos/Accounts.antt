-- ===== src/Shared/Dtos/Accounts.antt =====
-- libs/shared/src/dtos/auth: payloads and responses of the auth service.
use Prim.Native.String.{count}
use cinema_microservices.Prelude.{◌<◌, ◌≤◌, String, ℕ}
use cinema_microservices.Shared.Role.{Role}

pub record RegisterDto : Type 0 where
  pub email : String
  pub password : String
  pub confirm_password : String

-- Of the decorators of `RegisterDto`, the limits on lengths.
pub record IsRegisterDto (dto : RegisterDto) : Type 0 where
  pub email_length : count dto.email ≤ 255
  pub password_min : 8 ≤ count dto.password
  pub password_max : count dto.password ≤ 72
  pub confirm_given : 0 < count dto.confirm_password

pub record LoginDto : Type 0 where
  pub email : String
  pub password : String

pub record PublicUser : Type 0 where
  pub id : ℕ
  pub email : String
  pub role : Role
  pub created_at : ℕ

pub record AccessToken : Type 0 where
  pub access_token : String
  pub token_type : String
  pub expires_in : String
