-- ===== src/Shared/Role.antt =====
-- libs/shared/src/auth/role.enum.ts: roles, the identity in a token and in a request.
use cinema_microservices.Prelude.{ℕ, String, Bool, true, false}
use cinema_microservices.Runtime.Value.{Number, Value}

pub data Role : Type 0 where
  user admin : Role

-- The text of the enum member.
abbrev pub role_name : Role → String
role_name user = "USER"
role_name admin = "ADMIN"

-- `===` between two roles.
abbrev pub role_eq : Role → Role → Bool
role_eq user user = true
role_eq admin admin = true
role_eq a b = false

-- The guard checks the id and the role of a token, so that the email address may be any value.
pub record AuthUser : Type 0 where
  pub id : Number
  pub email : Value
  pub role : Role

pub record JwtPayload : Type 0 where
  pub sub : ℕ
  pub email : String
  pub role : Role
