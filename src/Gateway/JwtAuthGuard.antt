-- ===== src/Gateway/JwtAuthGuard.antt =====
-- apps/api-gateway/src/auth/jwt-auth.guard.ts and roles.guard.ts.
use cinema_microservices.Prelude.{
  [], if◌then◌else◌, ◌===◌, ◌==◌, ◌||◌, ◌∷◌, List, Option, String, Bool, false, some, none, not,
}
use cinema_microservices.Runtime.Exceptions.{Nest, http_exception}
use cinema_microservices.Runtime.Value.{Value, Number, number, object, string, property}
use cinema_microservices.Runtime.Async.{
  Async, Settled, return, ◌>>=◌, or_throw, throw, catch, throw_if, read,
}
use cinema_microservices.Shared.Role.{AuthUser, Role, role_eq}
use cinema_microservices.Gateway.Bearer.{extract_bearer_token}

-- `verifyAsync` of @nestjs/jwt: the payload of a valid token; it reads the clock.
pub record TokenVerifier (S : Type 0) : Type 0 where
  pub verify_async : String → S → Settled Value

-- `Number.isInteger(value)`
abbrev pub integer_of : Value → Option Number
integer_of (number n) = if n.scale == 0 then some n else none
integer_of v = none

-- `Object.values(Role).includes(value)`
abbrev pub role_of : Value → Option Role
role_of (string s) =
    if s === "USER" then some Role.user else if s === "ADMIN" then some Role.admin else none
role_of v = none

abbrev pub user_of : Option Number → Value → Option Role → Option AuthUser
user_of (some id) email (some role) = some (record { id = id; email = email; role = role })
user_of id email role = none

-- The checks on a payload, and the user that is attached to the request.
unfoldable pub auth_user : Value → Option AuthUser
auth_user (object fs) =
    user_of (integer_of (property "sub" fs)) (property "email" fs) (role_of (property "role" fs))
auth_user v = none

module _ (nest : Nest) {S : Type 0} (jwt : TokenVerifier S) where
  -- `JwtAuthGuard.canActivate`
  unfoldable pub authenticate : Option String → Async S AuthUser
  authenticate header = do
    token ←
        or_throw (extract_bearer_token header)
          (http_exception (nest.unauthorized "Missing bearer token"))
    payload ←
        catch (read (jwt.verify_async token))
          (λ e. throw (http_exception (nest.unauthorized "Invalid or expired token")))
    or_throw (auth_user payload) (http_exception (nest.unauthorized "Invalid token payload"))

-- `requiredRoles.includes(role)`
abbrev pub includes_role : List Role → Role → Bool
includes_role [] role = false
includes_role (r ∷ rs) role = role_eq r role || includes_role rs role

-- `RolesGuard.canActivate`
unfoldable pub require_roles :
    {S : Type 0} → Nest → List Role → Option AuthUser → Async S (Unit {0})
require_roles nest [] user = return tt
require_roles nest (r ∷ rs) none = throw (http_exception nest.unauthorized_default)
require_roles nest (r ∷ rs) (some user) =
    throw_if (not (includes_role (r ∷ rs) user.role))
      (http_exception (nest.forbidden "Insufficient permissions"))
