-- ===== src/Auth/AuthController.antt =====
-- apps/auth-service/src/auth.controller.ts: one handler for each message pattern, behind the
-- exception filter that `configureMicroservice` installs.
pub mod Accounts
pub mod RoundTrip
use cinema_microservices.Auth.AuthService
use cinema_microservices.Runtime.Async.{◌>>=◌, return, Async}
use cinema_microservices.Runtime.Exceptions.{Nest}
use cinema_microservices.Shared.Dtos.Accounts.{PublicUser, RegisterDto, AccessToken, LoginDto}
use cinema_microservices.Auth.User.{Users}
use cinema_microservices.Auth.Credentials.{Bcrypt, JwtService}
use cinema_microservices.Prelude.{ℕ}
use cinema_microservices.Auth.AuthService.{AuthConfig}
use cinema_microservices.Shared.RpcError.{with_filter}

pub data Request : Type 0 where
  register : RegisterDto → Request
  login : LoginDto → Request
  get_profile : ℕ → Request

pub data Reply : Type 0 where
  profile : PublicUser → Reply
  token : AccessToken → Reply

module _ (nest : Nest) {S : Type 0} (users : Users S) (bcrypt : Bcrypt S) (jwt : JwtService S)
    (config : AuthConfig) where
  unfoldable pub handle : Request → Async S Reply
  handle (register dto) = do
    user ← AuthService.register nest users bcrypt jwt config dto
    return (profile user)
  handle (login dto) = do
    access ← AuthService.login nest users bcrypt jwt config dto
    return (token access)
  handle (get_profile user_id) = do
    user ← AuthService.get_profile nest users bcrypt jwt config user_id
    return (profile user)

  unfoldable pub serve : Request → Async S Reply
  unfolding handle with_filter
  serve request = with_filter (handle request)
