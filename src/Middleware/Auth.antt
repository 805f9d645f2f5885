-- ===== src/Middleware/Auth.antt =====
-- internal/middleware/auth.go: `Auth`, which lets a request through with the user of its token.
use Prim.Native.String.{slice, len}
use text.Mathlib.Text.{starts_with}
use weave_server.Prelude.{
  String, Bool, true, false, not, ◌&&◌, ◌||◌, Option, none, some, List, [], ◌∷◌, str_eq, any,
  if◌then◌else◌,
}
use weave_server.Model.{Uuid}
use weave_server.Http.{Method, get, options, plain_error, respond, Outcome, answered, Site, Handler}
use weave_server.Provider.{Env}
use weave_server.Service.AuthService.{Auth, Claims}

-- The paths that setupMiddleware of internal/server/server.go names.
abbrev pub bypass_paths : List String
bypass_paths =
    "/health" ∷ "/api/v1/auth/register" ∷ "/api/v1/auth/login" ∷ "/api/v1/auth/token/refresh" ∷ []

abbrev pub reads : Method → Bool
reads get = true
reads options = true
reads _ = false

-- Is the request let through without a token?
unfoldable pub is_open : Method → String → Bool
is_open method path =
    any (λ p. str_eq p path) bypass_paths
    || reads method && (starts_with path "/health" || starts_with path "/api/v1/auth")

abbrev pub refuse : String → Site → Outcome × Site
refuse code s = (answered (respond 401 (plain_error code)), s)

-- From the token's claims on. The scope of the token is not looked at.
unfoldable pub as_user : Option Uuid → Handler → Handler
as_user none next r s = refuse "invalid_token_subject" s
as_user (some user) next r s = next (record r { user = some user }) s

unfoldable pub with_claims : Env → Option Claims → Handler → Handler
with_claims env none next r s = refuse "invalid_or_expired_token" s
with_claims env (some claims) next r s = as_user (env.uuid_parse claims.subject) next r s

-- `Auth`
unfoldable pub auth : Env → Auth → Handler → Handler
auth env tokens next r s =
    if is_open r.method r.path
    then next r s
    else if str_eq r.authorization ""
    then refuse "missing_authorization" s
    else if not (starts_with r.authorization "Bearer ")
    then refuse "invalid_auth_format" s
    else with_claims env
        (tokens.read_token s.world.now (slice r.authorization 7 (len r.authorization))) next r s
