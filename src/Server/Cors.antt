-- ===== src/Server/Cors.antt =====
-- What surrounds the endpoints of backend/server.go: `enableCORS`, and the answer of `healthHandler`.
-- The handler that follows is an argument, as its answer.
use chatster.Prelude.{
  Bool, List, Option, if◌then◌else◌, is_nil, none, not, some, ℕ, ◌==◌, nat_eq, list_eq,
}
use chatster.Text.{Text, codes}
use chatster.Server.{Refusal, Request, origin_allowed}
use chatster.Server.Sessions.{origin_forbidden}

-- The headers that `enableCORS` sets. The origin is echoed with the leave to send credentials.
pub record CorsHeaders : Type 0 where
  pub allow_origin : Option Text
  pub allow_credentials : Bool
  pub vary : Option Text
  pub allow_methods : Text
  pub allow_headers : Text

-- How the middleware answers: it refuses the origin, it answers a preflight itself, or it passes the
-- request on, with its headers unless the request is for a socket.
pub data CorsAnswer {ℓ} (A : Type ℓ) : Type ℓ where
  refused_origin : Refusal → CorsAnswer A
  preflight : CorsHeaders → CorsAnswer A
  passed : Option CorsHeaders → A → CorsAnswer A

abbrev pub socket_path : Text
socket_path = codes "/ws"

unfoldable pub cors_headers : Text → CorsHeaders
cors_headers origin = record {
  allow_origin = if is_nil origin then none else some origin;
  allow_credentials = not (is_nil origin);
  vary = if is_nil origin then none else some (codes "Origin");
  allow_methods = codes "GET, POST, DELETE, OPTIONS";
  allow_headers = codes "Content-Type, Authorization";
}

-- What follows the check of the origin.
unfoldable pub with_headers {ℓ} : {A : Type ℓ} → Request → A → CorsAnswer A
with_headers r next =
    if r.method == codes "OPTIONS"
    then preflight (cors_headers r.origin)
    else passed (some (cors_headers r.origin)) next

unfoldable pub enable_cors {ℓ} : {A : Type ℓ} → List Text → Text → Request → A → CorsAnswer A
enable_cors allowed path r next =
    if path == socket_path
    then passed none next
    else if is_nil r.origin
    then with_headers r next
    else if not (origin_allowed allowed r.origin)
    then refused_origin origin_forbidden
    else with_headers r next

-- The status of the answer, and what it says of the service and of the database.
unfoldable pub health : Bool → ℕ × Text × Text
health db_ok =
    if db_ok then (200, codes "ok", codes "ok") else (503, codes "degraded", codes "error")
