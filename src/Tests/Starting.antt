-- ===== src/Tests/Starting.antt =====
-- A server that starts in session mode.
use chatster.Prelude.{
  [], contains, if◌then◌else◌, list_beq, ok, refl, some, ℕ, ◌∷◌, ◌≡◌, nat_eq, list_eq,
}
use chatster.Text.{codes}
use chatster.Auth.Service.{mode_of, mode_session}
use chatster.Auth.Service.Laws.{IsSessionService}
use chatster.Config
use chatster.Config.{from_env}
use chatster.Server.{Request, origin_allowed}
use chatster.Server.Sessions.{origin_forbidden}
use chatster.Server.Cors.{cors_headers, enable_cors, refused_origin, with_headers}
use chatster.Startup.{new_auth_service}
use chatster.Startup.Guarded.{enable_cors-Guarded}
use chatster.Tests.Codecs.{ascii, credential_json, plain}
use chatster.Tests.Store.{lobby}
use chatster.Tests.Requests.{request}
use chatster.Tests.Sessions.{config, service, service_built}
use chatster.Tests.Settings.{first_origin, hosted, whole_numbers}

abbrev settings : chatster.Config.Config ℕ
settings = record (from_env whole_numbers hosted) {
  auth_mode = config.mode;
  session_secret = config.session_secret;
  auth_users_json = config.credentials_json;
  session_ttl = config.session_ttl;
  session_cookie_secure = config.cookie_secure;
  allowed_origins = first_origin ∷ [];
}

abbrev foreign : Request
foreign = record request { origin = codes "https://b.example" }

service_started : new_auth_service settings ≡ ok service
unfolding mode_of list_beq new_auth_service
service_started = rw (new_auth_service, service_built) refl

in_session : mode_of (some service) ≡ mode_session
unfolding mode_of
in_session = refl

enable_cors-Guarded_example :
    IsSessionService service
    × ((cors_headers foreign.origin).allow_origin ≡ some foreign.origin)
    × (enable_cors settings.allowed_origins (codes "/messages") foreign lobby ≡ (
        if contains settings.allowed_origins foreign.origin
        then with_headers foreign lobby
        else refused_origin origin_forbidden))
enable_cors-Guarded_example =
    enable_cors-Guarded settings service (codes "/messages") foreign lobby service_started
      in_session (λ e. cc) (λ e. cc)

foreign_refused :
    enable_cors settings.allowed_origins (codes "/messages") foreign lobby
    ≡ refused_origin origin_forbidden
unfolding enable_cors origin_allowed contains list_beq
foreign_refused = refl
