-- ===== src/Auth/Service.antt =====
-- The configuration of backend/internal/auth/session.go: `New`, `decodeCredentials` and `Mode`.
pub mod Laws
use chatster.Prelude.{
  Bool, List, Option, Result, [], err, if◌then◌else◌, is_nil, ltb, none, not, ok, or_fail,
  reject_if, some, ℕ, ◌*◌, ◌==◌, ◌>>=◌, ◌>>◌, ◌||◌, ◌∷◌, nat_eq, list_eq,
}
use chatster.Prelude.Int.{negsuc, pos, ℤ}
use chatster.Text.{Text, Unicode, byte_len, codes, has_blank, to_lower, trim_space}
use chatster.Codec.{Digest, Json}
use chatster.Auth.Principals.{
  ConfigError, Credential, PrincipalTemplate, bad_credentials, credentials_required,
  duplicate_token, no_credentials, normalize_principal, short_secret, token_blank, token_size,
  trailing_credentials, ttl_out_of_range, unsupported_mode,
}

abbrev pub mode_anonymous : Text
mode_anonymous = codes "anonymous"

abbrev pub mode_session : Text
mode_session = codes "session"

-- Durations in nanoseconds.
abbrev pub second : ℕ
second = 1000000000

abbrev pub default_session_ttl : ℕ
default_session_ttl = 3600 * second

abbrev pub min_session_ttl : ℕ
min_session_ttl = 60 * second

abbrev pub max_session_ttl : ℕ
max_session_ttl = 86400 * second

abbrev pub min_secret_bytes : ℕ
min_secret_bytes = 32

abbrev pub min_token_bytes : ℕ
min_token_bytes = 32

abbrev pub max_access_token_bytes : ℕ
max_access_token_bytes = 512

pub record Config : Type 0 where
  pub mode : Text
  pub session_secret : Text
  pub credentials_json : Text
  pub session_ttl : ℤ
  pub cookie_secure : Bool

-- The credentials are a map from token hashes.
pub record Service : Type 0 where
  pub mode : Text
  pub secret : Text
  pub credentials : List (Text × PrincipalTemplate)
  pub ttl : ℕ
  pub cookie_secure : Bool

abbrev pub session_service : Config → ℕ → List (Text × PrincipalTemplate) → Service
session_service cfg ttl credentials = record {
  mode = mode_session;
  secret = cfg.session_secret;
  credentials = credentials;
  ttl = ttl;
  cookie_secure = cfg.cookie_secure;
}

unfoldable pub session_ttl : ℤ → Option ℕ
session_ttl (negsuc n) = none
session_ttl (pos n) =
    let ttl = if n == 0 then default_session_ttl else n in
    if ltb ttl min_session_ttl || ltb max_session_ttl ttl then none else some ttl

unfoldable pub find_credential : Text → List (Text × PrincipalTemplate) → Option PrincipalTemplate
find_credential hash [] = none
find_credential hash ((h, t) ∷ rest) = if h == hash then some t else find_credential hash rest

-- `s.Mode()`, on a pointer that may be nil
unfoldable pub mode_of : Option Service → Text
mode_of none = mode_anonymous
mode_of (some s) = if is_nil s.mode then mode_anonymous else s.mode

module _ ⦃c : Json (List Credential)⦄ where
  unfoldable pub decode_credentials : Text → Result ConfigError (List Credential)
  decode_credentials raw = do
    reject_if (is_nil (trim_space raw)) credentials_required
    (credentials, rest) ← or_fail (c.decode raw) bad_credentials
    reject_if (not (c.at_eof rest)) trailing_credentials
    reject_if (is_nil credentials) no_credentials
    ok credentials

module _ ⦃u : Unicode⦄ ⦃g : Digest⦄ where
  -- One round of the loop over the credentials.
  unfoldable pub add_credential :
      Credential
      → List (Text × PrincipalTemplate)
      → Result ConfigError (List (Text × PrincipalTemplate))
  add_credential configured known = do
    let token = configured.token
    reject_if (ltb (byte_len token) min_token_bytes || ltb max_access_token_bytes (byte_len token))
        token_size
    reject_if (not (trim_space token == token) || has_blank token) token_blank
    template ← normalize_principal configured.user_id configured.display_name configured.rooms
    let hash = g.sum256 token
    elim (find_credential hash known) [
      | some t ↦ err duplicate_token
      | none ↦ ok ((hash, template) ∷ known)
    ]

  unfoldable pub add_credentials :
      List Credential
      → List (Text × PrincipalTemplate)
      → Result ConfigError (List (Text × PrincipalTemplate))
  add_credentials [] known = ok known
  add_credentials (configured ∷ rest) known = do
    known' ← add_credential configured known
    add_credentials rest known'

module _ ⦃u : Unicode⦄ ⦃g : Digest⦄ ⦃c : Json (List Credential)⦄ where
  new_session : Config → Result ConfigError Service
  new_session cfg = do
    reject_if (ltb (byte_len cfg.session_secret) min_secret_bytes) short_secret
    ttl ← or_fail (session_ttl cfg.session_ttl) ttl_out_of_range
    configured ← decode_credentials cfg.credentials_json
    credentials ← add_credentials configured []
    ok (session_service cfg ttl credentials)

  unfoldable pub new : Config → Result ConfigError Service
  unfolding new_session
  new cfg =
      let lowered = to_lower (trim_space cfg.mode) in
      let mode = if is_nil lowered then mode_anonymous else lowered in
      if mode == mode_anonymous
      then ok (record {
        mode = mode;
        secret = [];
        credentials = [];
        ttl = 0;
        cookie_secure = cfg.cookie_secure;
      })
      else if mode == mode_session
      then new_session cfg
      else err unsupported_mode
