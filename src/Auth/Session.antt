-- ===== src/Auth/Session.antt =====
-- Sessions of backend/internal/auth/session.go: exchanging a token for a signed cookie, checking
-- the cookie of a request, and the room grant. The clock is an argument; the Unix epoch is the
-- number of seconds from year 1 to 1970, and clocks before it are read as the epoch.
pub mod Laws
pub mod Signed
pub mod RoundTrip
pub mod Grants
use chatster.Prelude.{
  Bool, List, Option, Result, [], contains, err, false, if◌then◌else◌, is_nil, leb, ltb, none, not,
  ok, or_fail, reject_if, some, true, ℕ, ◌*◌, ◌++◌, ◌+◌, ◌-◌, ◌/◌, ◌==◌, ◌>>=◌, ◌>>◌, ◌||◌, ◌∷◌,
  nat_eq, list_eq,
}
use chatster.Prelude.Int.{negsuc, pos, ℤ}
use chatster.Text.{Text, Unicode, byte_len, codes, cut, has_blank, hex_encode}
use chatster.Codec.{Base64, Digest, Json}
use chatster.Db.Room.{normalize_room}
use chatster.Db.Rows.{Time}
use chatster.Auth.Principals.{
  AuthError, Principal, PrincipalTemplate, anonymous_principal, auth_disabled, cookie_too_large,
  encode_failed, expired_session, invalid_session, invalid_token, normalize_principal, room_denied,
  session_id_failed, session_required, valid_opaque_id,
}
use chatster.Auth.Service.{
  Service, find_credential, max_access_token_bytes, min_token_bytes, mode_anonymous, mode_of,
  mode_session, second,
}

abbrev pub unix_epoch : ℕ
unix_epoch = 62135596800

-- `time.Unix(sec, 0)` and `t.Unix()`
abbrev pub from_unix : ℕ → Time
from_unix sec = (unix_epoch + sec) * second

abbrev pub to_unix : Time → ℕ
to_unix t = t / second - unix_epoch

abbrev pub cookie_name : Text
cookie_name = codes "chatster_session"

abbrev pub max_cookie_bytes : ℕ
max_cookie_bytes = 4096

pub record SessionPayload : Type 0 where
  pub version : ℕ
  pub session_id : Text
  pub subject : Text
  pub display_name : Text
  pub rooms : List Text
  pub issued_at : ℕ
  pub expires_at : ℕ

pub record Cookie : Type 0 where
  pub name : Text
  pub value : Text
  pub path : Text
  pub expires : Time
  pub max_age : ℤ
  pub http_only : Bool
  pub secure : Bool
  pub same_site_strict : Bool

-- The result of `r.Cookie(CookieName)`.
pub data CookieLookup : Type 0 where
  no_cookie unreadable_cookie : CookieLookup
  cookie_value : Text → CookieLookup

-- `none` is a failure of the random source.
unfoldable pub new_session_id : Option (List ℕ) → Result AuthError Text
new_session_id none = err session_id_failed
new_session_id (some raw) = ok (codes "sid_" ++ hex_encode raw)

unfoldable pub expired_cookie : Option Service → Cookie
expired_cookie s = record {
  name = cookie_name;
  value = [];
  path = codes "/";
  expires = from_unix 1;
  max_age = negsuc 0;
  http_only = true;
  secure = elim s [ none ↦ false | some x ↦ x.cookie_secure ];
  same_site_strict = true;
}

-- The tests that `Authenticate` makes on a payload, in its order.
abbrev pub has_bad_form : SessionPayload → Bool
has_bad_form payload =
    not (payload.version == 1) || not (valid_opaque_id payload.session_id (codes "sid_"))

abbrev pub is_expired : SessionPayload → Time → Bool
is_expired payload now = leb (from_unix payload.expires_at) now

abbrev pub has_bad_times : SessionPayload → Time → Bool
has_bad_times payload now =
    payload.issued_at == 0
    || leb (from_unix payload.expires_at) (from_unix payload.issued_at)
    || ltb (now + 60 * second) (from_unix payload.issued_at)

abbrev pub lives_too_long : Service → SessionPayload → Bool
lives_too_long s payload =
    ltb (s.ttl + second) (from_unix payload.expires_at - from_unix payload.issued_at)

abbrev pub session_principal : SessionPayload → PrincipalTemplate → Principal
session_principal payload template = record {
  user_id = template.user_id;
  display_name = template.display_name;
  rooms = template.rooms;
  anonymous = false;
  session_id = payload.session_id;
  expires_at = from_unix payload.expires_at;
}

module _ ⦃j : Json SessionPayload⦄ ⦃b : Base64⦄ ⦃g : Digest⦄ where
  unfoldable pub encode : Text → SessionPayload → Result AuthError Text
  encode secret payload = do
    raw ← or_fail (j.marshal payload) encode_failed
    let encoded = b.encode raw
    let signature = b.encode (g.mac secret encoded)
    let value = encoded ++ b'.' ∷ signature
    reject_if (ltb max_cookie_bytes (byte_len value)) cookie_too_large
    ok value

  unfoldable pub decode : Text → Text → Result AuthError SessionPayload
  decode secret value = do
    (encoded, signature) ← or_fail (cut b'.' value) invalid_session
    reject_if (is_nil encoded || is_nil signature || contains signature b'.') invalid_session
    provided ← or_fail (b.decode signature) invalid_session
    reject_if (not (provided == g.mac secret encoded)) invalid_session
    raw ← or_fail (b.decode encoded) invalid_session
    (payload, rest) ← or_fail (j.decode raw) invalid_session
    reject_if (not (j.at_eof rest)) invalid_session
    ok payload

  -- The signed session of an identity.
  abbrev pub issue : Service → PrincipalTemplate → Text → Time → SessionPayload
  issue s template session_id now =
      let issued = now / second * second in
      record {
        version = 1;
        session_id = session_id;
        subject = template.user_id;
        display_name = template.display_name;
        rooms = template.rooms;
        issued_at = to_unix issued;
        expires_at = to_unix (issued + s.ttl);
      }

  -- The principal and the cookie of a successful exchange.
  abbrev pub exchanged : Service → PrincipalTemplate → Text → Time → Text → Principal × Cookie
  exchanged s template session_id now value = (
    record {
      user_id = template.user_id;
      display_name = template.display_name;
      rooms = template.rooms;
      anonymous = false;
      session_id = session_id;
      expires_at = now / second * second + s.ttl;
    },
    record {
      name = cookie_name;
      value = value;
      path = codes "/";
      expires = now / second * second + s.ttl;
      max_age = pos (s.ttl / second);
      http_only = true;
      secure = s.cookie_secure;
      same_site_strict = true;
    },
  )

  exchange_session : Service → Text → Option (List ℕ) → Time → Result AuthError (Principal × Cookie)
  exchange_session s token random now = do
    reject_if
        (ltb (byte_len token) min_token_bytes
          || ltb max_access_token_bytes (byte_len token)
          || has_blank token)
        invalid_token
    template ← or_fail (find_credential (g.sum256 token) s.credentials) invalid_token
    session_id ← new_session_id random
    value ← encode s.secret (issue s template session_id now)
    ok (exchanged s template session_id now value)

  unfoldable pub exchange :
      Option Service → Text → Option (List ℕ) → Time → Result AuthError (Principal × Cookie)
  unfolding exchange_session
  exchange none token random now = err auth_disabled
  exchange (some s) token random now =
      if not (mode_of (some s) == mode_session)
      then err auth_disabled
      else exchange_session s token random now

module _ ⦃u : Unicode⦄ ⦃j : Json SessionPayload⦄ ⦃b : Base64⦄ ⦃g : Digest⦄ where
  session_identity : SessionPayload → Result AuthError PrincipalTemplate
  session_identity payload =
      elim (normalize_principal payload.subject payload.display_name payload.rooms) [
        | ok t ↦ ok t
        | err e ↦ err invalid_session
      ]

  -- The checks on a payload whose signature holds.
  check_payload : Service → SessionPayload → Time → Result AuthError Principal
  unfolding session_identity
  check_payload s payload now = do
    template ← session_identity payload
    reject_if (has_bad_form payload) invalid_session
    reject_if (is_expired payload now) expired_session
    reject_if (has_bad_times payload now) invalid_session
    reject_if (lives_too_long s payload) invalid_session
    ok (session_principal payload template)

  authenticate_session : Service → CookieLookup → Time → Result AuthError Principal
  unfolding check_payload
  authenticate_session s no_cookie now = err session_required
  authenticate_session s unreadable_cookie now = err invalid_session
  authenticate_session s (cookie_value value) now = do
    reject_if (is_nil value || ltb max_cookie_bytes (byte_len value)) invalid_session
    payload ← decode s.secret value
    check_payload s payload now

  unfoldable pub authenticate : Option Service → CookieLookup → Time → Result AuthError Principal
  unfolding authenticate_session
  authenticate none lookup now = ok anonymous_principal
  authenticate (some s) lookup now =
      if mode_of (some s) == mode_anonymous
      then ok anonymous_principal
      else authenticate_session s lookup now

  unfoldable pub authorize :
      Option Service → CookieLookup → Time → Text → Result AuthError Principal
  authorize s lookup now room = do
    principal ← authenticate s lookup now
    elim (normalize_room room) [
      | err e ↦ err room_denied
      | ok r ↦
          if principal.anonymous
          then ok principal
          else if contains principal.rooms r
          then ok principal
          else err room_denied
    ]
