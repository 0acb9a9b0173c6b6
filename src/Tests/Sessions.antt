-- ===== src/Tests/Sessions.antt =====
-- Sessions: a service, an exchange and the requests with its cookie.
use chatster.Prelude.{
  List, [], all, any, arith, contains, false, leb→le, list_beq, ltb→lt, map, ok, refl, some, true,
  ℕ, ◌*◌, ◌++◌, ◌+◌, ◌↔◌, ◌∷◌, ◌≡◌, ◌≤◌, ◌⊎◌, nat_eq, list_eq,
}
use chatster.Prelude.Int.{pos}
use chatster.Text.{
  Text, byte_len, codes, has_blank, hex_digit, hex_encode, is_digit, is_identifier_rune, is_lower,
  is_space, is_upper, lower_rune, rune_len, trim_left, trim_right, trim_space,
}
use chatster.Db.Room.{check_rest, check_runes, normalize_room}
use chatster.Db.Rows.{Time}
use chatster.Auth.Principals.{
  Principal, PrincipalTemplate, normalize_principal, normalize_rooms, valid_identifier,
}
use chatster.Auth.Principals.Laws.{IsNormal, normalize_principal-IsNormal}
use chatster.Auth.Service
use chatster.Auth.Service.{
  Config, Service, add_credential, add_credentials, decode_credentials, find_credential,
  max_session_ttl, min_secret_bytes, min_session_ttl, mode_anonymous, mode_of, mode_session, new,
  second, session_ttl,
}
use chatster.Auth.Service.Laws.{IsSessionService, new-IsSessionService}
use chatster.Auth.Session.{
  Cookie, authenticate, authorize, cookie_name, cookie_value, encode, exchange, issue,
  max_cookie_bytes, new_session_id, unix_epoch,
}
use chatster.Auth.Session.Laws.{IsLive, IsSigned, authenticate-IsLive}
use chatster.Auth.Session.Signed.{CookieLaws, IsRandom}
use chatster.Auth.Session.RoundTrip.{authenticate-exchange, whole}
use chatster.Auth.Session.Grants.{IsGranted, authorize_iff}
use chatster.Tests.Codecs.{
  over_dot, write_session, ascii, credential_json, dotless, dotless_laws, plain, session_json,
  session_json_laws,
}

abbrev pub token : Text
token = codes "0123456789abcdef0123456789abcdef"

abbrev pub ann : PrincipalTemplate
ann = record { user_id = codes "u1"; display_name = codes "Ann"; rooms = codes "general" ∷ [] }

ann_normalized : normalize_principal (codes " u1") (codes "Ann ") (codes "General" ∷ []) ≡ ok ann
unfolding list_beq normalize_principal normalize_rooms valid_identifier is_identifier_rune all
    contains byte_len rune_len normalize_room check_rest check_runes trim_space trim_left trim_right
    is_space is_lower is_digit is_upper lower_rune
ann_normalized = refl

normalize_principal-IsNormal_example : IsNormal ann
normalize_principal-IsNormal_example =
    normalize_principal-IsNormal (codes " u1") (codes "Ann ") (codes "General" ∷ []) ann
      ann_normalized

ann-IsNormal : IsNormal ann
ann-IsNormal =
    normalize_principal-IsNormal (codes " u1") (codes "Ann ") (codes "General" ∷ []) ann
      ann_normalized

abbrev pub config : Config
config = record {
  mode = codes " Session";
  session_secret = token;
  credentials_json = token;
  session_ttl = pos 0;
  cookie_secure = true;
}

abbrev pub service : Service
service = record {
  mode = mode_session;
  secret = token;
  credentials = (token, ann) ∷ [];
  ttl = 3600 * second;
  cookie_secure = true;
}

pub service_built : Service.new config ≡ ok service
unfolding list_beq Service.new session_ttl decode_credentials add_credential add_credentials
    find_credential has_blank any normalize_principal normalize_rooms valid_identifier
    is_identifier_rune all contains byte_len rune_len normalize_room check_rest check_runes
    trim_space trim_left trim_right is_space is_lower is_digit is_upper lower_rune
service_built = refl

new-IsSessionService_example : (service.mode ≡ mode_anonymous) ⊎ IsSessionService service
new-IsSessionService_example = new-IsSessionService config service service_built

service-IsSessionService : IsSessionService service
unfolding byte_len rune_len find_credential
service-IsSessionService = record {
  in_session_mode = refl;
  secret_long = leb→le min_secret_bytes (byte_len token) refl;
  ttl_min = leb→le min_session_ttl (3600 * second) refl;
  ttl_max = leb→le (3600 * second) max_session_ttl refl;
  credentials_normal = (ann-IsNormal, refl, tt);
  credentials_given = λ e. cc;
}

abbrev pub raw : List ℕ
raw = 0 ∷ 1 ∷ 2 ∷ 3 ∷ 4 ∷ 5 ∷ 6 ∷ 7 ∷ 8 ∷ 9 ∷ 10 ∷ 11 ∷ 12 ∷ 13 ∷ 14 ∷ 15 ∷ []

raw-IsRandom : IsRandom raw
raw-IsRandom = record {
  full = refl;
  bytes = (
    omega arith,
    (
      omega arith,
      (
        omega arith,
        (
          omega arith,
          (
            omega arith,
            (
              omega arith,
              (
                omega arith,
                (
                  omega arith,
                  (
                    omega arith,
                    (
                      omega arith,
                      (
                        omega arith,
                        (
                          omega arith,
                          (omega arith, (omega arith, (omega arith, (omega arith, tt)))),
                        ),
                      ),
                    ),
                  ),
                ),
              ),
            ),
          ),
        ),
      ),
    ),
  );
}

-- Ten days after the Unix epoch.
abbrev pub start : Time
start = (unix_epoch + 864000) * second

abbrev pub ann_session : Principal
ann_session = record {
  user_id = codes "u1";
  display_name = codes "Ann";
  rooms = codes "general" ∷ [];
  anonymous = false;
  session_id = codes "sid_000102030405060708090a0b0c0d0e0f";
  expires_at = start + 3600 * second;
}

abbrev pub ann_value : Text
ann_value =
    map over_dot (
      write_session (issue service ann (codes "sid_000102030405060708090a0b0c0d0e0f") start)
        (codes "general"))
    ++ b'.' ∷ map over_dot (b'm' ∷ token)

abbrev pub ann_cookie : Cookie
ann_cookie = record {
  name = cookie_name;
  value = ann_value;
  path = codes "/";
  expires = start + 3600 * second;
  max_age = pos 3600;
  http_only = true;
  secure = true;
  same_site_strict = true;
}

ann_exchanged : exchange (some service) token (some raw) start ≡ ok (ann_session, ann_cookie)
unfolding list_beq exchange encode mode_of new_session_id hex_encode hex_digit find_credential
    has_blank any byte_len rune_len
ann_exchanged = refl

cookie_laws : CookieLaws
cookie_laws = record { json = session_json_laws; base64 = dotless_laws; mac_nonempty = λ k m e. cc }

whole_lem : whole ann_session.expires_at ≡ ann_session.expires_at
whole_lem = refl

ann_authenticated :
    authenticate (some service) (cookie_value ann_value) (start + 5) ≡ ok ann_session
ann_authenticated =
    authenticate-exchange service token raw start (start + 5) ann_session ann_cookie cookie_laws
      service-IsSessionService raw-IsRandom (leb→le ((unix_epoch + 1) * second) start refl)
      ann_exchanged (leb→le start (start + 5 + 60 * second) refl)
      (ltb→lt (start + 5) (whole ann_session.expires_at) refl)

authenticate-exchange_example :
    authenticate (some service) (cookie_value ann_value) (start + 5) ≡ ok ann_session
authenticate-exchange_example =
    authenticate-exchange service token raw start (start + 5) ann_session ann_cookie cookie_laws
      service-IsSessionService raw-IsRandom (leb→le ((unix_epoch + 1) * second) start refl)
      ann_exchanged (leb→le start (start + 5 + 60 * second) refl)
      (ltb→lt (start + 5) (whole ann_session.expires_at) refl)

authenticate-IsLive_example :
    IsLive service (start + 5) ann_session
    × (value : Text) × (cookie_value ann_value ≡ cookie_value value)
    × (byte_len value ≤ max_cookie_bytes)
    × IsSigned service.secret value
authenticate-IsLive_example =
    authenticate-IsLive service (cookie_value ann_value) (start + 5) ann_session
      service-IsSessionService ann_authenticated

authorize_iff_example :
    (authorize (some service) (cookie_value ann_value) (start + 5) (codes " General")
      ≡ ok ann_session)
    ↔ ((authenticate (some service) (cookie_value ann_value) (start + 5) ≡ ok ann_session)
        × IsGranted ann_session (codes " General"))
authorize_iff_example =
    authorize_iff service (cookie_value ann_value) (start + 5) (codes " General") ann_session
      service-IsSessionService
