-- ===== src/Auth/Principals.antt =====
-- The identities of backend/internal/auth/session.go: credentials, principals and
-- `normalizePrincipal`.
pub mod Laws
use chatster.Prelude.{
  Bool, List, Result, [], all, contains, err, false, if◌then◌else◌, is_nil, length, ltb, none, not,
  ok, reject_if, some, true, ℕ, ◌&&◌, ◌++◌, ◌+◌, ◌==◌, ◌>>=◌, ◌>>◌, ◌||◌, ◌∷◌, nat_eq, list_eq,
}
use chatster.Text.{
  Text, Unicode, byte_len, codes, is_hex, is_identifier_rune, strip_prefix, trim_space,
}
use chatster.Db.Room.{RoomError, normalize_room}
use chatster.Db.Rows.{Time}

pub data AuthError : Type 0 where
  auth_disabled invalid_token session_required invalid_session expired_session : AuthError
  room_denied session_id_failed encode_failed cookie_too_large : AuthError

pub data ConfigError : Type 0 where
  unsupported_mode short_secret ttl_out_of_range credentials_required bad_credentials : ConfigError
  trailing_credentials no_credentials token_size token_blank duplicate_token : ConfigError
  bad_user_id bad_display_name bad_room_count empty_room : ConfigError
  bad_room : RoomError → ConfigError

pub record Credential : Type 0 where
  pub token : Text
  pub user_id : Text
  pub display_name : Text
  pub rooms : List Text

pub record PrincipalTemplate : Type 0 where
  pub user_id : Text
  pub display_name : Text
  pub rooms : List Text

-- The zero `expires_at` is 0.
pub record Principal : Type 0 where
  pub user_id : Text
  pub display_name : Text
  pub rooms : List Text
  pub anonymous : Bool
  pub session_id : Text
  pub expires_at : Time

unfoldable pub authenticated : Principal → Bool
authenticated p = not p.anonymous && not (is_nil p.user_id) && not (is_nil p.session_id)

abbrev pub anonymous_principal : Principal
anonymous_principal = record {
  user_id = [];
  display_name = codes "Anonymous";
  rooms = [];
  anonymous = true;
  session_id = [];
  expires_at = 0;
}

abbrev pub max_rooms_per_user : ℕ
max_rooms_per_user = 64

unfoldable pub valid_identifier : Text → Bool
valid_identifier value =
    if byte_len value == 0 || ltb 128 (byte_len value) then false else all is_identifier_rune value

unfoldable pub valid_opaque_id : Text → Text → Bool
valid_opaque_id value prefix = elim (strip_prefix prefix value) [
  | none ↦ false
  | some rest ↦ if not (byte_len value == byte_len prefix + 32) then false else all is_hex rest
]

module _ ⦃u : Unicode⦄ where
  -- The loop over the rooms; the rooms seen so far are those of the result.
  unfoldable pub normalize_rooms : List Text → List Text → Result ConfigError (List Text)
  normalize_rooms seen [] = ok seen
  normalize_rooms seen (room ∷ rest) =
      if is_nil (trim_space room) then err empty_room else elim (normalize_room room) [
        | err e ↦ err (bad_room e)
        | ok r ↦ normalize_rooms (if contains seen r then seen else seen ++ r ∷ []) rest
      ]

  unfoldable pub normalize_principal :
      Text → Text → List Text → Result ConfigError PrincipalTemplate
  normalize_principal user_id display_name rooms = do
    let id = trim_space user_id
    let name = trim_space display_name
    reject_if (not (valid_identifier id)) bad_user_id
    reject_if (is_nil name || ltb 64 (length name)) bad_display_name
    reject_if (is_nil rooms || ltb max_rooms_per_user (length rooms)) bad_room_count
    normalized ← normalize_rooms [] rooms
    ok (record { user_id = id; display_name = name; rooms = normalized })
