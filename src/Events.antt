-- ===== src/Events.antt =====
-- backend/internal/events/envelope.go: the versioned envelope of a room message, its validation,
-- and the channel names of a namespace.
pub mod Validity
pub mod Channels
use chatster.Prelude.{
  Bool, Result, [], all, err, false, if◌then◌else◌, is_nil, length, ltb, not, ok, reject_if, true,
  ℕ, ◌&&◌, ◌++◌, ◌==◌, ◌>>=◌, ◌>>◌, ◌||◌, ◌∷◌, nat_eq, list_eq,
}
use chatster.Text.{Text, Unicode, byte_len, codes, is_identifier_rune, to_lower, trim_space}
use chatster.Text.Laws.{is_token_rune}
use chatster.Db.Room.{RoomError, normalize_room}
use chatster.Db.Rows.{Time}

abbrev pub schema_name : Text
schema_name = codes "chatster.room-message"

abbrev pub envelope_version : ℕ
envelope_version = 1

abbrev pub max_token_runes : ℕ
max_token_runes = 64

abbrev pub max_event_id_runes : ℕ
max_event_id_runes = 128

pub record Payload : Type 0 where
  pub id : ℕ
  pub user_id : Text
  pub username : Text
  pub content : Text
  pub msg_type : Text

-- `timestamp_utc` says that the location of the time is `time.UTC`.
pub record Envelope : Type 0 where
  pub schema : Text
  pub version : ℕ
  pub event_id : Text
  pub room : Text
  pub origin_instance : Text
  pub timestamp : Time
  pub timestamp_utc : Bool
  pub message : Payload

pub data EventError : Type 0 where
  bad_schema bad_version bad_event_id long_event_id no_timestamp timestamp_not_utc : EventError
  room_not_canonical origin_not_canonical bad_message_id bad_user_id : EventError
  no_username no_content bad_type : EventError
  token_empty token_too_long token_bad_rune : EventError
  invalid_room : RoomError → EventError

-- The loop over the runes of a token.
unfoldable pub check_token : Text → Text → Result EventError Text
unfolding is_token_rune
check_token value [] = ok value
check_token value (r ∷ rs) =
    let rest = check_token value rs in if is_token_rune r then rest else err token_bad_rune

unfoldable pub check_lowered_token : Text → Result EventError Text
check_lowered_token value =
    if is_nil value
    then err token_empty
    else if ltb max_token_runes (length value)
    then err token_too_long
    else check_token value value

unfoldable pub valid_user_id : Text → Bool
valid_user_id value =
    if byte_len value == 0 || ltb 128 (byte_len value) then false else all is_identifier_rune value

-- The tests of `Validate`.
abbrev pub has_other_schema : Envelope → Bool
has_other_schema e = not (e.schema == schema_name)

abbrev pub has_other_version : Envelope → Bool
has_other_version e = not (e.version == envelope_version)

abbrev pub has_bad_event_id : Envelope → Bool
has_bad_event_id e = is_nil e.event_id || not (e.event_id == trim_space e.event_id)

abbrev pub has_long_event_id : Envelope → Bool
has_long_event_id e = ltb max_event_id_runes (length e.event_id)

abbrev pub has_bad_user_id : Payload → Bool
has_bad_user_id m =
    not (is_nil m.user_id)
    && (not (valid_user_id m.user_id) || not (m.user_id == trim_space m.user_id))

abbrev pub has_bad_type : Payload → Bool
has_bad_type m = is_nil m.msg_type || m.msg_type == codes "username"

module _ ⦃u : Unicode⦄ where
  unfoldable pub normalize_token : Text → Result EventError Text
  normalize_token value = check_lowered_token (to_lower (trim_space value))

  unfoldable pub validate_instance_id : Text → Result EventError (Unit {0})
  validate_instance_id id = do token ← normalize_token id; ok tt

  canonical_room : Text → Result EventError (Unit {0})
  canonical_room text = elim (normalize_room text) [
    | err e ↦ err (invalid_room e)
    | ok room ↦ reject_if (not (room == text)) room_not_canonical
  ]

  canonical_origin : Text → Result EventError (Unit {0})
  canonical_origin origin = do
    normalized ← normalize_token origin
    reject_if (not (normalized == origin)) origin_not_canonical

  unfoldable pub validate : Envelope → Result EventError (Unit {0})
  unfolding canonical_room canonical_origin
  validate e = do
    reject_if (has_other_schema e) bad_schema
    reject_if (has_other_version e) bad_version
    reject_if (has_bad_event_id e) bad_event_id
    reject_if (has_long_event_id e) long_event_id
    reject_if (e.timestamp == 0) no_timestamp
    reject_if (not e.timestamp_utc) timestamp_not_utc
    canonical_room e.room
    canonical_origin e.origin_instance
    reject_if (e.message.id == 0) bad_message_id
    reject_if (has_bad_user_id e.message) bad_user_id
    reject_if (is_nil (trim_space e.message.username)) no_username
    reject_if (is_nil e.message.content) no_content
    reject_if (has_bad_type e.message) bad_type
    ok tt

  -- `New`
  unfoldable pub new : Text → Text → Text → Payload → Time → Result EventError Envelope
  new event_id room origin message timestamp = do
    let e : Envelope = record {
      schema = schema_name;
      version = envelope_version;
      event_id = event_id;
      room = room;
      origin_instance = origin;
      timestamp = timestamp;
      timestamp_utc = true;
      message = message;
    }
    validate e
    ok e

  -- `fmt.Sprintf("chatster:v%d:%s:room:%s", Version, namespace, room)`
  unfoldable pub channel : Text → Text → Result EventError Text
  channel namespace text = do
    ns ← normalize_token namespace
    elim (normalize_room text) [
      | err e ↦ err (invalid_room e)
      | ok room ↦ ok (codes "chatster:v1:" ++ (ns ++ (codes ":room:" ++ room)))
    ]

  unfoldable pub channel_pattern : Text → Result EventError Text
  channel_pattern namespace = do
    ns ← normalize_token namespace
    ok (codes "chatster:v1:" ++ (ns ++ codes ":room:*"))
