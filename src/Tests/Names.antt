-- ===== src/Tests/Names.antt =====
-- Rooms, event names and cursors.
use chatster.Prelude.{
  [], leb→le, list_beq, ok, refl, some, true, ◌↔◌, ◌∷◌, ◌≡◌, ◌≢◌, ◌≤◌, nat_eq, list_eq,
}
use chatster.Text.{
  Text, byte_len, codes, is_digit, is_lower, is_space, is_upper, lower_rune, rune_len, to_lower,
  trim_left, trim_right, trim_space,
}
use chatster.Db.Room.{check_rest, check_runes, normalize_room}
use chatster.Db.Room.Canonical.{IsRoom, RoomOf, normalize_room-IsRoom, normalize_room_accepts}
use chatster.Db.Rows.{Message}
use chatster.Events
use chatster.Events.{
  Envelope, Payload, channel, check_lowered_token, check_token, envelope_version, new,
  normalize_token, schema_name, valid_user_id, validate,
}
use chatster.Events.Channels.{channel-injective}
use chatster.Events.Validity.{IsValid, new-IsValid}
use chatster.Cursor.{
  HistoryCursor, decode_history_cursor, encode_history_cursor, max_history_cursor_size,
}
use chatster.Cursor.Laws.{IsCursor, decode_history_cursor-IsCursor, decode_history_cursor-encode}
use chatster.Tests.Codecs.{ascii, cursor_json, cursor_json_laws, dotless, dotless_laws}

abbrev pub lobby : Text
lobby = codes "lobby"

lobby_normal : normalize_room (codes " Lobby ") ≡ ok lobby
unfolding normalize_room check_rest check_runes trim_space trim_left trim_right is_space is_lower
    is_digit is_upper lower_rune
lobby_normal = refl

normalize_room_accepts_example :
    (normalize_room (codes " Lobby ") ≡ ok lobby)
    ↔ RoomOf (to_lower (trim_space (codes " Lobby "))) lobby
normalize_room_accepts_example = normalize_room_accepts (codes " Lobby ") lobby

channel_of :
    Events.channel (codes " Chat ") (codes "LOBBY") ≡ ok (codes "chatster:v1:chat:room:lobby")
unfolding Events.channel Events.normalize_token Events.check_lowered_token Events.check_token
    normalize_room check_rest check_runes trim_space trim_left trim_right is_space is_lower is_digit
    is_upper lower_rune
channel_of = refl

channel_of_plain :
    Events.channel (codes "chat") (codes "lobby") ≡ ok (codes "chatster:v1:chat:room:lobby")
unfolding Events.channel Events.normalize_token Events.check_lowered_token Events.check_token
    normalize_room check_rest check_runes trim_space trim_left trim_right is_space is_lower is_digit
    is_upper lower_rune
channel_of_plain = refl

channel-injective_example :
    (normalize_token (codes " Chat ") ≡ normalize_token (codes "chat"))
    × (normalize_room (codes "LOBBY") ≡ normalize_room (codes "lobby"))
channel-injective_example =
    channel-injective (codes " Chat ") (codes "chat") (codes "LOBBY") (codes "lobby")
      (codes "chatster:v1:chat:room:lobby") channel_of channel_of_plain

abbrev hello : Payload
hello = record {
  id = 7;
  user_id = [];
  username = codes "Ann";
  content = codes "hello";
  msg_type = codes "message";
}

abbrev hello_event : Envelope
hello_event = record {
  schema = schema_name;
  version = envelope_version;
  event_id = codes "evt_1";
  room = lobby;
  origin_instance = codes "a1";
  timestamp = 5;
  timestamp_utc = true;
  message = hello;
}

hello_built : Events.new (codes "evt_1") lobby (codes "a1") hello 5 ≡ ok hello_event
unfolding list_beq Events.new Events.validate Events.valid_user_id Events.normalize_token
    Events.check_lowered_token Events.check_token normalize_room check_rest check_runes trim_space
    trim_left trim_right is_space is_lower is_digit is_upper lower_rune
hello_built = refl

new-IsValid_example :
    IsValid hello_event
    × (hello_event.event_id ≡ codes "evt_1")
    × (hello_event.room ≡ lobby)
    × (hello_event.origin_instance ≡ codes "a1")
    × (hello_event.message ≡ hello)
    × (hello_event.timestamp ≡ 5)
new-IsValid_example = new-IsValid (codes "evt_1") lobby (codes "a1") hello 5 hello_event hello_built

abbrev hello_message : Message
hello_message = record {
  id = 7;
  user_id = [];
  username = codes "Ann";
  content = codes "hello";
  msg_type = codes "message";
  room = lobby;
  timestamp = 5;
}

abbrev hello_cursor : HistoryCursor
hello_cursor = record { version = 1; room = lobby; timestamp = 5; id = 7 }

abbrev hello_token : Text
hello_token = dotless.encode (1 ∷ 7 ∷ 5 ∷ lobby)

hello_encoded : encode_history_cursor lobby hello_message ≡ some hello_token
unfolding encode_history_cursor
hello_encoded = refl

pub lobby-IsRoom : IsRoom lobby
lobby-IsRoom = normalize_room-IsRoom (codes " Lobby ") lobby_normal

token_fits : byte_len hello_token ≤ max_history_cursor_size
unfolding byte_len rune_len
token_fits = leb→le (byte_len hello_token) max_history_cursor_size refl

decode_history_cursor-encode_example : decode_history_cursor hello_token ≡ some hello_cursor
decode_history_cursor-encode_example =
    decode_history_cursor-encode lobby hello_message hello_token cursor_json_laws dotless_laws
      lobby-IsRoom (leb→le 1 7 refl) (leb→le 1 5 refl) hello_encoded token_fits

hello_decoded : decode_history_cursor hello_token ≡ some hello_cursor
hello_decoded =
    decode_history_cursor-encode lobby hello_message hello_token cursor_json_laws dotless_laws
      lobby-IsRoom (leb→le 1 7 refl) (leb→le 1 5 refl) hello_encoded token_fits

decode_history_cursor-IsCursor_example :
    IsCursor hello_cursor × (hello_token ≢ []) × (byte_len hello_token ≤ max_history_cursor_size)
decode_history_cursor-IsCursor_example =
    decode_history_cursor-IsCursor hello_token hello_cursor hello_decoded
