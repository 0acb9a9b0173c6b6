-- ===== src/Cursor.antt =====
-- backend/history_cursor.go: the opaque cursor of the history endpoint. The time of a cursor is not
-- before year 1.
pub mod Laws
use chatster.Prelude.{
  Bool, Option, err, if◌then◌else◌, is_nil, ltb, none, not, ok, some, ℕ, ◌==◌, ◌||◌, nat_eq,
  list_eq,
}
use chatster.Text.{Text, Unicode, byte_len, equal_fold}
use chatster.Codec.{Base64, Json}
use chatster.Db.Room.{normalize_room}
use chatster.Db.Rows.{Message, Time}

pub record HistoryCursor : Type 0 where
  pub version : ℕ
  pub room : Text
  pub timestamp : Time
  pub id : ℕ

abbrev pub history_cursor_version : ℕ
history_cursor_version = 1

abbrev pub max_history_cursor_size : ℕ
max_history_cursor_size = 512

-- The checks on a decoded cursor.
check_cursor : ⦃u : Unicode⦄ → HistoryCursor → Option HistoryCursor
check_cursor c = elim (normalize_room c.room) [
  | err e ↦ none
  | ok room ↦
      if not (room == c.room)
        || not (c.version == history_cursor_version)
        || ltb c.id 1
        || c.timestamp == 0
      then none
      else some (record c { room = room })
]

module _ ⦃j : Json HistoryCursor⦄ ⦃b : Base64⦄ where
  unfoldable pub encode_history_cursor : Text → Message → Option Text
  encode_history_cursor room m =
      elim (j.marshal (record {
        version = history_cursor_version;
        room = room;
        timestamp = m.timestamp;
        id = m.id;
      })) [ none ↦ none | some payload ↦ some (b.encode payload) ]

  check_payload : ⦃u : Unicode⦄ → Text → Option HistoryCursor
  check_payload payload =
      if is_nil payload || ltb max_history_cursor_size (byte_len payload)
      then none
      else elim (j.decode payload) [
        | none ↦ none
        | some (c, rest) ↦ if not (j.at_eof rest) then none else check_cursor c
      ]

  -- `none` is `errInvalidHistoryCursor`.
  unfoldable pub decode_history_cursor : ⦃u : Unicode⦄ → Text → Option HistoryCursor
  unfolding check_payload check_cursor
  decode_history_cursor raw =
      if is_nil raw || ltb max_history_cursor_size (byte_len raw)
      then none
      else elim (b.decode raw) [ none ↦ none | some payload ↦ check_payload payload ]

unfoldable pub history_cursor_room_matches : ⦃u : Unicode⦄ → HistoryCursor → Text → Bool
history_cursor_room_matches c room = equal_fold c.room room
