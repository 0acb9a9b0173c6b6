-- ===== src/Tests/Joining.antt =====
-- A client that joins a room with a history.
use mathlib.Core.List.{Perm}
use chatster.Prelude.{
  List, [], false, keep, list_beq, map, none, ok, refl, reverse, take, ◌++◌, ◌==◌, ◌∷◌, ◌≡◌, nat_eq,
  list_eq,
}
use chatster.Text.{
  Text, codes, is_digit, is_lower, is_space, is_upper, lower_rune, to_lower, trim_left, trim_right,
  trim_space,
}
use chatster.Db.Room.{check_rest, check_runes, normalize_room}
use chatster.Db.Room.Canonical.{RoomOf}
use chatster.Db.Rows.{Message, Row}
use chatster.Db.Sqlite.{
  get_recent_messages_in_room, insert_row, newest_first, read_row, select_recent,
}
use chatster.Db.Sqlite.Order.{Descending}
use chatster.Hub.State.{Client, new_hub}
use chatster.Hub.Client.{World}
use chatster.Hub.Presence.{history_limit, send_message_history, welcome}
use chatster.Hub.Presence.Welcome.{send_message_history_lem}
use chatster.Tests.Codecs.{ascii, one_rune}
use chatster.Tests.Store.{four_rows, four_rows-IsSound, lobby, row_of, working}

abbrev newcomer : Client
newcomer = record {
  session_id = codes "s";
  user_id = [];
  username = codes "Zoe";
  authenticated = false;
  auth_expires_at = 0;
  room_field = lobby;
  send = [];
  done = false;
}

abbrev pub room_world : World
room_world = record { hub = new_hub (λ k. newcomer) none; db = four_rows }

abbrev three_messages : List Message
three_messages =
    read_row 99 (row_of 1 lobby (codes "Ann") (codes "one") 10)
    ∷ read_row 99 (row_of 2 lobby (codes "Bob") (codes "two") 20)
    ∷ read_row 99 (row_of 4 lobby (codes "Ann") (codes "three") 20)
    ∷ []

three_messages_lem :
    get_recent_messages_in_room working 99 lobby history_limit four_rows ≡ ok three_messages
unfolding list_beq get_recent_messages_in_room select_recent newest_first insert_row keep
    normalize_room check_rest check_runes trim_space trim_left trim_right is_space is_lower is_digit
    is_upper lower_rune
three_messages_lem = refl

send_message_history_lem_example :
    (room : Text) × (l : List Row) × RoomOf (to_lower (trim_space lobby)) room
    × Perm l (keep (λ r. r.room == room) four_rows.rows)
    × Descending l
    × (((send_message_history working 99 1 room_world).hub.objects 1).send
        ≡ reverse (map (read_row 99) (take history_limit l)) ++ welcome lobby ∷ [])
send_message_history_lem_example =
    send_message_history_lem working 99 1 room_world three_messages four_rows-IsSound refl refl
      three_messages_lem

abbrev pub zoe_joined : Message
zoe_joined = record {
  id = 5;
  user_id = [];
  username = codes "System";
  content = codes "Zoe joined the chat";
  msg_type = codes "notification";
  room = lobby;
  timestamp = 99;
}

abbrev pub joined_world : World
joined_world = record {
  hub = record (room_world.hub) { clients = 1 ∷ []; broadcast = zoe_joined ∷ [] };
  db = record four_rows {
    rows =
        record {
          id = 5;
          room = lobby;
          user_id = [];
          username = codes "System";
          content = codes "Zoe joined the chat";
          msg_type = codes "notification";
          stored = 99 ∷ [];
        }
        ∷ four_rows.rows;
    next_id = 6;
  };
}
