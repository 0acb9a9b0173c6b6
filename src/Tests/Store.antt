-- ===== src/Tests/Store.antt =====
-- The tables.
use mathlib.Core.List.{Perm}
use chatster.Prelude.{
  List, [], drop, false, get_elem?, keep, list_beq, map, ok, refl, reverse, some, subst, take, ℕ,
  ◌==◌, ◌∷◌, ◌≡◌, nat_eq, list_eq,
}
use chatster.Text.{
  Text, codes, is_digit, is_lower, is_space, is_upper, lower_rune, to_lower, trim_left, trim_right,
  trim_space,
}
use chatster.Db.Room.{check_rest, check_runes, normalize_room}
use chatster.Db.Room.Canonical.{RoomOf}
use chatster.Db.Rows.{Message, Row, Time}
use chatster.Db.Sqlite.{
  Db, Faults, fresh, get_recent_messages_in_room, insert_row, newest_first, read_row,
  save_message_for_user_in_room, select_before, select_recent,
}
use chatster.Db.Sqlite.Order.{Descending}
use chatster.Db.Sqlite.Sound.{IsSound, fresh-IsSound}
use chatster.Db.Sqlite.Invariant.{
  Statement, execute, execute_all, execute_all-IsSound, save_message,
}
use chatster.Db.Sqlite.History.{get_recent_messages_lem, history, select_before-cursor}
use chatster.Tests.Codecs.{ascii, one_rune}

abbrev pub working : Faults
working = λ c. false

abbrev pub lobby : Text
lobby = codes "lobby"

-- Three messages, two of them at one time, and one in another room.
abbrev pub four_saves : List (Faults × Time × Statement)
four_saves =
    (working, 10, save_message lobby [] (codes "Ann") (codes "one") (codes "message"))
    ∷ (working, 20, save_message (codes " LOBBY") [] (codes "Bob") (codes "two") (codes "message"))
    ∷ (working, 20, save_message (codes "den") [] (codes "Eve") (codes "far") (codes "message"))
    ∷ (working, 20, save_message lobby [] (codes "Ann") (codes "three") (codes "message"))
    ∷ []

abbrev pub row_of : ℕ → Text → Text → Text → Time → Row
row_of id room name content now = record {
  id = id;
  room = room;
  user_id = [];
  username = name;
  content = content;
  msg_type = codes "message";
  stored = now ∷ [];
}

abbrev pub four_rows : Db
four_rows = record {
  rows =
      row_of 4 lobby (codes "Ann") (codes "three") 20
      ∷ row_of 3 (codes "den") (codes "Eve") (codes "far") 20
      ∷ row_of 2 lobby (codes "Bob") (codes "two") 20
      ∷ row_of 1 lobby (codes "Ann") (codes "one") 10
      ∷ [];
  next_id = 5;
  audit = [];
  next_audit_id = 1;
}

four_rows_lem : execute_all four_saves fresh ≡ four_rows
unfolding list_beq execute_all execute save_message_for_user_in_room normalize_room check_rest
    check_runes trim_space trim_left trim_right is_space is_lower is_digit is_upper lower_rune
four_rows_lem = refl

execute_all-IsSound_example : IsSound (execute_all four_saves fresh)
execute_all-IsSound_example = execute_all-IsSound four_saves fresh fresh-IsSound

pub four_rows-IsSound : IsSound four_rows
four_rows-IsSound = subst IsSound four_rows_lem (execute_all-IsSound four_saves fresh fresh-IsSound)

second_row :
    get_elem? (history lobby four_rows.rows) 1
    ≡ some (row_of 2 lobby (codes "Bob") (codes "two") 20)
unfolding list_beq newest_first insert_row keep
second_row = refl

-- The cursor of the second newest row, among two rows of one time, selects the oldest row.
select_before-cursor_example :
    select_before lobby 20 2 5 four_rows.rows ≡ take 5 (drop 2 (history lobby four_rows.rows))
select_before-cursor_example =
    select_before-cursor lobby 20 (row_of 2 lobby (codes "Bob") (codes "two") 20) 1 5 four_rows
      four_rows-IsSound second_row refl

abbrev last_two : List Message
last_two =
    read_row 99 (row_of 2 lobby (codes "Bob") (codes "two") 20)
    ∷ read_row 99 (row_of 4 lobby (codes "Ann") (codes "three") 20)
    ∷ []

last_two_lem : get_recent_messages_in_room working 99 (codes "Lobby") 2 four_rows ≡ ok last_two
unfolding list_beq get_recent_messages_in_room select_recent newest_first insert_row keep
    normalize_room check_rest check_runes trim_space trim_left trim_right is_space is_lower is_digit
    is_upper lower_rune
last_two_lem = refl

get_recent_messages_lem_example :
    (room : Text) × (l : List Row) × RoomOf (to_lower (trim_space (codes "Lobby"))) room
    × Perm l (keep (λ r. r.room == room) four_rows.rows)
    × Descending l
    × (last_two ≡ reverse (map (read_row 99) (take 2 l)))
get_recent_messages_lem_example =
    get_recent_messages_lem working 99 (codes "Lobby") 2 four_rows last_two four_rows-IsSound
      last_two_lem
