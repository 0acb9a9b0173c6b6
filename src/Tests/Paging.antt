-- ===== src/Tests/Paging.antt =====
-- The cursor of a first page, followed to the second.
use chatster.Prelude.{
  All, [], drop, keep, leb→le, list_beq, none, ok, refl, some, ◌∷◌, ◌≡◌, ◌≤◌, nat_eq, list_eq,
}
use chatster.Text.{byte_len, rune_len}
use chatster.Db.Sqlite.{insert_row, newest_first, parse_msg_timestamp, read_row}
use chatster.Db.Sqlite.History.{history}
use chatster.Cursor.{HistoryCursor, max_history_cursor_size}
use chatster.Server.{cursor_of}
use chatster.Server.Shown.{Shows}
use chatster.Server.History.{Selects, messages_handler-Shows}
use chatster.Server.Pages.{IsFaithful, next_page-Selects}
use chatster.Tests.Names.{lobby-IsRoom}
use chatster.Tests.Codecs.{
  ascii, cursor_json, cursor_json_laws, dotless, dotless_laws, one_rune, plain, session_json,
}
use chatster.Tests.Store.{four_rows, four_rows-IsSound, lobby, working}
use chatster.Tests.Requests.{cursor, cursor_lem, page, page-Selects, page_lem, request}

rows-AreFaithful : All (IsFaithful 99) (history lobby four_rows.rows)
unfolding newest_first insert_row keep list_beq read_row parse_msg_timestamp
rows-AreFaithful = (
  record { identified = leb→le 1 4 refl; dated = leb→le 1 20 refl; bound = refl },
  (
    record { identified = leb→le 1 2 refl; dated = leb→le 1 20 refl; bound = refl },
    (record { identified = leb→le 1 1 refl; dated = leb→le 1 10 refl; bound = refl }, tt),
  ),
)

page-Shows : Shows (drop 1 (history lobby four_rows.rows)) 99 page
page-Shows =
    (messages_handler-Shows none working 99 request four_rows page (some cursor)
      (drop 1 (history lobby four_rows.rows)) four_rows-IsSound page_lem cursor_lem page-Selects).5

cursor_fits : byte_len (dotless.encode (1 ∷ 2 ∷ 20 ∷ lobby)) ≤ max_history_cursor_size
unfolding byte_len rune_len
cursor_fits = leb→le (byte_len (dotless.encode (1 ∷ 2 ∷ 20 ∷ lobby))) max_history_cursor_size refl

next_page-Selects_example :
    (c : HistoryCursor) × (cursor_of (some (dotless.encode (1 ∷ 2 ∷ 20 ∷ lobby) ∷ [])) lobby
      ≡ ok (some c))
    × Selects four_rows lobby (some c) (drop 1 (drop 1 (history lobby four_rows.rows)))
next_page-Selects_example =
    next_page-Selects 99 four_rows (some cursor) (drop 1 (history lobby four_rows.rows)) page
      (dotless.encode (1 ∷ 2 ∷ 20 ∷ lobby)) cursor_json_laws dotless_laws lobby-IsRoom
      rows-AreFaithful page-Selects page-Shows (leb→le 1 1 refl) refl refl cursor_fits
