-- ===== src/Tests/Requests.antt =====
-- Requests: a page of the history, and the opening of a session.
use chatster.Prelude.{
  [], any, drop, get_elem?, keep, list_beq, none, ok, refl, some, true, ◌∷◌, ◌≡◌, ◌≤◌, nat_eq,
  list_eq,
}
use chatster.Text.{
  Text, byte_len, codes, cut, equal_fold, fold_rune, has_blank, hex_digit, hex_encode, is_digit,
  is_lower, is_space, is_upper, lower_rune, rune_len, trim_left, trim_right, trim_space,
}
use chatster.Db.Room.{check_rest, check_runes, normalize_room}
use chatster.Db.Sqlite.{
  get_messages_before_in_room, insert_row, newest_first, parse_msg_timestamp, read_row,
  select_before,
}
use chatster.Db.Sqlite.History.{history}
use chatster.Cursor.{
  HistoryCursor, decode_history_cursor, encode_history_cursor, history_cursor_room_matches,
}
use chatster.Auth.Principals.{anonymous_principal}
use chatster.Auth.Service.{find_credential, mode_of, mode_session}
use chatster.Auth.Session.{authenticate, authorize, encode, exchange, new_session_id, no_cookie}
use chatster.Text.Numbers.{atoi, atoi_unsigned, digits_value}
use chatster.Server.{
  Page, Request, cursor_of, fetch, limit_of, messages_handler, next_cursor_of, origin_allowed,
  page_messages, page_of,
}
use chatster.Server.Shown.{Shows}
use chatster.Server.History.{Selects, behind, messages_handler-Shows}
use chatster.Server.Sessions.{
  bearer_token, open_session, session_handler, session_handler-opens, session_opened,
}
use chatster.Tests.Codecs.{ascii, cursor_json, dotless, one_rune, plain, session_json}
use chatster.Tests.Store.{four_rows, four_rows-IsSound, lobby, row_of, working}
use chatster.Tests.Sessions.{ann_cookie, ann_session, raw, service, start}

abbrev pub request : Request
request = record {
  method = codes "GET";
  origin = [];
  authorization = codes "Bearer 0123456789abcdef0123456789abcdef";
  cookie = no_cookie;
  room_param = codes " Lobby";
  limit_param = codes "1";
  before_param = some ((dotless.encode (1 ∷ 4 ∷ 20 ∷ lobby)) ∷ []);
}

abbrev pub cursor : HistoryCursor
cursor = record { version = 1; room = lobby; timestamp = 20; id = 4 }

-- The page behind the newest message: one message, and a cursor on it.
abbrev pub page : Page
page = record {
  room = lobby;
  messages = read_row 99 (row_of 2 lobby (codes "Bob") (codes "two") 20) ∷ [];
  limit = 1;
  has_more = true;
  next_cursor = some (dotless.encode (1 ∷ 2 ∷ 20 ∷ lobby));
  viewer = anonymous_principal;
}

pub page_lem : messages_handler none working 99 request four_rows ≡ ok page
unfolding messages_handler limit_of atoi atoi_unsigned digits_value authorize authenticate cursor_of
    decode_history_cursor history_cursor_room_matches equal_fold fold_rune fetch
    get_messages_before_in_room select_before page_of page_messages next_cursor_of
    encode_history_cursor read_row parse_msg_timestamp byte_len rune_len newest_first insert_row
    keep list_beq normalize_room check_rest check_runes trim_space trim_left trim_right is_space
    is_lower is_digit is_upper lower_rune
page_lem = refl

pub cursor_lem : cursor_of request.before_param lobby ≡ ok (some cursor)
unfolding cursor_of decode_history_cursor history_cursor_room_matches equal_fold fold_rune byte_len
    rune_len list_beq normalize_room check_rest check_runes trim_space trim_left trim_right is_space
    is_lower is_digit is_upper lower_rune
cursor_lem = refl

newest_row :
    get_elem? (history lobby four_rows.rows) 0
    ≡ some (row_of 4 lobby (codes "Ann") (codes "three") 20)
unfolding newest_first insert_row keep list_beq
newest_row = refl

pub page-Selects : Selects four_rows lobby (some cursor) (drop 1 (history lobby four_rows.rows))
page-Selects =
    behind cursor 0 (row_of 4 lobby (codes "Ann") (codes "three") 20) newest_row refl refl

messages_handler-Shows_example :
    (codes "GET" ≡ codes "GET")
    × (normalize_room (codes " Lobby") ≡ ok lobby)
    × (authorize none no_cookie 99 lobby ≡ ok anonymous_principal)
    × (1 ≤ 1)
    × (1 ≤ 100)
    × Shows (drop 1 (history lobby four_rows.rows)) 99 page
messages_handler-Shows_example =
    messages_handler-Shows none working 99 request four_rows page (some cursor)
      (drop 1 (history lobby four_rows.rows)) four_rows-IsSound page_lem cursor_lem page-Selects

abbrev opening : Request
opening = record request { method = codes "POST" }

opening_lem :
    session_handler [] (some service) (some raw) start opening
    ≡ ok (session_opened mode_session ann_session ann_cookie)
unfolding session_handler open_session bearer_token cut equal_fold fold_rune origin_allowed list_beq
    exchange encode mode_of new_session_id hex_encode hex_digit find_credential has_blank any
    byte_len rune_len trim_space trim_left trim_right is_space is_lower is_digit is_upper
opening_lem = refl

session_handler-opens_example :
    (codes "POST" ≡ codes "POST")
    × (mode_of (some service) ≡ mode_session)
    × (origin_allowed [] [] ≡ true)
    × (t : Text) × (bearer_token opening.authorization ≡ some t)
    × (exchange (some service) t (some raw) start ≡ ok (ann_session, ann_cookie))
session_handler-opens_example =
    session_handler-opens [] (some service) (some raw) start opening mode_session ann_session
      ann_cookie opening_lem
