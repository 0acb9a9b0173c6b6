-- ===== src/Server.antt =====
-- The HTTP endpoints of backend/server.go: the history, the session, and their errors. A request is
-- what the handlers read of it; the clock, the random source and the outcome of the database calls are
-- arguments.
pub mod Shown
pub mod History
pub mod Sessions
pub mod Pages
pub mod Ratelimit
pub mod Sockets
pub mod Cors
use chatster.Prelude.{
  Bool, List, Option, Result, [], contains, drop, err, false, if◌then◌else◌, is_nil, length, ltb,
  none, not, ok, or_fail, reject_if, some, true, ℕ, ◌+◌, ◌-◌, ◌==◌, ◌>>=◌, ◌>>◌, ◌∷◌, nat_eq,
  list_eq,
}
use chatster.Prelude.Int.{negsuc, pos}
use chatster.Text.Numbers.{atoi}
use chatster.Text.{Text, Unicode, codes}
use chatster.Codec.{Base64, Digest, Json}
use chatster.Db.Room.{normalize_room}
use chatster.Db.Rows.{Driver, Message, Time}
use chatster.Db.Sqlite.{
  Db, DbError, Faults, get_messages_before_in_room, get_recent_messages_in_room,
}
use chatster.Cursor.{
  HistoryCursor, decode_history_cursor, encode_history_cursor, history_cursor_room_matches,
}
use chatster.Auth.Principals.{AuthError, Principal, expired_session, room_denied}
use chatster.Auth.Service.{Service}
use chatster.Auth.Session.{CookieLookup, SessionPayload, authorize}

pub record Request : Type 0 where
  pub method : Text
  pub origin : Text
  pub authorization : Text
  pub cookie : CookieLookup
  pub room_param : Text
  pub limit_param : Text
  -- the values of the parameter `before`, if it is present
  pub before_param : Option (List Text)

-- A plain text error, and an error that is written as JSON.
pub data Refusal : Type 0 where
  http_error : ℕ → Text → Refusal
  json_error : ℕ → Text → Text → Refusal

-- `OriginAllowed` of backend/internal/config/config.go
unfoldable pub origin_allowed : List Text → Text → Bool
origin_allowed allowed origin =
    if is_nil allowed then true else if is_nil origin then true else contains allowed origin

-- `writeAuthError`
unfoldable pub auth_refusal : AuthError → Refusal
auth_refusal room_denied =
    json_error 403 (codes "room_forbidden") (codes "You do not have access to this room.")
auth_refusal expired_session =
    json_error 401 (codes "session_expired") (codes "Your session has expired.")
auth_refusal e =
    json_error 401 (codes "authentication_required") (codes "A valid session is required.")

-- The limit of a history request.
unfoldable pub limit_of : Text → Option ℕ
limit_of raw = if is_nil raw then some 50 else elim (atoi raw) [
  | none ↦ none
  | some (negsuc n) ↦ none
  | some (pos n) ↦ if ltb n 1 then none else some (if ltb 100 n then 100 else n)
]

pub record Page : Type 0 where
  pub room : Text
  pub messages : List Message
  pub limit : ℕ
  pub has_more : Bool
  pub next_cursor : Option Text
  pub viewer : Principal

abbrev pub unavailable : Refusal
unavailable = http_error 500 (codes "message history unavailable")

abbrev pub bad_cursor : Refusal
bad_cursor = http_error 400 (codes "invalid history cursor")

abbrev pub or_refuse {ℓ κ} :
    {A : Type ℓ} {E : Type κ} → Result E A → (E → Refusal) → Result Refusal A
or_refuse (ok a) f = ok a
or_refuse (err e) f = err (f e)

-- The messages of a page, of those that were fetched.
unfoldable pub page_messages : ℕ → List Message → List Message
page_messages limit messages =
    if ltb limit (length messages) then drop (length messages - limit) messages else messages

module _ ⦃j : Json HistoryCursor⦄ ⦃b : Base64⦄ where
  -- The cursor on the first message of the page, if there are more.
  unfoldable pub next_cursor_of : Text → Bool → List Message → Result Refusal (Option Text)
  next_cursor_of room false messages = ok none
  next_cursor_of room true [] = err unavailable
  next_cursor_of room true (m ∷ messages) = elim (encode_history_cursor room m) [
    | none ↦ err unavailable
    | some encoded ↦ ok (some encoded)
  ]

  unfoldable pub page_of : Text → ℕ → List Message → Principal → Result Refusal Page
  page_of room limit fetched principal = do
    let has_more = ltb limit (length fetched)
    next ← next_cursor_of room has_more (page_messages limit fetched)
    ok (record {
      room = room;
      messages = page_messages limit fetched;
      limit = limit;
      has_more = has_more;
      next_cursor = next;
      viewer = principal;
    })

module _ ⦃u : Unicode⦄ ⦃j : Json HistoryCursor⦄ ⦃b : Base64⦄ where
  unfoldable pub cursor_of : Option (List Text) → Text → Result Refusal (Option HistoryCursor)
  cursor_of none room = ok none
  cursor_of (some (raw ∷ [])) room = elim (decode_history_cursor raw) [
    | none ↦ err bad_cursor
    | some c ↦ if history_cursor_room_matches c room then ok (some c) else err bad_cursor
  ]
  cursor_of (some values) room = err bad_cursor

module _ ⦃u : Unicode⦄ ⦃d : Driver⦄ where
  unfoldable pub fetch :
      Faults → Time → Text → Option HistoryCursor → ℕ → Db → Result DbError (List Message)
  fetch fails now room none limit db = get_recent_messages_in_room fails now room limit db
  fetch fails now room (some c) limit db =
      get_messages_before_in_room fails now room c.timestamp c.id limit db

module _ ⦃u : Unicode⦄ ⦃d : Driver⦄ ⦃j : Json HistoryCursor⦄ ⦃s : Json SessionPayload⦄ ⦃b : Base64⦄
    ⦃g : Digest⦄ where
  unfoldable pub messages_handler :
      Option Service → Faults → Time → Request → Db → Result Refusal Page
  messages_handler service fails now r db = do
    reject_if (not (r.method == codes "GET")) (http_error 405 (codes "method not allowed"))
    room ← or_refuse (normalize_room r.room_param) (λ e. http_error 400 (codes "invalid room"))
    principal ← or_refuse (authorize service r.cookie now room) auth_refusal
    limit ←
        or_fail (limit_of r.limit_param) (http_error 400 (codes "limit must be a positive integer"))
    before ← cursor_of r.before_param room
    fetched ← or_refuse (fetch fails now room before (limit + 1) db) (λ e. unavailable)
    page_of room limit fetched principal
