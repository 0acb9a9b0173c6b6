-- ===== src/Db/Rows.antt =====
-- The data of backend/db: messages, moderation events, the rows of their tables, and times.
-- An instant is its number of nanoseconds since the first of January of year 1 in UTC, so the zero
-- `time.Time` is 0. A row holds its time as the text that the driver stored.
use chatster.Prelude.{ℕ, Option}
use chatster.Text.{Text}

abbrev pub Time : Type 0
Time = ℕ

pub record Message : Type 0 where
  pub id : ℕ
  pub user_id : Text
  pub username : Text
  pub content : Text
  pub msg_type : Text
  pub room : Text
  pub timestamp : Time

pub record ModerationEvent : Type 0 where
  pub id : ℕ
  pub session_id : Text
  pub user_id : Text
  pub username : Text
  pub reason : Text
  pub content_preview : Text
  pub content_length : ℕ
  pub timestamp : Time

pub record Row : Type 0 where
  pub id : ℕ
  pub room : Text
  pub user_id : Text
  pub username : Text
  pub content : Text
  pub msg_type : Text
  pub stored : Text

pub record AuditRow : Type 0 where
  pub id : ℕ
  pub session_id : Text
  pub user_id : Text
  pub username : Text
  pub reason : Text
  pub content_preview : Text
  pub content_length : ℕ
  pub stored : Text

-- The layouts that `parseMsgTimestamp` tries, in its order.
pub data Layout : Type 0 where
  rfc3339_nano rfc3339 date_time date_time_offset : Layout

-- The SQL driver and the package `time`: how an instant is bound, how a text is parsed, and the
-- `julianday` of a text, in the unit in which SQLite compares it.
pub record Driver : Type 0 where
  pub bind_time : Time → Text
  -- `Format(time.RFC3339Nano)` of an instant in UTC
  pub format_utc : Time → Text
  pub parse : Layout → Text → Option Time
  pub julianday : Text → ℕ
