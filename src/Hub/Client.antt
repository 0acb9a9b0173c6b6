-- ===== src/Hub/Client.antt =====
-- The read loop of backend/client.go, one frame at a time, and the limits of backend/message.go.
-- What the websocket library reads is an argument: a frame is the message that it decodes, with
-- every field that the client sent. The answer of the rate limiter, the outcome of the database
-- calls, the time and the identifier of the relayed event are arguments too.
use chatster.Prelude.{
  Bool, Option, Result, err, false, if◌then◌else◌, is_nil, leb, length, none, not, ok, some, true,
  ℕ, ◌==◌, nat_eq, list_eq,
}
use chatster.Text.{Text, Unicode, codes, trim_space}
use chatster.Db.Rows.{Driver, Message, Time}
use chatster.Db.Sqlite.{
  Db, DbError, Faults, save_message_for_user_in_room, save_moderation_event_for_user,
}
use chatster.Hub.State.{Client, Hub, enqueue, room_of, system_notification, update}
use chatster.Hub.Remote.{publish}
pub mod Frames
pub mod Posts
pub mod Lifecycle

abbrev pub max_username_runes : ℕ
max_username_runes = 64

abbrev pub max_message_runes : ℕ
max_message_runes = 4000

unfoldable pub valid_username : Text → Bool
valid_username s = if is_nil s then false else leb (length s) max_username_runes

unfoldable pub valid_message_body : Text → Bool
valid_message_body s = if is_nil s then false else leb (length s) max_message_runes

-- What surrounds one frame.
pub record Frame : Type 0 where
  pub message : Message
  pub allowed : Bool
  pub faults : Faults
  pub now : Time
  pub event_id : Text

-- The hub and its database.
pub record World : Type 0 where
  pub hub : Hub
  pub db : Db

-- How the loop goes on: with the next frame, out of the loop since the hub is closed, or waiting for a
-- place in the broadcast channel.
pub data Next : Type 0 where
  next stop blocked : World → Next

abbrev pub rate_limit_notice : Client → Message
rate_limit_notice c =
    system_notification (room_of c)
      (codes "You are sending messages too quickly. Please slow down.")

-- `setUsername`
abbrev pub set_username : ℕ → Text → Hub → Hub
set_username id name h = record h {
  objects = update h.objects id (record (h.objects id) { username = name });
}

-- `sendRateLimitNotice`
unfoldable pub send_rate_limit_notice : ℕ → Hub → Hub
send_rate_limit_notice id h = record h {
  objects = update h.objects id (enqueue (rate_limit_notice (h.objects id)) (h.objects id)).0;
}

module _ ⦃u : Unicode⦄ ⦃d : Driver⦄ where
  -- `auditRejectedMessage`: an error is only logged
  unfoldable pub audit_rejected_message : Frame → ℕ → Text → Text → World → World
  audit_rejected_message f id reason content w =
      let c = w.hub.objects id in
      record w {
        db =
            (save_moderation_event_for_user f.faults f.now c.session_id c.user_id c.username reason
              content w.db).1;
      }

  -- A frame of type `username`.
  unfoldable pub handle_username : Frame → ℕ → World → World
  handle_username f id w =
      if (w.hub.objects id).authenticated
      then audit_rejected_message f id (codes "identity_override") f.message.content w
      else let name = trim_space f.message.content in
        if not (valid_username name)
        then audit_rejected_message f id (codes "invalid_username") f.message.content w
        else record w { hub = set_username id name w.hub }

  -- The message that is broadcast, before the database gives it a key and a time.
  unfoldable pub stamped : Frame → Client → Message
  stamped f c = record f.message {
    msg_type = codes "message";
    content = trim_space f.message.content;
    user_id = c.user_id;
    username = c.username;
    room = room_of c;
  }

  -- The key and the time of the stored message, if it was stored.
  unfoldable pub keyed : Message → Result DbError Message → Message
  keyed m (ok saved) = record m { id = saved.id; timestamp = saved.timestamp }
  keyed m (err e) = m
      -- How the loop goes on after `publishContext`.

  abbrev pub published : Hub → Db → Option (Hub × Bool) → Next
  published waiting db none = blocked (record { hub = waiting; db = db })
  published waiting db (some (h, true)) = next (record { hub = h; db = db })
  published waiting db (some (h, false)) = stop (record { hub = h; db = db })

  unfoldable pub publish_stamped : Frame → Message → World → Next
  publish_stamped f m w =
      let saved =
        save_message_for_user_in_room f.faults f.now m.room m.user_id m.username m.content
          m.msg_type w.db in
      published w.hub saved.1 (publish f.event_id (keyed m saved.0) w.hub)

  -- One round of the loop of `readMessages`.
  unfoldable pub handle_frame : Frame → ℕ → World → Next
  handle_frame f id w =
      if f.message.msg_type == codes "username"
      then next (handle_username f id w)
      else let body = trim_space f.message.content in
        if not (valid_message_body body)
        then next (audit_rejected_message f id (codes "invalid_body") f.message.content w)
        else if not f.allowed
        then next (notify (audit_rejected_message f id (codes "rate_limited") body w))
        else publish_stamped f (stamped f (w.hub.objects id)) w
    where
      notify : World → World
      notify audited = record audited { hub = send_rate_limit_notice id audited.hub }
