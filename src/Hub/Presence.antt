-- ===== src/Hub/Presence.antt =====
-- Who is in a room, of backend/hub.go: `registerClient`, the history that a new client is sent, and
-- the writer of leave notifications. A registration is one step, and so is the goroutine
-- that sends the history, though the code does not hold the lock throughout: no broadcast comes in
-- between.
pub mod Welcome
pub mod Joining
use chatster.Prelude.{
  Bool, List, [], err, false, if◌then◌else◌, ok, true, ℕ, ◌++◌, ◌∷◌, nat_eq, list_eq,
}
use chatster.Text.{Text, Unicode, codes}
use chatster.Db.Rows.{Driver, Message, Time}
use chatster.Db.Sqlite.{Faults, get_recent_messages_in_room, save_message_for_user_in_room}
use chatster.Hub.State.{Client, add_to_set, enqueue, room_of, system_notification, update}
use chatster.Hub.Remote.{publish}
use chatster.Hub.Client.{Next, World, blocked, keyed, next, published, stop}

-- How `registerClient` ends: `false`, `true`, or it waits for a place in the broadcast channel.
pub data Registration : Type 0 where
  refused registered joining : World → Registration

abbrev pub welcome : Text → Message
welcome room =
    system_notification room (codes "Welcome to the chat! You can see the last 50 messages.")

abbrev pub history_limit : ℕ
history_limit = 50

-- The loop over the rows, up to the first one that is not queued.
unfoldable pub enqueue_history : List Message → Client → Client × Bool
enqueue_history [] c = (c, true)
enqueue_history (m ∷ ms) c =
    let rest = enqueue_history ms (enqueue m c).0 in
    if (enqueue m c).1 then rest else ((enqueue m c).0, false)

unfoldable pub enqueue_welcome : Message → Client × Bool → Client
enqueue_welcome m (c, true) = (enqueue m c).0
enqueue_welcome m (c, false) = c

module _ ⦃u : Unicode⦄ ⦃d : Driver⦄ where
  -- `sendMessageHistory`
  unfoldable pub send_message_history : Faults → Time → ℕ → World → World
  send_message_history fails now id w =
      elim (get_recent_messages_in_room fails now (room_of (w.hub.objects id)) history_limit w.db) [
        | err e ↦ w
        | ok messages ↦ record w {
          hub = record (w.hub) {
            objects = update w.hub.objects id (
                enqueue_welcome (welcome (room_of (w.hub.objects id)))
                  (enqueue_history messages (w.hub.objects id)));
          };
        }
      ]

  -- A notification is stored, with an error only logged, and then published.
  unfoldable pub persist_and_publish : Faults → Time → Text → Message → World → Next
  persist_and_publish fails now event_id m w =
      let saved =
        save_message_for_user_in_room fails now m.room [] m.username m.content m.msg_type w.db in
      published w.hub saved.1 (publish event_id (keyed m saved.0) w.hub)

  abbrev pub joined : Next → Registration
  joined (next w) = registered w
  joined (stop w) = registered w
  joined (blocked w) = joining w

  -- `registerClient`
  unfoldable pub register_client : Faults → Time → Text → ℕ → World → Registration
  register_client fails now event_id id w =
      if w.hub.draining
      then refused w
      else joined (
          persist_and_publish fails now event_id
            (system_notification (room_of (w.hub.objects id))
              ((w.hub.objects id).username ++ codes " joined the chat"))
            (record w { hub = record (w.hub) { clients = add_to_set id w.hub.clients } }))

  -- One round of `runLeaveNotifications`; a receive from an empty queue waits.
  unfoldable pub run_leave_notification : Faults → Time → Text → World → Next
  run_leave_notification fails now event_id w = elim w.hub.leave_queue [
    | [] ↦ next w
    | m ∷ rest ↦
        persist_and_publish fails now event_id m
          (record w { hub = record (w.hub) { leave_queue = rest } })
  ]
