-- ===== src/Hub/State.antt =====
-- The state of `Hub` in backend/hub.go and of `Client` in backend/client.go. A client is known by
-- its address, a number; `objects` holds what is stored there, so every goroutine that holds the
-- pointer sees one state. A buffered channel is the list of what it holds, the oldest first. The
-- map `h.clients` is the list of its keys in the order of the iteration at hand.
use chatster.Prelude.{
  Bool, Eq, List, Option, [], contains, false, if◌then◌else◌, is_nil, length, ltb, none, not, some,
  true, ℕ, ◌*◌, ◌++◌, ◌==◌, ◌∷◌, nat_eq, list_eq,
}
use chatster.Text.{Text, codes}
use chatster.Db.Room.{default_room}
use chatster.Db.Rows.{Message, Time}
use chatster.Events.{Envelope}

abbrev pub outbound_queue_size : ℕ
outbound_queue_size = 256

abbrev pub broadcast_buffer : ℕ
broadcast_buffer = 1024

abbrev pub leave_notification_queue_size : ℕ
leave_notification_queue_size = 256

abbrev pub max_seen_broker_events : ℕ
max_seen_broker_events = 4096

abbrev pub broker_publish_buffer : ℕ
broker_publish_buffer = outbound_queue_size * 4

-- `done` says that the channel `done` is closed; `auth_expires_at` is 0 without a session.
pub record Client : Type 0 where
  pub session_id : Text
  pub user_id : Text
  pub username : Text
  pub authenticated : Bool
  pub auth_expires_at : Time
  pub room_field : Text
  pub send : List Message
  pub done : Bool

-- The labels of the drop counters.
pub data Drop : Type 0 where
  slow_client leave_backpressure not_persisted invalid_event publish_backpressure : Drop
  from_loop duplicate_event while_draining client_backpressure : Drop

-- `broker_publish` and `drain_events` are none while the channel is nil; `drain_capacity` is the
-- capacity of the latter.
pub record Hub : Type 0 where
  pub objects : ℕ → Client
  pub clients : List ℕ
  pub broadcast : List Message
  pub done : Bool
  pub draining : Bool
  pub drain_events : Option (List ℕ)
  pub drain_capacity : ℕ
  pub drain_pending : List ℕ
  pub finished : List ℕ
  pub instance_id : Text
  pub has_fanout : Bool
  pub broker_publish : Option (List Envelope)
  pub seen_events : List Text
  pub seen_event_ids : List Text
  pub leave_queue : List Message
  pub drops : List Drop

-- `make(map…)`, `make(chan…)` and the instance of the fan-out, if there is one
abbrev pub new_hub : (ℕ → Client) → Option Text → Hub
new_hub objects fanout = record {
  objects = objects;
  clients = [];
  broadcast = [];
  done = false;
  draining = false;
  drain_events = none;
  drain_capacity = 0;
  drain_pending = [];
  finished = [];
  instance_id = elim fanout [ none ↦ [] | some id ↦ id ];
  has_fanout = elim fanout [ none ↦ false | some id ↦ true ];
  broker_publish = none;
  seen_events = [];
  seen_event_ids = [];
  leave_queue = [];
  drops = [];
}

abbrev pub update : (ℕ → Client) → ℕ → Client → ℕ → Client
update objects id c k = if k == id then c else objects k

-- `delete(m, key)` on a map that is used as a set
unfoldable pub delete {ℓ} : {A : Type ℓ} ⦃e : Eq A⦄ → A → List A → List A
delete a [] = []
delete a (x ∷ xs) = let rest = delete a xs in if x == a then rest else x ∷ rest

-- `m[key] = struct{}{}`
unfoldable pub add_to_set {ℓ} : {A : Type ℓ} ⦃e : Eq A⦄ → A → List A → List A
add_to_set a xs = if contains xs a then xs else a ∷ xs

-- `c.room()`
abbrev pub room_of : Client → Text
room_of c = if is_nil c.room_field then default_room else c.room_field

-- `c.enqueue(message)`
unfoldable pub enqueue : Message → Client → Client × Bool
enqueue m c =
    if c.done
    then (c, false)
    else if ltb (length c.send) outbound_queue_size
    then (record c { send = c.send ++ m ∷ [] }, true)
    else (c, false)

-- `c.close()`
abbrev pub close_client : Client → Client
close_client c = record c { done = true }

abbrev pub count_drop : Drop → Hub → Hub
count_drop d h = record h { drops = d ∷ h.drops }

abbrev pub system_notification : Text → Text → Message
system_notification room content = record {
  id = 0;
  user_id = [];
  username = codes "System";
  content = content;
  msg_type = codes "notification";
  room = room;
  timestamp = 0;
}

abbrev pub anonymous_name : Text
anonymous_name = codes "Anonymous"

-- `h.queueLeaveNotification`
unfoldable pub queue_leave_notification : Message → Hub → Hub
queue_leave_notification m h =
    if ltb (length h.leave_queue) leave_notification_queue_size
    then record h { leave_queue = h.leave_queue ++ m ∷ [] }
    else count_drop leave_backpressure h

-- `h.disconnectClientLocked`
unfoldable pub disconnect_client_locked : ℕ → Hub → Hub
unfolding queue_leave_notification
disconnect_client_locked id h =
    if not (contains h.clients id)
    then h
    else let c = h.objects id in
      let closed : Hub = record h {
        clients = delete id h.clients;
        finished = delete id h.finished;
        objects = update h.objects id (close_client c);
      } in
      if c.username == anonymous_name
      then closed
      else queue_leave_notification
          (system_notification (room_of c) (c.username ++ codes " left the chat")) closed
