-- ===== src/Hub/Remote.antt =====
-- Publishing and remote events of backend/hub.go: `publishContext`, `queueBrokerMessage`,
-- `handleRemoteEvent` and `rememberBrokerEvent`. The identifier of a new event is an argument.
pub mod Seen
pub mod Window
pub mod Offers
pub mod Local
pub mod Loops
use chatster.Prelude.{
  Bool, List, Option, [], contains, err, false, if◌then◌else◌, length, ltb, none, not, ok, some,
  true, ◌&&◌, ◌++◌, ◌==◌, ◌||◌, ◌∷◌, nat_eq, list_eq,
}
use chatster.Text.{Text, Unicode}
use chatster.Db.Rows.{Message}
use chatster.Events.{Envelope, Payload, new}
use chatster.Events
use chatster.Hub.State.{
  Hub, add_to_set, broadcast_buffer, broker_publish_buffer, client_backpressure, count_drop, delete,
  duplicate_event, from_loop, invalid_event, max_seen_broker_events, not_persisted,
  publish_backpressure, while_draining,
}

abbrev pub payload_of : Message → Payload
payload_of m = record {
  id = m.id;
  user_id = m.user_id;
  username = m.username;
  content = m.content;
  msg_type = m.msg_type;
}

abbrev pub message_of : Envelope → Message
message_of e = record {
  id = e.message.id;
  user_id = e.message.user_id;
  username = e.message.username;
  content = e.message.content;
  msg_type = e.message.msg_type;
  room = e.room;
  timestamp = e.timestamp;
}

-- The send of an event that never waits.
unfoldable pub offer_event : Envelope → List Envelope → Hub → Hub
offer_event e queue h =
    if ltb (length queue) broker_publish_buffer
    then record h { broker_publish = some (queue ++ e ∷ []) }
    else count_drop publish_backpressure h

module _ ⦃u : Unicode⦄ where
  unfoldable pub queue_broker_message : Text → Message → Hub → Hub
  unfolding offer_event
  queue_broker_message event_id m h = if not h.has_fanout then h else elim h.broker_publish [
    | none ↦ h
    | some queue ↦
        if m.id == 0 || m.timestamp == 0
        then count_drop not_persisted h
        else elim (Events.new event_id m.room h.instance_id (payload_of m) m.timestamp) [
          | err e ↦ count_drop invalid_event h
          | ok event ↦ offer_event event queue h
        ]
  ]

  -- The result of a call that may wait: `waits` while the channel is full and the hub runs.
  unfoldable pub publish : Text → Message → Hub → Option (Hub × Bool)
  publish event_id m h =
      if h.done
      then some (h, false)
      else if ltb (length h.broadcast) broadcast_buffer
      then some
          (queue_broker_message event_id m (record h { broadcast = h.broadcast ++ m ∷ [] }), true)
      else none

-- The removal of the oldest identifier from the list and the set.
unfoldable pub evict_oldest : List Text → List Text → Hub → Hub
evict_oldest [] seen h = record h { seen_event_ids = []; seen_events = seen }
evict_oldest (oldest ∷ rest) seen h = record h {
  seen_event_ids = rest;
  seen_events = delete oldest seen;
}

unfoldable pub remember_broker_event : Text → Hub → Hub × Bool
unfolding evict_oldest
remember_broker_event id h =
    if contains h.seen_events id
    then (h, false)
    else let ids = h.seen_event_ids ++ id ∷ [] in
      let seen = add_to_set id h.seen_events in
      if ltb max_seen_broker_events (length ids)
      then (evict_oldest ids seen h, true)
      else (record h { seen_event_ids = ids; seen_events = seen }, true)

-- The send of a message that never waits. When the hub is stopped and a place is free, the select may
-- take either case: `late` says whether it sends.
unfoldable pub offer_message : Bool → Message → Hub → Hub
offer_message late m h =
    let free = ltb (length h.broadcast) broadcast_buffer in
    if h.done && not (late && free)
    then h
    else if free
    then record h { broadcast = h.broadcast ++ m ∷ [] }
    else count_drop client_backpressure h

unfoldable pub handle_remote_event : Bool → Envelope → Hub → Hub
handle_remote_event late e h =
    if e.origin_instance == h.instance_id
    then count_drop from_loop h
    else let (h', first) = remember_broker_event e.event_id h in
      if not first
      then count_drop duplicate_event h'
      else if h'.draining
      then count_drop while_draining h'
      else offer_message late (message_of e) h'
