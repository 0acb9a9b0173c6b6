-- ===== src/Tests/Chat.antt =====
-- The hub: a broadcast, the relay of a message to another instance, and the frames of a client.
use chatster.Prelude.{
  List, [], contains, false, if◌then◌else◌, leb→le, length, list_beq, ltb→lt, refl, some, take,
  true, ℕ, ◌++◌, ◌==◌, ◌∷◌, ◌≡◌, ◌≤◌, ◌⊎◌, nat_eq, list_eq,
}
use chatster.Text.{
  Text, codes, is_digit, is_lower, is_space, is_upper, lower_rune, trim_left, trim_right,
  trim_space,
}
use chatster.Db.Room.{check_rest, check_runes, normalize_room}
use chatster.Db.Rows.{Message, Row}
use chatster.Db.Sqlite.{Db, fresh, save_message_for_user_in_room}
use chatster.Events
use chatster.Events.{
  Envelope, check_lowered_token, check_token, envelope_version, new, normalize_token, schema_name,
  valid_user_id, validate,
}
use chatster.Hub.State.{Client, Hub, broadcast_buffer, max_seen_broker_events, new_hub}
use chatster.Hub.Remote.{
  handle_remote_event, offer_event, payload_of, publish, queue_broker_message,
  remember_broker_event,
}
use chatster.Hub.Remote.Seen.{IsWindow}
use chatster.Hub.Remote.Window.{remember-IsWindow, remember-duplicate, remember_all}
use chatster.Hub.Remote.Offers.{Handled}
use chatster.Hub.Remote.Loops.{Relayed, handle_remote_event-Handled, publish-Relayed}
use chatster.Hub.Client.{
  Frame, World, handle_frame, keyed, next, publish_stamped, stamped, valid_message_body,
}
use chatster.Hub.Client.Lifecycle.{successes, write_messages, write_messages-take, write_next}
use chatster.Hub.Client.Frames.{KeepsIdentity, handle_frame-identity, world_of}
use chatster.Hub.Client.Posts.{Posted, handle_frame-Posted}
use chatster.Tests.Codecs.{ascii, one_rune}

abbrev client_of : Text → Text → Client
client_of name room = record {
  session_id = codes "s";
  user_id = [];
  username = name;
  authenticated = false;
  auth_expires_at = 0;
  room_field = room;
  send = [];
  done = false;
}

-- Client 1 in the default room, client 2 in a den, and client 3 in the default room, but closed.
abbrev pub three_clients : ℕ → Client
three_clients k =
    if k == 1
    then client_of (codes "Ann") []
    else if k == 2
    then client_of (codes "Bob") (codes "den")
    else record (client_of (codes "Eve") (codes "general")) { done = true }

abbrev pub hello : Message
hello = record {
  id = 7;
  user_id = [];
  username = codes "Ann";
  content = codes "hello";
  msg_type = codes "message";
  room = codes "general";
  timestamp = 5;
}

abbrev pub hub : Hub
hub = record (new_hub three_clients (some (codes "a1"))) {
  clients = 1 ∷ 2 ∷ 3 ∷ [];
  broker_publish = some [];
}

abbrev waiting_hub : Hub
waiting_hub = record hub { broadcast = hello ∷ [] }

abbrev three : List ℕ
three = 1 ∷ 2 ∷ 3 ∷ []

hub-IsWindow : IsWindow hub
hub-IsWindow = record {
  same = λ k. refl;
  distinct = tt;
  bounded = leb→le 0 max_seen_broker_events refl;
}

abbrev pub hello_event : Envelope
hello_event = record {
  schema = schema_name;
  version = envelope_version;
  event_id = codes "evt_1";
  room = codes "general";
  origin_instance = codes "a1";
  timestamp = 5;
  timestamp_utc = true;
  message = payload_of hello;
}

abbrev pub other_hub : Hub
other_hub = new_hub three_clients (some (codes "b2"))

pub other_hub-IsWindow : IsWindow other_hub
other_hub-IsWindow = record {
  same = λ k. refl;
  distinct = tt;
  bounded = leb→le 0 max_seen_broker_events refl;
}

handle_remote_event-Handled_example :
    Handled false hello_event other_hub (handle_remote_event false hello_event other_hub)
handle_remote_event-Handled_example =
    handle_remote_event-Handled false hello_event other_hub other_hub-IsWindow

remember-IsWindow_example : IsWindow (remember_broker_event (codes "evt_1") hub).0
remember-IsWindow_example = remember-IsWindow (codes "evt_1") hub hub-IsWindow

accepted_first : (remember_broker_event (codes "evt_1") hub).1 ≡ true
unfolding remember_broker_event contains
accepted_first = refl

abbrev two_others : List Text
two_others = codes "evt_2" ∷ codes "evt_3" ∷ []

remember-duplicate_example :
    (remember_broker_event
      (codes "evt_1")
      (remember_all two_others (remember_broker_event (codes "evt_1") hub).0)).1
    ≡ false
remember-duplicate_example =
    remember-duplicate (codes "evt_1") two_others hub hub-IsWindow accepted_first
      (ltb→lt 2 max_seen_broker_events refl)

abbrev pub relayed_hub : Hub
relayed_hub = record hub { broadcast = hello ∷ []; broker_publish = some (hello_event ∷ []) }

pub hello_published : publish (codes "evt_1") hello hub ≡ some (relayed_hub, true)
unfolding list_beq publish queue_broker_message offer_event Events.new Events.validate
    Events.valid_user_id Events.normalize_token Events.check_lowered_token Events.check_token
    normalize_room check_rest check_runes trim_space trim_left trim_right is_space is_lower is_digit
    is_upper lower_rune
hello_published = refl

publish-Relayed_example :
    (relayed_hub.broadcast ≡ hub.broadcast ++ hello ∷ [])
    × (length relayed_hub.broadcast ≤ broadcast_buffer)
    × Relayed
        (codes "evt_1")
        hello
        hub.has_fanout
        hub.instance_id
        hub.broker_publish
        relayed_hub.broker_publish
publish-Relayed_example = publish-Relayed (codes "evt_1") hello hub relayed_hub hello_published

abbrev one : ℕ
one = 1

abbrev world : World
world = record { hub = hub; db = fresh }

abbrev frame_of : Text → Text → Frame
frame_of msg_type content = record {
  message = record {
    id = 0;
    user_id = codes "root";
    username = codes "root";
    content = content;
    msg_type = msg_type;
    room = codes "den";
    timestamp = 0;
  };
  allowed = true;
  faults = λ c. false;
  now = 5;
  event_id = codes "evt_1";
}

handle_frame-identity_example :
    KeepsIdentity (one == 1) (world.hub.objects 1) (
      (world_of (handle_frame (frame_of (codes "username") (codes " Zoe ")) 1 world)).hub.objects 1)
handle_frame-identity_example =
    handle_frame-identity (frame_of (codes "username") (codes " Zoe ")) 1 world 1

abbrev saved_row : Row
saved_row = record {
  id = 1;
  room = codes "general";
  user_id = [];
  username = codes "Ann";
  content = codes "hi";
  msg_type = codes "message";
  stored = 5 ∷ [];
}

abbrev saved_db : Db
saved_db = record { rows = saved_row ∷ []; next_id = 2; audit = []; next_audit_id = 1 }

abbrev hi : Message
hi = record hello { id = 1; content = codes "hi" }

abbrev hi_event : Envelope
hi_event = record hello_event { message = payload_of hi }

abbrev hi_world : World
hi_world = record {
  hub = record hub { broadcast = hi ∷ []; broker_publish = some (hi_event ∷ []) };
  db = saved_db;
}

hi_posted : handle_frame (frame_of (codes "shout") (codes " hi ")) 1 world ≡ next hi_world
unfolding list_beq handle_frame stamped keyed publish_stamped valid_message_body
    save_message_for_user_in_room publish queue_broker_message offer_event Events.new
    Events.validate Events.valid_user_id Events.normalize_token Events.check_lowered_token
    Events.check_token normalize_room check_rest check_runes trim_space trim_left trim_right
    is_space is_lower is_digit is_upper lower_rune
hi_posted = refl

handle_frame-Posted_example :
    (hi_world.hub.broadcast ≡ world.hub.broadcast)
    ⊎ Posted (frame_of (codes "shout") (codes " hi ")) 1 world hi_world
handle_frame-Posted_example =
    handle_frame-Posted (frame_of (codes "shout") (codes " hi ")) 1 world hi_world hi_posted

-- A client with two messages whose second write fails.
abbrev busy : Client
busy = record (client_of (codes "Ann") []) { send = hello ∷ record hello { id = 8 } ∷ [] }

write_messages-take_example :
    (write_messages (true ∷ false ∷ true ∷ []) busy).1
    ≡ take (successes (true ∷ false ∷ true ∷ [])) busy.send
write_messages-take_example = write_messages-take (true ∷ false ∷ true ∷ []) busy refl

busy_written : (write_messages (true ∷ false ∷ true ∷ []) busy).1 ≡ hello ∷ []
unfolding write_messages write_next
busy_written = refl
