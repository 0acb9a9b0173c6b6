-- ===== src/Tests/Relay.antt =====
-- An event on its way through Redis.
use chatster.Prelude.{
  All, Bool, List, [], any, false, if◌then◌else◌, list_beq, min, ok, refl, some, true, ℕ, ◌*◌, ◌++◌,
  ◌^◌, ◌↔◌, ◌∷◌, ◌≡◌, nat_eq, list_eq,
}
use chatster.Text.{
  Text, codes, is_digit, is_lower, is_space, is_upper, lower_rune, trim_left, trim_right,
  trim_space,
}
use chatster.Db.Room.{check_rest, check_runes, normalize_room}
use chatster.Events.{
  Envelope, channel, channel_pattern, check_lowered_token, check_token, normalize_token,
  valid_user_id, validate,
}
use chatster.Events
use chatster.Events.Validity.{IsValid}
use chatster.Hub.Remote.Offers.{takes}
use chatster.Hub.Remote.Loops.{Relays}
use chatster.Broker.{
  Attempt, Packet, RedisFanout, Trace, handle_events, next_backoff, next_packet, packet_of,
  publish_next, receive, receive_all, run, run_loop,
}
use chatster.Broker.Backoff.{arrived, ends, run-handles, run-waits}
use chatster.Broker.Delivery.{packet_of-receive, publish-delivered}
use chatster.Tests.Chat.{
  hello, hello_event, hello_published, hub, other_hub, other_hub-IsWindow, relayed_hub,
}
use chatster.Tests.Codecs.{ascii, envelope_wire, envelope_wire_laws}

abbrev fanout_of : Text → RedisFanout ℕ
fanout_of id = record { client = 0; namespace = codes "chat"; instance_id = id; ready = false }

abbrev hello_packet : Packet
hello_packet = record {
  channel = codes "chatster:v1:chat:room:general";
  payload =
      21
      ∷ 5
      ∷ 7
      ∷ 2
      ∷ 0
      ∷ 3
      ∷ 5
      ∷ 1
      ∷ 5
      ∷ 1
      ∷ 7
      ∷ codes "chatster.room-messageevt_1generala1Annhellomessage";
}

hello_packed : packet_of envelope_wire (fanout_of (codes "a1")) hello_event ≡ ok hello_packet
unfolding packet_of list_beq Events.channel Events.validate Events.valid_user_id
    Events.normalize_token Events.check_lowered_token Events.check_token normalize_room check_rest
    check_runes trim_space trim_left trim_right is_space is_lower is_digit is_upper lower_rune
hello_packed = refl

packet_of-receive_example :
    (receive envelope_wire (fanout_of (codes "b2")) hello_packet ≡ some hello_event)
    ↔ (normalize_token (codes "chat") ≡ normalize_token (codes "chat"))
packet_of-receive_example =
    packet_of-receive envelope_wire envelope_wire_laws (fanout_of (codes "a1"))
      (fanout_of (codes "b2")) hello_event hello_packet hello_packed

hello_given :
    (publish_next envelope_wire (fanout_of (codes "a1")) relayed_hub).1 ≡ some hello_packet
unfolding publish_next next_packet packet_of list_beq Events.channel Events.validate
    Events.valid_user_id Events.normalize_token Events.check_lowered_token Events.check_token
    normalize_room check_rest check_runes trim_space trim_left trim_right is_space is_lower is_digit
    is_upper lower_rune
hello_given = refl

abbrev never_late : Envelope → Bool
never_late e = false

publish-delivered_example :
    (e : Envelope) × Relays e (codes "evt_1") hello hub.instance_id
    × ((handle_events never_late
          (receive_all envelope_wire (fanout_of (codes "b2")) (hello_packet ∷ []))
          other_hub).broadcast
        ≡ (if takes (never_late e) e other_hub
            then other_hub.broadcast ++ hello ∷ []
            else other_hub.broadcast))
publish-delivered_example =
    publish-delivered envelope_wire envelope_wire_laws never_late (fanout_of (codes "a1"))
      (fanout_of (codes "b2")) (codes "evt_1") hello hub relayed_hub other_hub hello_packet
      hello_published refl hello_given refl other_hub-IsWindow

-- The first subscription fails, the second one receives a packet and is then cancelled.
abbrev two_attempts : List Attempt
two_attempts =
    record { subscribed = false; received = []; cancelled = false; cancelled_in_wait = false }
    ∷ record {
      subscribed = true;
      received = hello_packet ∷ [];
      cancelled = false;
      cancelled_in_wait = true;
    }
    ∷ []

abbrev two_attempts_trace : Trace
two_attempts_trace = record {
  handled = hello_event ∷ [];
  waits = 100 ∷ 200 ∷ [];
  ready = true;
  returned = true;
}

run-two_attempts : run envelope_wire (fanout_of (codes "b2")) two_attempts ≡ ok two_attempts_trace
unfolding run run_loop next_backoff receive_all receive list_beq Events.channel
    Events.channel_pattern Events.validate Events.valid_user_id Events.normalize_token
    Events.check_lowered_token Events.check_token normalize_room check_rest check_runes trim_space
    trim_left trim_right is_space is_lower is_digit is_upper lower_rune
run-two_attempts = refl

run-handles_example :
    (two_attempts_trace.returned ≡ any ends two_attempts)
    × (two_attempts_trace.handled
        ≡ receive_all envelope_wire (fanout_of (codes "b2")) (arrived two_attempts))
    × All IsValid two_attempts_trace.handled
run-handles_example =
    run-handles envelope_wire (fanout_of (codes "b2")) two_attempts two_attempts_trace
      run-two_attempts

run-waits_example : 200 ≡ min (100 * 2 ^ 1) 5000
run-waits_example =
    run-waits envelope_wire (fanout_of (codes "b2")) two_attempts two_attempts_trace 1 200
      run-two_attempts refl
