-- ===== src/Broker.antt =====
-- The Redis fan-out of backend/internal/broker/redis.go, and `runBroker`-side use of it: publishing an
-- envelope, filtering what a subscription receives, and the loop that subscribes again. The client of
-- Redis is a parameter: what it answers is an argument of each operation.
pub mod Filter
pub mod Backoff
pub mod Delivery
use chatster.Prelude.{
  Bool, List, Option, Result, [], err, false, if◌then◌else◌, is_nil, ltb, none, not, ok, or_fail,
  reject_if, some, true, ℕ, ◌*◌, ◌++◌, ◌==◌, ◌>>=◌, ◌>>◌, ◌||◌, ◌∷◌, ◌≡◌, nat_eq, list_eq,
}
use chatster.Text.{Text, Unicode, to_lower, trim_space}
use chatster.Events.{Envelope, EventError, channel_pattern, validate, validate_instance_id}
use chatster.Events
use chatster.Hub.State.{Hub}
use chatster.Hub.Remote.{handle_remote_event}

abbrev pub redis_min_backoff : ℕ
redis_min_backoff = 100

abbrev pub redis_max_backoff : ℕ
redis_max_backoff = 5000

-- `encoding/json` on envelopes: `json.Marshal` and `json.Unmarshal`. A number below zero is read as 0.
pub record Wire : Type 0 where
  pub marshal : Envelope → Option Text
  pub unmarshal : Text → Option Envelope

-- What is marshalled is read again as it was.
abbrev pub WireRoundTrips : Wire → Type 0
WireRoundTrips w = (e : Envelope) (s : Text) → w.marshal e ≡ some s → w.unmarshal s ≡ some e

-- The client's package: `redis.ParseURL`, and whether `Ping` of a client of these options succeeds.
pub record Redis (Options : Type 0) : Type 0 where
  pub parse_url : Text → Option Options
  pub ping : Options → Bool

pub record RedisConfig : Type 0 where
  pub url : Text
  pub namespace : Text
  pub instance_id : Text

pub record RedisFanout (Options : Type 0) : Type 0 where
  pub client : Options
  pub namespace : Text
  pub instance_id : Text
  pub ready : Bool

pub data BrokerError : Type 0 where
  no_url bad_url no_connection wrong_origin not_encoded not_published : BrokerError
  bad_namespace bad_instance bad_event bad_channel : EventError → BrokerError

abbrev relabel {ℓ} :
    {A : Type ℓ} → (EventError → BrokerError) → Result EventError A → Result BrokerError A
relabel f (ok a) = ok a
relabel f (err e) = err (f e)

-- A message of the subscription, or one given to the client for publishing.
pub record Packet : Type 0 where
  pub channel : Text
  pub payload : Text

module _ ⦃u : Unicode⦄ where
  unfoldable pub new_redis :
      {Options : Type 0} → Redis Options → RedisConfig → Result BrokerError (RedisFanout Options)
  new_redis r cfg = do
    reject_if (is_nil (trim_space cfg.url)) no_url
    let namespace = to_lower (trim_space cfg.namespace)
    _ ← relabel bad_namespace (Events.channel_pattern namespace)
    let instance_id = to_lower (trim_space cfg.instance_id)
    relabel bad_instance (validate_instance_id instance_id)
    options ← or_fail (r.parse_url (trim_space cfg.url)) bad_url
    reject_if (not (r.ping options)) no_connection
    ok (record {
      client = options;
      namespace = namespace;
      instance_id = instance_id;
      ready = false;
    })

  -- What `Publish` gives the client, up to the client's answer.
  unfoldable pub packet_of :
      {Options : Type 0} → Wire → RedisFanout Options → Envelope → Result BrokerError Packet
  packet_of w b e = do
    relabel bad_event (validate e)
    reject_if (not (e.origin_instance == b.instance_id)) wrong_origin
    c ← relabel bad_channel (Events.channel b.namespace e.room)
    payload ← or_fail (w.marshal e) not_encoded
    ok (record { channel = c; payload = payload })

  -- One message of the subscription: the event that is handled, if any.
  unfoldable pub receive :
      {Options : Type 0} → Wire → RedisFanout Options → Packet → Option Envelope
  receive w b m = elim (w.unmarshal m.payload) [
    | none ↦ none
    | some e ↦ elim (validate e) [
      | err x ↦ none
      | ok x ↦ elim (Events.channel b.namespace e.room) [
        | err x ↦ none
        | ok c ↦ if not (c == m.channel) then none else some e
      ]
    ]
  ]

  unfoldable pub receive_all :
      {Options : Type 0} → Wire → RedisFanout Options → List Packet → List Envelope
  receive_all w b [] = []
  receive_all w b (m ∷ ms) =
      let rest = receive_all w b ms in elim (receive w b m) [ none ↦ rest | some e ↦ e ∷ rest ]

-- One round of the loop of `Run`: whether the subscription succeeded, what it received before it
-- failed, and whether the context was cancelled by then, or in the wait behind it.
pub record Attempt : Type 0 where
  pub subscribed : Bool
  pub received : List Packet
  pub cancelled : Bool
  pub cancelled_in_wait : Bool

-- What the loop did: the events it handed over, its waits in milliseconds, whether `Ready` is closed,
-- and whether it returned.
pub record Trace : Type 0 where
  pub handled : List Envelope
  pub waits : List ℕ
  pub ready : Bool
  pub returned : Bool

unfoldable pub next_backoff : ℕ → ℕ
next_backoff backoff =
    let doubled = backoff * 2 in
    if ltb redis_max_backoff doubled then redis_max_backoff else doubled

module _ ⦃u : Unicode⦄ {Options : Type 0} (w : Wire) (b : RedisFanout Options) where
  -- `subscribeOnce`
  abbrev pub subscribe_once : Attempt → List Envelope
  subscribe_once a = if a.subscribed then receive_all w b a.received else []

  unfoldable pub run_loop : ℕ → Bool → List Attempt → Trace
  run_loop backoff ready [] = record { handled = []; waits = []; ready = ready; returned = false }
  run_loop backoff ready (a ∷ attempts) =
      let rest = run_loop (next_backoff backoff) (ready || a.subscribed) attempts in
      if a.cancelled
      then record {
        handled = subscribe_once a;
        waits = [];
        ready = ready || a.subscribed;
        returned = true;
      }
      else if a.cancelled_in_wait
      then record {
        handled = subscribe_once a;
        waits = backoff ∷ [];
        ready = ready || a.subscribed;
        returned = true;
      }
      else record {
        handled = subscribe_once a ++ rest.handled;
        waits = backoff ∷ rest.waits;
        ready = rest.ready;
        returned = rest.returned;
      }

  unfoldable pub run : List Attempt → Result BrokerError Trace
  run attempts = do
    _ ← relabel bad_channel (Events.channel_pattern b.namespace)
    ok (run_loop redis_min_backoff b.ready attempts)

-- What the publisher of the hub gives the client for the oldest event of its queue, if it takes one.
unfoldable pub next_packet :
    ⦃u : Unicode⦄ {Options : Type 0}
    → Wire
    → RedisFanout Options
    → Option (List Envelope)
    → Option Packet
next_packet w b none = none
next_packet w b (some []) = none
next_packet w b (some (e ∷ queue)) = elim (packet_of w b e) [ ok m ↦ some m | err x ↦ none ]

abbrev rest_of : Option (List Envelope) → Option (List Envelope)
rest_of none = none
rest_of (some []) = some []
rest_of (some (e ∷ queue)) = some queue

-- One round of the publisher.
unfoldable pub publish_next :
    ⦃u : Unicode⦄ {Options : Type 0} → Wire → RedisFanout Options → Hub → Hub × Option Packet
publish_next w b h =
    (record h { broker_publish = rest_of h.broker_publish }, next_packet w b h.broker_publish)

-- The subscriber of the hub: its handler is `handleRemoteEvent`. `late` is what the select of the handler
-- does with an event when the hub is stopped.
unfoldable pub handle_events : (Envelope → Bool) → List Envelope → Hub → Hub
handle_events late [] h = h
handle_events late (e ∷ es) h = handle_events late es (handle_remote_event (late e) e h)
