-- ===== src/Broker/Delivery.antt =====
-- A message that one instance relays, until the clients of another have it.
use chatster.Prelude.{
  Bool, Bool-cases, List, Option-cases, Result-cases, [], ap, eq→≡, if◌then◌else◌, inl, inr, ok,
  ok-injective, refl, some, some-injective, subst, sym, true, ◌++◌, ◌==◌, ◌↔◌, ◌∙◌, ◌∷◌, ◌≡◌, ◌≢◌,
  nat_eq, list_eq,
}
use chatster.Text.{Text, Unicode}
use chatster.Db.Rows.{Message}
use chatster.Events.{Envelope, channel, normalize_token, validate}
use chatster.Events
use chatster.Events.Channels.{channel-injective}
use chatster.Hub.State.{Hub}
use chatster.Hub.Remote.{handle_remote_event, publish}
use chatster.Hub.Remote.Offers.{takes}
use chatster.Hub.Remote.Loops.{
  Relays, dropped, handle_remote_event-Handled, publish-Relayed, queued,
}
use chatster.Hub.Remote.Seen.{IsWindow}
use chatster.Broker.{
  Packet, RedisFanout, Wire, WireRoundTrips, handle_events, next_packet, packet_of, publish_next,
  receive, receive_all,
}
use chatster.Broker.Filter.{Passes-receive, receive-Passes}

channel-same :
    ⦃u : Unicode⦄ (n n' room : Text)
    → normalize_token n ≡ normalize_token n'
    → Events.channel n room ≡ Events.channel n' room
unfolding Events.channel
channel-same n n' room same = rw same refl

module _ ⦃u : Unicode⦄ {Options : Type 0} (w : Wire) (laws : WireRoundTrips w) where
  -- What is given to the client.
  record IsPacket (b : RedisFanout Options) (e : Envelope) (m : Packet) : Type 0 where
    valid : validate e ≡ ok tt
    own : e.origin_instance ≡ b.instance_id
    on_channel : Events.channel b.namespace e.room ≡ ok m.channel
    encoded : w.marshal e ≡ some m.payload

  packet_of-IsPacket :
      (b : RedisFanout Options) (e : Envelope) (m : Packet)
      → packet_of w b e ≡ ok m
      → IsPacket b e m
  unfolding packet_of
  packet_of-IsPacket b e m = elim (Result-cases (validate e)) [
    | inr (x, v) ↦ rw v (λ h. cc)
    | inl (x, v) ↦ elim (Bool-cases (e.origin_instance == b.instance_id)) [
      | inr o ↦ rw (v, o) (λ h. cc)
      | inl o ↦ elim (Result-cases (Events.channel b.namespace e.room)) [
        | inr (y, c) ↦ rw (v, o, c) (λ h. cc)
        | inl (c, k) ↦ elim (Option-cases (w.marshal e)) [
          | inl s ↦ rw (v, o, k, s) (λ h. cc)
          | inr (p, s) ↦
              rw (v, o, k, s)
                (λ h.
                  let same = ok-injective h in
                  subst (IsPacket b e) same (record {
                    valid = v;
                    own = eq→≡ e.origin_instance b.instance_id o;
                    on_channel = k;
                    encoded = s;
                  }))
        ]
      ]
    ]
  ]

  -- What one instance publishes, an instance of the same namespace hands to its hub as it was, and an
  -- instance of another namespace never hands over, on whatever channel it receives it.
  pub packet_of-receive :
      (b b' : RedisFanout Options) (e : Envelope) (m : Packet)
      → packet_of w b e ≡ ok m
      → (receive w b' m ≡ some e) ↔ (normalize_token b.namespace ≡ normalize_token b'.namespace)
  packet_of-receive b b' e m h =
      let p = packet_of-IsPacket b e m h in
      (
        λ r.
            (channel-injective b.namespace b'.namespace e.room e.room m.channel p.on_channel
              (receive-Passes w b' m e r).on_channel).0,
        λ same. Passes-receive w b' m e (record {
          decoded = laws e m.payload p.encoded;
          valid = p.valid;
          on_channel = sym (channel-same b.namespace b'.namespace e.room same) ∙ p.on_channel;
        }),
      )

  next_packet-some :
      (b : RedisFanout Options) (e : Envelope) (queue : List Envelope) (p : Packet)
      → next_packet w b (some (e ∷ queue)) ≡ some p
      → packet_of w b e ≡ ok p
  unfolding next_packet
  next_packet-some b e queue p = elim (Result-cases (packet_of w b e)) [
    | inr (x, r) ↦ rw (next_packet, r) (λ k. cc)
    | inl (m, r) ↦ rw (next_packet, r) (λ k. ap ok (some-injective m p k))
  ]

  next_packet-nil : (b : RedisFanout Options) (p : Packet) → next_packet w b (some []) ≢ some p
  unfolding next_packet
  next_packet-nil b p k = cc

  one_received :
      (b : RedisFanout Options) (e : Envelope) (p : Packet)
      → receive w b p ≡ some e
      → receive_all w b (p ∷ []) ≡ e ∷ []
  unfolding receive_all
  one_received b e p r = rw (receive_all, r) refl

  handled_one :
      (late : Envelope → Bool) (b : RedisFanout Options) (e : Envelope) (p : Packet) (h : Hub)
      → receive w b p ≡ some e
      → handle_events late (receive_all w b (p ∷ [])) h ≡ handle_remote_event (late e) e h
  unfolding handle_events receive_all
  handled_one late b e p h r = ap (λ es. handle_events late es h) (one_received b e p r)

  -- When a hub with an empty relay queue publishes a message and its publisher gives the client a
  -- packet, then a hub whose subscription of the same namespace receives the packet has the very
  -- message at the end of its local queue, if it takes the event that relays it, and otherwise its
  -- local queue is as before.
  pub publish-delivered :
      (late : Envelope → Bool) (b b' : RedisFanout Options) (id : Text) (m : Message)
      (h h' other : Hub) (p : Packet)
      → publish id m h ≡ some (h', true)
      → h.broker_publish ≡ some []
      → (publish_next w b h').1 ≡ some p
      → normalize_token b.namespace ≡ normalize_token b'.namespace
      → IsWindow other
      → (e : Envelope) × Relays e id m h.instance_id
        × ((handle_events late (receive_all w b' (p ∷ [])) other).broadcast
            ≡ (if takes (late e) e other then other.broadcast ++ m ∷ [] else other.broadcast))
  unfolding publish_next
  publish-delivered late b b' id m h h' other p published empty given same window =
      elim ((publish-Relayed id m h h' published).2) [
        | dropped why k ↦
            absurd (next_packet-nil b p (subst (λ o. next_packet w b o ≡ some p) (k ∙ empty) given))
        | queued e queue on after room r ↦
            let none_before : queue ≡ [] = some-injective queue [] (sym on ∙ empty) in
            let first : h'.broker_publish ≡ some (e ∷ []) =
              after ∙ ap (λ q. some (q ++ e ∷ [])) none_before in
            let handed =
              next_packet-some b e [] p (subst (λ o. next_packet w b o ≡ some p) first given) in
            let arrives = (packet_of-receive b b' e p handed).1 same in
            (
              e,
              r,
              ap (λ (x : Hub). x.broadcast) (handled_one late b' e p other arrives)
                  ∙ (handle_remote_event-Handled (late e) e other window).delivered
                  ∙ ap
                      (λ x.
                        if takes (late e) e other
                        then other.broadcast ++ x ∷ []
                        else other.broadcast)
                      r.carries,
            )
      ]
