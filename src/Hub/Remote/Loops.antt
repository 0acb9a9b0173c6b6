-- ===== src/Hub/Remote/Loops.antt =====
-- The two directions of the fan-out: what an instance relays, and what it does with a remote event.
use chatster.Prelude.{
  Bool, Bool-cases, List, Option, Option-cases, Result-cases, [], ap, arith, contains, eq→≡, err,
  false, if◌then◌else◌, inl, inr, length, length-append, ltb, ltb_false→le, ltb→lt, none, ok, refl,
  some, subst, sym, true, ℕ, ◌++◌, ◌<◌, ◌==◌, ◌||◌, ◌∙◌, ◌∷◌, ◌≡◌, ◌≤◌, ◌⊎◌, nat_eq, list_eq,
}
use chatster.Text.{Text, Unicode}
use chatster.Db.Rows.{Message}
use chatster.Events.{Envelope, EventError, new}
use chatster.Events
use chatster.Events.Validity.{IsValid, new-IsValid}
use chatster.Hub.State.{
  Hub, broadcast_buffer, broker_publish_buffer, duplicate_event, from_loop, while_draining,
}
use chatster.Hub.Remote.{
  handle_remote_event, message_of, offer_event, payload_of, publish, queue_broker_message,
  remember_broker_event,
}
use chatster.Hub.Remote.Seen.{IsWindow}
use chatster.Hub.Remote.Window.{remember-IsWindow, remember-seen}
use chatster.Hub.Remote.Local.{queue_broker_message-local}
use chatster.Hub.Remote.Offers.{
  Handled, IsWindow-count_drop, Kept, offer_message-IsWindow, offer_message-broadcast,
  offer_message-registered, offer_message-relayed, remember-Kept, remember-first,
}

Handled-either :
    (late : Bool) (e : Envelope) (h : Hub) (b : Bool) {x y : Hub}
    → (b ≡ true → Handled late e h x)
    → (b ≡ false → Handled late e h y)
    → Handled late e h (if b then x else y)
Handled-either late e h true f g = f refl
Handled-either late e h false f g = g refl

-- A remote event reaches the local clients exactly when it comes from another instance, has not been
-- seen, and the hub is not draining, has a free place, and is not stopped, or is stopped and the send
-- that is then possible takes place; whatever the case, it is
-- not relayed again, no client is registered or removed, and the window of seen events stays
-- well-formed.
pub handle_remote_event-Handled :
    (late : Bool) (e : Envelope) (h : Hub)
    → IsWindow h
    → Handled late e h (handle_remote_event late e h)
unfolding handle_remote_event
handle_remote_event-Handled late e h v = elim (Bool-cases (e.origin_instance == h.instance_id)) [
  | inl own ↦ rw own (record {
    delivered = rw own refl;
    relayed = refl;
    registered = refl;
    window = IsWindow-count_drop from_loop h v;
  })
  | inr other ↦ elim (Bool-cases (contains h.seen_events e.event_id)) [
    | inl seen ↦
        rw (other, remember-seen e.event_id h seen)
          (record {
            delivered = rw (other, seen) refl;
            relayed = refl;
            registered = refl;
            window = IsWindow-count_drop duplicate_event h v;
          })
    | inr fresh ↦
        let h' = (remember_broker_event e.event_id h).0 in
        let w : IsWindow h' = remember-IsWindow e.event_id h v in
        let k : Kept h h' = remember-Kept e.event_id h fresh in
        rw (other, remember-first e.event_id h fresh)
          (Handled-either late e h h'.draining
            (λ d. record {
              delivered = k.broadcast ∙ rw (other, fresh, sym k.draining ∙ d) refl;
              relayed = k.relayed;
              registered = k.registered;
              window = IsWindow-count_drop while_draining h' w;
            })
            (λ d. record {
              delivered =
                  offer_message-broadcast late (message_of e) h'
                  ∙ rw (k.done, k.broadcast, other, fresh, sym k.draining ∙ d) refl;
              relayed = offer_message-relayed late (message_of e) h' ∙ k.relayed;
              registered = offer_message-registered late (message_of e) h' ∙ k.registered;
              window = offer_message-IsWindow late (message_of e) h' w;
            }))
  ]
]

module _ ⦃u : Unicode⦄ where
  -- An event that carries the message, is valid, and names this instance as its origin.
  pub record Relays (e : Envelope) (id : Text) (m : Message) (instance_id : Text) : Type 0 where
    pub valid : IsValid e
    pub event_id : e.event_id ≡ id
    pub origin : e.origin_instance ≡ instance_id
    pub carries : message_of e ≡ m

  -- Why a message is not relayed: the hub has no fan-out or no relay queue, the message was not
  -- stored, no valid event can carry it, or the queue is full.
  pub data NotRelayed (id : Text) (m : Message) (has_fanout : Bool) (instance_id : Text)
      (before : Option (List Envelope)) : Type 0 where
    no_fanout : has_fanout ≡ false → NotRelayed id m has_fanout instance_id before
    no_queue : before ≡ none → NotRelayed id m has_fanout instance_id before
    not_stored : (m.id ≡ 0) ⊎ (m.timestamp ≡ 0) → NotRelayed id m has_fanout instance_id before
    no_event :
        (x : EventError)
        → Events.new id m.room instance_id (payload_of m) m.timestamp ≡ err x
        → NotRelayed id m has_fanout instance_id before
    full_queue :
        (queue : List Envelope)
        → before ≡ some queue
        → broker_publish_buffer ≤ length queue
        → NotRelayed id m has_fanout instance_id before

  pub data Relayed (id : Text) (m : Message) (has_fanout : Bool) (instance_id : Text)
      (before after : Option (List Envelope)) : Type 0 where
    dropped :
        NotRelayed id m has_fanout instance_id before
        → after ≡ before
        → Relayed id m has_fanout instance_id before after
    queued :
        (e : Envelope) (queue : List Envelope)
        → before ≡ some queue
        → after ≡ some (queue ++ e ∷ [])
        → length queue < broker_publish_buffer
        → Relays e id m instance_id
        → Relayed id m has_fanout instance_id before after

  one_is_zero : (a b : ℕ) → (a == 0 || b == 0) ≡ true → (a ≡ 0) ⊎ (b ≡ 0)
  one_is_zero a b h = elim (Bool-cases (a == 0)) [
    | inl e ↦ inl (eq→≡ a 0 e)
    | inr e ↦ inr (eq→≡ b 0 (rw (e) at h))
  ]

  new-Relays :
      (e : Envelope) (id : Text) (m : Message) (h : Hub)
      → Events.new id m.room h.instance_id (payload_of m) m.timestamp ≡ ok e
      → Relays e id m h.instance_id
  new-Relays e id m h p =
      let v = new-IsValid id m.room h.instance_id (payload_of m) m.timestamp e p in
      record { valid = v.0; event_id = v.1; origin = v.3; carries = rw (v.2, v.4, v.5) refl }

  queue_broker_message-Relayed :
      (id : Text) (m : Message) (h : Hub)
      → Relayed id m h.has_fanout h.instance_id h.broker_publish
          (queue_broker_message id m h).broker_publish
  unfolding queue_broker_message
  queue_broker_message-Relayed id m h = elim (Bool-cases h.has_fanout) [
    | inr off ↦ rw off (dropped (no_fanout refl) refl)
    | inl on ↦ elim (Option-cases h.broker_publish) [
      | inl nil ↦ rw (on, nil) (dropped (no_queue refl) nil)
      | inr (queue, some') ↦ elim (Bool-cases (m.id == 0 || m.timestamp == 0)) [
        | inl bad ↦
            rw (on, some', bad) (dropped (not_stored (one_is_zero m.id m.timestamp bad)) some')
        | inr good ↦
            elim (Result-cases (Events.new id m.room h.instance_id (payload_of m) m.timestamp)) [
              | inr (x, bad) ↦ rw (on, some', good, bad) (dropped (no_event x bad) some')
              | inl (e, built) ↦ elim (Bool-cases (ltb (length queue) broker_publish_buffer)) [
                | inr full ↦
                    rw (on, some', good, built, offer_event, full)
                      (dropped (full_queue queue refl (ltb_false→le _ _ full)) some')
                | inl free ↦
                    rw (on, some', good, built, offer_event, free)
                      (queued e queue refl refl (ltb→lt _ _ free) (new-Relays e id m h built))
              ]
            ]
      ]
    ]
  ]

  -- A message that is published stands at the end of the local queue, which never holds more than
  -- 1024; and either the relay queue has one more event at its end, which is valid, has the given
  -- identifier, names this instance as its origin, and gives back this very message, or the relay
  -- queue is as it was, and then the hub has no fan-out or no relay queue, the message was not stored,
  -- no event can be built for it, or the relay queue is full.
  pub publish-Relayed :
      (id : Text) (m : Message) (h h' : Hub)
      → publish id m h ≡ some (h', true)
      → (h'.broadcast ≡ h.broadcast ++ m ∷ [])
        × (length h'.broadcast ≤ broadcast_buffer)
        × Relayed id m h.has_fanout h.instance_id h.broker_publish h'.broker_publish
  unfolding publish
  publish-Relayed id m h h' = elim (Bool-cases h.done) [
    | inl stopped ↦ rw stopped (λ p. cc)
    | inr runs ↦ elim (Bool-cases (ltb (length h.broadcast) broadcast_buffer)) [
      | inr full ↦ rw (runs, full) (λ p. cc)
      | inl free ↦
          rw (runs, free)
            (λ p.
              let queued : Hub = record h { broadcast = h.broadcast ++ m ∷ [] } in
              let same : queue_broker_message id m queued ≡ h' = cc in
              let b : h'.broadcast ≡ h.broadcast ++ m ∷ [] =
                sym (ap (λ (x : Hub). x.broadcast) same)
                ∙ (queue_broker_message-local id m queued).0 in
              (
                b,
                rw b (
                    omega (
                      arith,
                      length-append h.broadcast (m ∷ []),
                      ltb→lt (length h.broadcast) broadcast_buffer free,
                    )),
                subst
                    (λ (x : Hub).
                      Relayed id m h.has_fanout h.instance_id h.broker_publish x.broker_publish)
                    same (queue_broker_message-Relayed id m queued),
              ))
    ]
  ]
