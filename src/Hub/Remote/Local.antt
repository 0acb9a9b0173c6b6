-- ===== src/Hub/Remote/Local.antt =====
-- What publishing in backend/hub.go leaves alone on this instance.
use chatster.Prelude.{
  Bool, Bool-cases, List, Option-cases, Result-cases, [], ap, arith, inl, inr, length, ltb, not,
  refl, some, sym, ◌++◌, ◌==◌, ◌||◌, ◌∙◌, ◌∷◌, ◌≡◌, nat_eq, list_eq,
}
use chatster.Text.{Text, Unicode}
use chatster.Db.Rows.{Message}
use chatster.Events.{Envelope, new}
use chatster.Events
use chatster.Hub.State.{Hub, broadcast_buffer}
use chatster.Hub.Remote.{offer_event, payload_of, publish, queue_broker_message}

module _ ⦃u : Unicode⦄ where
  offer_event-broadcast :
      (e : Envelope) (queue : List Envelope) (h : Hub)
      → (offer_event e queue h).broadcast ≡ h.broadcast
  unfolding offer_event
  offer_event-broadcast e queue h = ground arith

  offer_event-objects :
      (e : Envelope) (queue : List Envelope) (h : Hub) → (offer_event e queue h).objects ≡ h.objects
  unfolding offer_event
  offer_event-objects e queue h = ground arith

  -- Relaying a message changes nothing that is local.
  pub queue_broker_message-local :
      (id : Text) (m : Message) (h : Hub)
      → ((queue_broker_message id m h).broadcast ≡ h.broadcast)
        × ((queue_broker_message id m h).objects ≡ h.objects)
  unfolding queue_broker_message
  queue_broker_message-local id m h = elim (Bool-cases h.has_fanout) [
    | inr off ↦ rw off (refl, refl)
    | inl on ↦ elim (Option-cases h.broker_publish) [
      | inl nil ↦ rw (on, nil) (refl, refl)
      | inr (queue, some') ↦ elim (Bool-cases (m.id == 0 || m.timestamp == 0)) [
        | inl bad ↦ rw (on, some', bad) (refl, refl)
        | inr good ↦
            elim (Result-cases (Events.new id m.room h.instance_id (payload_of m) m.timestamp)) [
              | inr (x, bad) ↦ rw (on, some', good, bad) (refl, refl)
              | inl (e, built) ↦
                  rw (on, some', good, built)
                    (offer_event-broadcast e queue h, offer_event-objects e queue h)
            ]
      ]
    ]
  ]

  pub publish-objects :
      (id : Text) (m : Message) (h h' : Hub) (b : Bool)
      → publish id m h ≡ some (h', b)
      → h'.objects ≡ h.objects
  unfolding publish
  publish-objects id m h h' b = elim (Bool-cases h.done) [
    | inl stopped ↦
        rw stopped (λ p. let same : h ≡ h' = cc in sym (ap (λ (x : Hub). x.objects) same))
    | inr runs ↦ elim (Bool-cases (ltb (length h.broadcast) broadcast_buffer)) [
      | inr full ↦ rw (runs, full) (λ p. cc)
      | inl free ↦
          rw (runs, free)
            (λ p.
              let queued : Hub = record h { broadcast = h.broadcast ++ m ∷ [] } in
              let same : queue_broker_message id m queued ≡ h' = cc in
              sym (ap (λ (x : Hub). x.objects) same) ∙ (queue_broker_message-local id m queued).1)
    ]
  ]

  offer_event-clients :
      (e : Envelope) (queue : List Envelope) (h : Hub) → (offer_event e queue h).clients ≡ h.clients
  unfolding offer_event
  offer_event-clients e queue h = ground arith

  queue_broker_message-clients :
      (id : Text) (m : Message) (h : Hub) → (queue_broker_message id m h).clients ≡ h.clients
  unfolding queue_broker_message
  queue_broker_message-clients id m h = elim (Bool-cases h.has_fanout) [
    | inr off ↦ rw off refl
    | inl on ↦ elim (Option-cases h.broker_publish) [
      | inl nil ↦ rw (on, nil) refl
      | inr (queue, some') ↦ elim (Bool-cases (m.id == 0 || m.timestamp == 0)) [
        | inl bad ↦ rw (on, some', bad) refl
        | inr good ↦
            elim (Result-cases (Events.new id m.room h.instance_id (payload_of m) m.timestamp)) [
              | inr (x, bad) ↦ rw (on, some', good, bad) refl
              | inl (e, built) ↦ rw (on, some', good, built) (offer_event-clients e queue h)
            ]
      ]
    ]
  ]

  pub publish-clients :
      (id : Text) (m : Message) (h h' : Hub) (b : Bool)
      → publish id m h ≡ some (h', b)
      → (h'.clients ≡ h.clients) × (b ≡ not h.done)
  unfolding publish
  publish-clients id m h h' b = elim (Bool-cases h.done) [
    | inl stopped ↦
        rw stopped (λ p. let same : h ≡ h' = cc in (sym (ap (λ (x : Hub). x.clients) same), cc))
    | inr runs ↦ elim (Bool-cases (ltb (length h.broadcast) broadcast_buffer)) [
      | inr full ↦ rw (runs, full) (λ p. cc)
      | inl free ↦
          rw (runs, free)
            (λ p.
              let queued : Hub = record h { broadcast = h.broadcast ++ m ∷ [] } in
              let same : queue_broker_message id m queued ≡ h' = cc in
              (
                sym (ap (λ (x : Hub). x.clients) same) ∙ queue_broker_message-clients id m queued,
                cc,
              ))
    ]
  ]
