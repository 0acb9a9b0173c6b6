-- ===== src/Hub/Remote/Offers.antt =====
-- What the helpers of `handleRemoteEvent` in backend/hub.go leave alone.
use chatster.Prelude.{
  Bool, Bool-cases, List, [], arith, contains, false, if◌then◌else◌, inl, inr, length, ltb, not,
  refl, true, ◌&&◌, ◌++◌, ◌==◌, ◌||◌, ◌∷◌, ◌≡◌, nat_eq, list_eq,
}
use chatster.Text.{Text}
use chatster.Db.Rows.{Message}
use chatster.Events.{Envelope}
use chatster.Hub.State.{Drop, Hub, add_to_set, broadcast_buffer, count_drop, max_seen_broker_events}
use chatster.Hub.Remote.{evict_oldest, message_of, offer_message, remember_broker_event}
use chatster.Hub.Remote.Seen.{IsWindow, remember-new}

-- A remote event is given to the clients of this instance: it comes from another instance, is new,
-- and the hub does not drain and has a free place, and it runs or the send comes late.
abbrev pub takes : Bool → Envelope → Hub → Bool
takes late e h =
    not (e.origin_instance == h.instance_id)
    && not (contains h.seen_events e.event_id)
    && not h.draining
    && (not h.done || late)
    && ltb (length h.broadcast) broadcast_buffer

pub record Handled (late : Bool) (e : Envelope) (h h' : Hub) : Type 0 where
  pub delivered :
      h'.broadcast ≡ (if takes late e h then h.broadcast ++ message_of e ∷ [] else h.broadcast)
  pub relayed : h'.broker_publish ≡ h.broker_publish
  pub registered : h'.clients ≡ h.clients
  pub window : IsWindow h'

pub IsWindow-count_drop : (d : Drop) (h : Hub) → IsWindow h → IsWindow (count_drop d h)
IsWindow-count_drop d h v = record { same = v.same; distinct = v.distinct; bounded = v.bounded }

-- What `remember` leaves alone.
pub record Kept (h h' : Hub) : Type 0 where
  pub broadcast : h'.broadcast ≡ h.broadcast
  pub relayed : h'.broker_publish ≡ h.broker_publish
  pub registered : h'.clients ≡ h.clients
  pub draining : h'.draining ≡ h.draining
  pub done : h'.done ≡ h.done

evict-Kept : (ids seen : List Text) (h : Hub) → Kept h (evict_oldest ids seen h)
unfolding evict_oldest
evict-Kept [] seen h = record {
  broadcast = refl;
  relayed = refl;
  registered = refl;
  draining = refl;
  done = refl;
}
evict-Kept (x ∷ ids) seen h = record {
  broadcast = refl;
  relayed = refl;
  registered = refl;
  draining = refl;
  done = refl;
}

pub remember-Kept :
    (id : Text) (h : Hub)
    → contains h.seen_events id ≡ false
    → Kept h (remember_broker_event id h).0
remember-Kept id h e =
    rw (remember-new id h e)
      (elim (Bool-cases (ltb max_seen_broker_events (length (h.seen_event_ids ++ id ∷ [])))) [
        | inl m ↦ rw m (evict-Kept (h.seen_event_ids ++ id ∷ []) (add_to_set id h.seen_events) h)
        | inr m ↦ rw m (record {
          broadcast = refl;
          relayed = refl;
          registered = refl;
          draining = refl;
          done = refl;
        })
      ])

pub remember-first :
    (id : Text) (h : Hub)
    → contains h.seen_events id ≡ false
    → (remember_broker_event id h).1 ≡ true
remember-first id h e =
    rw (remember-new id h e)
      (elim (Bool-cases (ltb max_seen_broker_events (length (h.seen_event_ids ++ id ∷ [])))) [
        | inl m ↦ rw m refl
        | inr m ↦ rw m refl
      ])

pub offer_message-broadcast :
    (late : Bool) (m : Message) (h : Hub)
    → (offer_message late m h).broadcast ≡ (
        if (not h.done || late) && ltb (length h.broadcast) broadcast_buffer
        then h.broadcast ++ m ∷ []
        else h.broadcast)
unfolding offer_message
offer_message-broadcast late m h = ground arith

pub offer_message-relayed :
    (late : Bool) (m : Message) (h : Hub)
    → (offer_message late m h).broker_publish ≡ h.broker_publish
unfolding offer_message
offer_message-relayed late m h = ground arith

pub offer_message-registered :
    (late : Bool) (m : Message) (h : Hub) → (offer_message late m h).clients ≡ h.clients
unfolding offer_message
offer_message-registered late m h = ground arith

IsWindow-same :
    (h h' : Hub)
    → h'.seen_events ≡ h.seen_events
    → h'.seen_event_ids ≡ h.seen_event_ids
    → IsWindow h
    → IsWindow h'
IsWindow-same h h' p q v = record {
  same = λ k. rw (p, q) (v.same k);
  distinct = rw q v.distinct;
  bounded = rw q v.bounded;
}

pub offer_message-IsWindow :
    (late : Bool) (m : Message) (h : Hub) → IsWindow h → IsWindow (offer_message late m h)
unfolding offer_message
offer_message-IsWindow late m h v =
    IsWindow-same h (offer_message late m h) (ground arith) (ground arith) v
