-- ===== src/Hub/Fanout/Single.antt =====
-- The delivery to a single client, of the event loop of backend/hub.go.
use chatster.Prelude.{
  Bool, Bool-cases, List, [], ap, ap₂, arith, contains, eq→≡, false, if◌then◌else◌, inl, inr,
  length, ltb, not, refl, sym, true, ℕ, ◌&&◌, ◌++◌, ◌==◌, ◌||◌, ◌∙◌, ◌∷◌, ◌≡◌, nat_eq, list_eq,
}
use chatster.Db.Rows.{Message}
use chatster.Hub.State.{
  Client, Hub, anonymous_name, close_client, count_drop, delete, disconnect_client_locked, enqueue,
  outbound_queue_size, queue_leave_notification, slow_client, update,
}
use chatster.Hub.Fanout.{deliver, is_addressed}

pub contains-delete :
    (a k : ℕ) (xs : List ℕ) → contains (delete a xs) k ≡ (contains xs k && not (a == k))
unfolding contains delete
contains-delete a k [] = refl
contains-delete a k (x ∷ xs) = ground (arith, contains-delete a k xs)

-- The client can take one more message.
abbrev pub has_room_for_message : Client → Bool
has_room_for_message c = not c.done && ltb (length c.send) outbound_queue_size

-- A client of another room stays as it is; one that can take the message has it at the end of its
-- queue; any other is closed.
unfoldable pub after_delivery : Message → Client → Client
after_delivery m c =
    if not (is_addressed m c)
    then c
    else if has_room_for_message c
    then record c { send = c.send ++ m ∷ [] }
    else record c { done = true }

abbrev pub stays : Message → Client → Bool
stays m c = not (is_addressed m c) || has_room_for_message c

queue_leave-objects : (m : Message) (h : Hub) → (queue_leave_notification m h).objects ≡ h.objects
unfolding queue_leave_notification
queue_leave-objects m h = ground arith

queue_leave-clients : (m : Message) (h : Hub) → (queue_leave_notification m h).clients ≡ h.clients
unfolding queue_leave_notification
queue_leave-clients m h = ground arith

-- What a disconnection leaves behind.
pub disconnect-registered :
    (id : ℕ) (h : Hub)
    → contains h.clients id ≡ true
    → ((disconnect_client_locked id h).clients ≡ delete id h.clients)
      × ((disconnect_client_locked id h).objects
          ≡ update h.objects id (close_client (h.objects id)))
unfolding disconnect_client_locked
disconnect-registered id h r = elim (Bool-cases ((h.objects id).username == anonymous_name)) [
  | inl e ↦ rw (r, e) (refl, refl)
  | inr e ↦ rw (r, e) (ground arith, ground arith)
]

pub enqueue_lem :
    (m : Message) (c : Client)
    → enqueue m c ≡ (
        if has_room_for_message c then (record c { send = c.send ++ m ∷ [] }, true) else (c, false))
unfolding enqueue
enqueue_lem m c = ground arith

-- The three ways a delivery goes.
deliver-skips :
    (m : Message) (id : ℕ) (h : Hub) → is_addressed m (h.objects id) ≡ false → deliver m id h ≡ h
unfolding deliver
deliver-skips m id h e = rw e

deliver-queues :
    (m : Message) (id : ℕ) (h : Hub)
    → is_addressed m (h.objects id) ≡ true
    → has_room_for_message (h.objects id) ≡ true
    → deliver m id h ≡ record h {
      objects =
          update h.objects id (record (h.objects id) { send = (h.objects id).send ++ m ∷ [] });
    }
unfolding deliver
deliver-queues m id h e r = rw (e, enqueue_lem m (h.objects id), r)

deliver-disconnects :
    (m : Message) (id : ℕ) (h : Hub)
    → is_addressed m (h.objects id) ≡ true
    → has_room_for_message (h.objects id) ≡ false
    → deliver m id h
      ≡ disconnect_client_locked id
          (count_drop slow_client (record h { objects = update h.objects id (h.objects id) }))
unfolding deliver
deliver-disconnects m id h e r = rw (e, enqueue_lem m (h.objects id), r)

update_lem :
    (o : ℕ → Client) (id : ℕ) (c : Client) (k : ℕ) → update o id c k ≡ (if id == k then c else o k)
update_lem o id c k = ground arith

-- What a delivery to a registered client does to all objects and to the map.
pub record Delivered (m : Message) (id : ℕ) (h h' : Hub) : Type 0 where
  pub object :
      (k : ℕ) → h'.objects k ≡ (if id == k then after_delivery m (h.objects id) else h.objects k)
  pub registered :
      (k : ℕ)
      → contains h'.clients k
        ≡ (contains h.clients k && not (id == k && not (stays m (h.objects id))))

if_self : (o : ℕ → Client) (id k : ℕ) → o k ≡ (if id == k then o id else o k)
if_self o id k = elim (Bool-cases (id == k)) [
  | inl e ↦ rw e (ap o (sym (eq→≡ id k e)))
  | inr e ↦ rw e refl
]

and_kept : (b x : Bool) → b ≡ (b && not (x && false))
and_kept b x = ground arith

and_dropped : (b x : Bool) → (b && not x) ≡ (b && not (x && true))
and_dropped b x = ground arith

update_self : (o : ℕ → Client) (id k : ℕ) → update o id (o id) k ≡ o k
update_self o id k = update_lem o id (o id) k ∙ sym (if_self o id k)

update_twice :
    (o : ℕ → Client) (id : ℕ) (k : ℕ)
    → update (update o id (o id)) id (close_client (update o id (o id) id)) k
      ≡ (if id == k then close_client (o id) else o k)
update_twice o id k =
    update_lem (update o id (o id)) id (close_client (update o id (o id) id)) k
    ∙ ap₂ (λ (a b : Client). if id == k then a else b) (ap close_client (update_self o id id))
        (update_self o id k)

pub deliver-Delivered :
    (m : Message) (id : ℕ) (h : Hub)
    → contains h.clients id ≡ true
    → Delivered m id h (deliver m id h)
unfolding after_delivery
deliver-Delivered m id h r = elim (Bool-cases (is_addressed m (h.objects id))) [
  | inr e ↦ rw (deliver-skips m id h e) (record {
    object = λ k. rw e (if_self h.objects id k);
    registered = λ k. rw e (and_kept (contains h.clients k) (id == k));
  })
  | inl e ↦ elim (Bool-cases (has_room_for_message (h.objects id))) [
    | inl r' ↦ rw (deliver-queues m id h e r') (record {
      object = λ k. rw (e, r') (update_lem h.objects id _ k);
      registered = λ k. rw (e, r') (and_kept (contains h.clients k) (id == k));
    })
    | inr r' ↦
        let left =
          disconnect-registered id
            (count_drop slow_client (record h { objects = update h.objects id (h.objects id) }))
            r in
        rw (deliver-disconnects m id h e r') (record {
          object = λ k. rw (e, r', left.1) (update_twice h.objects id k);
          registered = λ k.
              rw (e, r', left.0)
                (contains-delete id k h.clients ∙ and_dropped (contains h.clients k) (id == k));
        })
  ]
]

pub and_true : (b : Bool) → b ≡ (b && true)
and_true b = ground arith

pub or_true : (b : Bool) → (b || true) ≡ true
or_true b = ground arith
