-- ===== src/Hub/Presence/Welcome.antt =====
-- What a new client finds in its queue.
use mathlib.Core.List.{Perm, append_assoc, append-nil}
use chatster.Prelude.{
  Bool, List, [], ap, arith, eq_refl, false, keep, length, length-append, length-shown, map, ok,
  refl, reverse, sym, take, true, ℕ, ◌++◌, ◌+◌, ◌<◌, ◌==◌, ◌∙◌, ◌∷◌, ◌≡◌, ◌≤◌, nat_eq, list_eq,
}
use chatster.Text.{Text, Unicode, to_lower, trim_space}
use chatster.Db.Room.Canonical.{RoomOf}
use chatster.Db.Rows.{Driver, Message, Row, Time}
use chatster.Db.Sqlite.{Faults, get_recent_messages_in_room, read_row}
use chatster.Db.Sqlite.Order.{Descending}
use chatster.Db.Sqlite.Sound.{IsSound}
use chatster.Db.Sqlite.History.{get_recent_messages_lem}
use chatster.Hub.State.{Client, enqueue, outbound_queue_size, room_of}
use chatster.Hub.Fanout.Single.{enqueue_lem, has_room_for_message}
use chatster.Hub.Client.{World}
use chatster.Hub.Presence.{
  enqueue_history, enqueue_welcome, history_limit, send_message_history, welcome,
}

enqueue-free :
    (m : Message) (c : Client)
    → c.done ≡ false
    → length c.send < outbound_queue_size
    → enqueue m c ≡ (record c { send = c.send ++ m ∷ [] }, true)
enqueue-free m c open' free =
    let has : has_room_for_message c ≡ true = ground arith in enqueue_lem m c ∙ rw has refl

-- Messages for which there is a place are all queued, in their order.
enqueue_history-all :
    (ms : List Message) (c : Client)
    → c.done ≡ false
    → length c.send + length ms ≤ outbound_queue_size
    → enqueue_history ms c ≡ (record c { send = c.send ++ ms }, true)
unfolding enqueue_history
enqueue_history-all [] c open' n =
    let same : c.send ≡ c.send ++ [] = sym (append-nil c.send) in
    ap (λ s. (record c { send = s }, true)) same
enqueue_history-all (m ∷ ms) c open' n =
    let c' : Client = record c { send = c.send ++ m ∷ [] } in
    let rest = enqueue_history-all ms c' open' (omega (arith, n, length-append c.send (m ∷ []))) in
    rw (enqueue-free m c open' (omega (arith, n)), rest)
      (ap (λ s. (record c { send = s }, true)) (append_assoc c.send (m ∷ []) ms))

send_message_history-object :
    ⦃u : Unicode⦄ ⦃d : Driver⦄ (fails : Faults) (now : Time) (id : ℕ) (w : World)
    (ms : List Message)
    → get_recent_messages_in_room fails now (room_of (w.hub.objects id)) history_limit w.db ≡ ok ms
    → (send_message_history fails now id w).hub.objects id
      ≡ enqueue_welcome
          (welcome (room_of (w.hub.objects id)))
          (enqueue_history ms (w.hub.objects id))
unfolding send_message_history
send_message_history-object fails now id w ms found =
    rw (found, eq_refl id, send_message_history) refl

module _ ⦃u : Unicode⦄ ⦃d : Driver⦄ where
  -- A client whose queue is open and empty has, once the history is sent and if the query on sound
  -- tables succeeds, in its queue: the newest 50 messages of the normalised room in chronological
  -- order (the first 50 in reverse of a list of all rows of that room that is strictly descending by
  -- time and then identifier), and then the welcome.
  pub send_message_history_lem :
      (fails : Faults) (now : Time) (id : ℕ) (w : World) (ms : List Message)
      → IsSound w.db
      → (w.hub.objects id).done ≡ false
      → (w.hub.objects id).send ≡ []
      → get_recent_messages_in_room fails now (room_of (w.hub.objects id)) history_limit w.db
        ≡ ok ms
      → (room : Text) × (l : List Row) × RoomOf
          (to_lower (trim_space (room_of (w.hub.objects id))))
          room
        × Perm l (keep (λ r. r.room == room) w.db.rows)
        × Descending l
        × (((send_message_history fails now id w).hub.objects id).send
            ≡ reverse (map (read_row now) (take history_limit l))
              ++ welcome (room_of (w.hub.objects id)) ∷ [])
  unfolding enqueue_welcome
  send_message_history_lem fails now id w ms sound open' empty found =
      let (room, l, named, same_rows, ordered, shown) =
        get_recent_messages_lem fails now (room_of (w.hub.objects id)) history_limit w.db ms sound
          found in
      let short : length ms ≤ 50 =
        rw shown (omega (arith, length-shown (read_row now) history_limit l)) in
      let none_waits : length c.send ≡ 0 = rw empty refl in
      let queue = enqueue_history-all ms c open' (omega (arith, short, none_waits)) in
      let last =
        enqueue-free m (record c { send = c.send ++ ms }) open'
          (omega (arith, length-append c.send ms, short, none_waits)) in
      (
        room,
        l,
        named,
        same_rows,
        ordered,
        ap (λ (x : Client). x.send) (send_message_history-object fails now id w ms found)
            ∙ ap (λ x. (enqueue_welcome m x).send) queue
            ∙ ap (λ (x : Client × Bool). x.0.send) last
            ∙ ap (λ s. (s ++ ms) ++ m ∷ []) empty
            ∙ ap (λ x. x ++ m ∷ []) shown,
      )
    where
      c : Client
      c = w.hub.objects id

      m : Message
      m = welcome (room_of c)
