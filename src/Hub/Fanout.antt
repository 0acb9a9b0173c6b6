-- ===== src/Hub/Fanout.antt =====
-- The event loop of `Hub.run` in backend/hub.go: one broadcast message, one unregistration.
pub mod Single
pub mod Delivery
use chatster.Prelude.{
  Bool, List, [], if◌then◌else◌, is_nil, not, ℕ, ◌&&◌, ◌==◌, ◌∷◌, nat_eq, list_eq,
}
use chatster.Db.Rows.{Message}
use chatster.Hub.State.{
  Client, Hub, count_drop, disconnect_client_locked, enqueue, room_of, slow_client, update,
}

-- The test that skips a client of another room.
abbrev pub is_addressed : Message → Client → Bool
is_addressed m c = not (not (is_nil m.room) && not (room_of c == m.room))

-- One round of the loop over the clients.
unfoldable pub deliver : Message → ℕ → Hub → Hub
deliver m id h =
    if not (is_addressed m (h.objects id))
    then h
    else let (c, accepted) = enqueue m (h.objects id) in
      let h' : Hub = record h { objects = update h.objects id c } in
      if accepted then h' else disconnect_client_locked id (count_drop slow_client h')

unfoldable pub deliver_all : Message → List ℕ → Hub → Hub
deliver_all m [] h = h
deliver_all m (id ∷ ids) h = deliver_all m ids (deliver m id h)

-- What the loop does when it takes an event. Nothing happens once `done` is closed, and a receive
-- from an empty channel waits: both leave the state.
unfoldable pub run_broadcast : Hub → Hub
run_broadcast h = if h.done then h else elim h.broadcast [
  | [] ↦ h
  | m ∷ rest ↦ deliver_all m h.clients (record h { broadcast = rest })
]

unfoldable pub run_unregister : ℕ → Hub → Hub
run_unregister id h = if h.done then h else disconnect_client_locked id h
