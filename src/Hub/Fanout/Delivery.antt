-- ===== src/Hub/Fanout/Delivery.antt =====
-- What one broadcast does to every client.
use chatster.Prelude.{
  List, [], contains, if◌then◌else◌, not, true, ℕ, ◌&&◌, ◌∷◌, ◌≡◌, nat_eq, list_eq,
}
use chatster.Db.Rows.{Message}
use chatster.Hub.State.{Hub}
use chatster.Hub.Fanout.Single.{after_delivery, stays}

AllRegistered : List ℕ → Hub → Type 0
AllRegistered [] h = Unit
AllRegistered (i ∷ ids) h = (contains h.clients i ≡ true) × AllRegistered ids h

-- What a round over some of the clients does.
pub record Broadcasts (m : Message) (ids : List ℕ) (h h' : Hub) : Type 0 where
  pub object :
      (k : ℕ)
      → h'.objects k ≡ (if contains ids k then after_delivery m (h.objects k) else h.objects k)
  pub registered :
      (k : ℕ)
      → contains h'.clients k
        ≡ (contains h.clients k && not (contains ids k && not (stays m (h.objects k))))
