-- ===== src/Hub/Presence/Joining.antt =====
-- What the registration of a client does.
use chatster.Prelude.{[], contains, false, true, ℕ, ◌++◌, ◌∷◌, ◌≡◌, ◌⊎◌, nat_eq, list_eq}
use chatster.Text.{Text, codes}
use chatster.Db.Rows.{Message}
use chatster.Db.Sqlite.{Db}
use chatster.Hub.State.{Hub, room_of}
use chatster.Hub.Client.{World}

-- The client is registered, and its room is told.
pub record Joined (id : ℕ) (w w' : World) : Type 0 where
  pub accepted : w.hub.draining ≡ false
  pub member : contains w'.hub.clients id ≡ true
  pub told :
      (w.hub.done ≡ true)
      ⊎ ((m : Message) × (w'.hub.broadcast ≡ w.hub.broadcast ++ m ∷ [])
          × (m.room ≡ room_of (w.hub.objects id))
          × (m.content ≡ (w.hub.objects id).username ++ codes " joined the chat"))
