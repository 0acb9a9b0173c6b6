-- ===== src/Tests/Sockets.antt =====
-- A socket that opens for a guest.
use chatster.Prelude.{Option, [], ltb, some, true, ℕ, ◌-◌, ◌∷◌, nat_eq, list_eq}
use chatster.Text.{codes}
use chatster.Db.Rows.{Message}
use chatster.Auth.Principals.{anonymous_principal}
use chatster.Hub.Client.{World}
use chatster.Server.Ratelimit.{Bucket, WsUpgrade, new_ws_upgrade}
use chatster.Server.Sockets.{Surroundings, socket_client, with_client}
use chatster.Tests.Store.{four_rows, lobby, working}
use chatster.Tests.Joining.{room_world, zoe_joined}
use chatster.Tests.Codecs.{ascii, dotless, one_rune, plain, session_json}

-- A limiter that counts what is left.
abbrev counter : Bucket ℕ ℕ
counter = record { new_limiter = λ r n. n; allow = λ t n. (n - 1, ltb 0 n) }

abbrev surroundings : Surroundings
surroundings = record {
  faults = working;
  now = 99;
  event_id = codes "evt_1";
  random_id = codes "sess_1";
  address = 9;
  upgraded = true;
}

abbrev guest_world : World
guest_world = with_client 9 (socket_client (codes "sess_1") lobby anonymous_principal) room_world

abbrev guest_joined : Message
guest_joined = record zoe_joined { content = codes "Anonymous joined the chat" }

abbrev opened_world : World
opened_world = record {
  hub = record (guest_world.hub) { clients = 9 ∷ []; broadcast = guest_joined ∷ [] };
  db = record four_rows {
    rows =
        record {
          id = 5;
          room = lobby;
          user_id = [];
          username = codes "System";
          content = codes "Anonymous joined the chat";
          msg_type = codes "notification";
          stored = 99 ∷ [];
        }
        ∷ four_rows.rows;
    next_id = 6;
  };
}

abbrev limits : Option (WsUpgrade ℕ ℕ)
limits = some (new_ws_upgrade 5 2)
