-- ===== src/Server/Sockets.antt =====
-- `serveWs` of backend/server.go. The connection that the websocket library makes, the random session
-- identifier, the address of the new `Client` and the clock are arguments; `was_draining` is what the
-- first look at the hub saw.
pub mod Opening
use chatster.Prelude.{
  Bool, List, Option, [], err, false, if◌then◌else◌, none, not, ok, some, true, ℕ,
}
use chatster.Text.{Text, Unicode, codes}
use chatster.Codec.{Base64, Digest, Json}
use chatster.Db.Room.{normalize_room}
use chatster.Db.Rows.{Driver, Time}
use chatster.Db.Sqlite.{Faults}
use chatster.Auth.Principals.{Principal, authenticated}
use chatster.Auth.Service.{Service}
use chatster.Auth.Session.{SessionPayload, authorize}
use chatster.Hub.State.{Client, anonymous_name, close_client, update}
use chatster.Hub.Client.{World}
use chatster.Hub.Presence.{Registration, joining, refused, register_client, registered}
use chatster.Server.{Refusal, Request, auth_refusal, http_error, origin_allowed}
use chatster.Server.Ratelimit.{Bucket, WsUpgrade, allow_ip}

-- How a request for a socket ends: with an error, without a connection, closed again since the hub
-- drains by now, open, or open while the message that the client joined waits for its place.
pub data Socket : Type 0 where
  refused_socket : Refusal → Socket
  upgrade_failed : Socket
  closed_again opened opening : World → Socket

-- `clientIP`; `host` is the host of the remote address, if it splits.
abbrev pub client_ip : Text → Option Text → Text
client_ip remote none = remote
client_ip remote (some host) = host

-- The new client.
unfoldable pub socket_client : Text → Text → Principal → Client
socket_client random_id room p = record {
  session_id = if authenticated p then p.session_id else random_id;
  user_id = p.user_id;
  username = if authenticated p then p.display_name else anonymous_name;
  authenticated = authenticated p;
  auth_expires_at = p.expires_at;
  room_field = room;
  send = [];
  done = false;
}

abbrev pub with_client : ℕ → Client → World → World
with_client id c w = record w { hub = record (w.hub) { objects = update w.hub.objects id c } }

abbrev pub after_registration : ℕ → Registration → Socket
after_registration id (refused w) =
    closed_again (with_client id (close_client (w.hub.objects id)) w)
after_registration id (registered w) = opened w
after_registration id (joining w) = opening w

-- What is not in the request: the store's faults, the clock, the new identifiers, and whether the
-- library makes the connection.
pub record Surroundings : Type 0 where
  pub faults : Faults
  pub now : Time
  pub event_id : Text
  pub random_id : Text
  pub address : ℕ
  pub upgraded : Bool

module _ ⦃u : Unicode⦄ ⦃d : Driver⦄ ⦃s : Json SessionPayload⦄ ⦃b : Base64⦄ ⦃g : Digest⦄ where
  -- What follows the rate limit.
  unfoldable pub admit_socket :
      List Text → Option Service → Surroundings → Text → Request → World → Socket
  admit_socket origins service e room r w =
      if not (origin_allowed origins r.origin)
      then refused_socket (http_error 403 (codes "forbidden"))
      else elim (authorize service r.cookie e.now room) [
        | err x ↦ refused_socket (auth_refusal x)
        | ok p ↦
            if not e.upgraded
            then upgrade_failed
            else after_registration e.address (
                register_client e.faults e.now e.event_id e.address
                  (with_client e.address (socket_client e.random_id room p) w))
      ]

module _ ⦃u : Unicode⦄ ⦃d : Driver⦄ ⦃s : Json SessionPayload⦄ ⦃b : Base64⦄ ⦃g : Digest⦄
    {Rate L : Type 0} (bucket : Bucket Rate L) where
  -- The rate limit, if there is one.
  abbrev pub limit_socket :
      Time → Text → Option (WsUpgrade Rate L) → Option (WsUpgrade Rate L) × Bool
  limit_socket now ip none = (none, true)
  limit_socket now ip (some l) = let (l', allowed) = allow_ip bucket now ip l in (some l', allowed)

  unfoldable pub serve_ws :
      List Text
      → Option Service
      → Surroundings
      → Text
      → Bool
      → Request
      → Option (WsUpgrade Rate L)
      → World
      → Option (WsUpgrade Rate L) × Socket
  serve_ws origins service e ip was_draining r limiter w = elim (normalize_room r.room_param) [
    | err x ↦ (limiter, refused_socket (http_error 400 (codes "invalid room")))
    | ok room ↦
        if was_draining
        then (limiter, refused_socket (http_error 503 (codes "server shutting down")))
        else (
          (limit_socket e.now ip limiter).0,
          if not (limit_socket e.now ip limiter).1
              then refused_socket (http_error 429 (codes "too many connections"))
              else admit_socket origins service e room r w,
        )
  ]
