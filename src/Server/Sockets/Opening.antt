-- ===== src/Server/Sockets/Opening.antt =====
-- When a socket opens, and as whom.
use chatster.Prelude.{Bool, List, Option, false, ok, some, true, ◌≡◌, ◌≢◌, ◌≤◌, nat_eq, list_eq}
use chatster.Text.{Text, Unicode}
use chatster.Codec.{Base64, Digest, Json}
use chatster.Db.Room.{normalize_room}
use chatster.Db.Rows.{Driver, Time}
use chatster.Db.Sqlite.{Db}
use chatster.Auth.Principals.{Principal}
use chatster.Auth.Service.{Service}
use chatster.Auth.Session.{SessionPayload, authorize}
use chatster.Hub.State.{Client, Hub}
use chatster.Hub.Client.{World}
use chatster.Hub.Client.Lifecycle.{next_read_deadline}
use chatster.Hub.Presence.{Registration, register_client, registered}
use chatster.Hub.Presence.Joining.{Joined}
use chatster.Server.{Request, origin_allowed}
use chatster.Server.Ratelimit.{Bucket, WsUpgrade, limiter_of}
use chatster.Server.Sockets.{Surroundings, socket_client, with_client}

module _ ⦃u : Unicode⦄ ⦃d : Driver⦄ ⦃s : Json SessionPayload⦄ ⦃b : Base64⦄ ⦃g : Digest⦄ where
  -- The registration of the new client.
  abbrev registration_of : Surroundings → Text → Principal → World → Registration
  registration_of e room p w =
      register_client e.faults e.now e.event_id e.address
        (with_client e.address (socket_client e.random_id room p) w)

  -- What follows the rate limit, when the socket opens.
  record Admits (origins : List Text) (service : Option Service) (e : Surroundings) (room : Text)
      (r : Request) (w w' : World) : Type 0 where
    principal : Principal
    from_origin : origin_allowed origins r.origin ≡ true
    authorised : authorize service r.cookie e.now room ≡ ok principal
    connected : e.upgraded ≡ true
    registration : registration_of e room principal w ≡ registered w'

module _ ⦃u : Unicode⦄ ⦃d : Driver⦄ ⦃s : Json SessionPayload⦄ ⦃b : Base64⦄ ⦃g : Digest⦄
    {Rate L : Type 0} (bucket : Bucket Rate L) where
  -- What holds of a socket that is open.
  pub record Opens (origins : List Text) (service : Option Service) (e : Surroundings) (ip : Text)
      (was_draining : Bool) (r : Request) (limiter : Option (WsUpgrade Rate L)) (w w' : World)
      : Type 0 where
    pub room : Text
    pub principal : Principal
    pub in_room : normalize_room r.room_param ≡ ok room
    pub accepting : was_draining ≡ false
    pub within_limit :
        (l : WsUpgrade Rate L)
        → limiter ≡ some l
        → (bucket.allow e.now (limiter_of bucket ip l)).1 ≡ true
    pub from_origin : origin_allowed origins r.origin ≡ true
    pub authorised : authorize service r.cookie e.now room ≡ ok principal
    pub connected : e.upgraded ≡ true
    pub client : w'.hub.objects e.address ≡ socket_client e.random_id room principal
    pub read_deadline :
        (t : Time)
        → principal.expires_at ≢ 0
        → next_read_deadline t (w'.hub.objects e.address) ≤ principal.expires_at
    pub joined_room :
        Joined e.address (with_client e.address (socket_client e.random_id room principal) w) w'
