-- ===== src/Hub/Client/Posts.antt =====
-- What one frame of a client can post to its room.
use chatster.Prelude.{
  Bool, Option, Result, [], ap, err, false, if-elim, inl, inr, none, not, not-false, ok, refl, some,
  sym, true, ℕ, ◌++◌, ◌==◌, ◌∙◌, ◌∷◌, ◌≡◌, ◌⊎◌, nat_eq, list_eq,
}
use chatster.Text.{Text, Unicode, codes, trim_space}
use chatster.Db.Rows.{Driver, Message}
use chatster.Db.Sqlite.{Db, DbError, save_message_for_user_in_room}
use chatster.Hub.State.{Client, Hub, room_of}
use chatster.Hub.Remote.{publish}
use chatster.Hub.Remote.Loops.{publish-Relayed}
use chatster.Hub.Client.{
  Frame, Next, World, audit_rejected_message, handle_frame, handle_username, keyed, next,
  publish_stamped, published, send_rate_limit_notice, stamped, valid_message_body, valid_username,
}

-- A chat message with the client's own identity.
pub record IsAuthored (c : Client) (body : Text) (m : Message) : Type 0 where
  pub msg_type : m.msg_type ≡ codes "message"
  pub user_id : m.user_id ≡ c.user_id
  pub username : m.username ≡ c.username
  pub room : m.room ≡ room_of c
  pub content : m.content ≡ body

module _ ⦃u : Unicode⦄ ⦃d : Driver⦄ where
  -- The call of the database for the message of a frame.
  abbrev pub saved_of : Frame → Client → Db → Result DbError Message × Db
  saved_of f c db =
      save_message_for_user_in_room f.faults f.now (stamped f c).room (stamped f c).user_id
        (stamped f c).username (stamped f c).content (stamped f c).msg_type db

  pub record Posted (f : Frame) (id : ℕ) (w w' : World) : Type 0 where
    pub message : Message
    pub authored : IsAuthored (w.hub.objects id) (trim_space f.message.content) message
    pub valid : valid_message_body (trim_space f.message.content) ≡ true
    pub allowed : f.allowed ≡ true
    pub queued : w'.hub.broadcast ≡ w.hub.broadcast ++ message ∷ []
    pub saved :
        (s : Message)
        → (saved_of f (w.hub.objects id) w.db).0 ≡ ok s
        → (message.id ≡ s.id) × (message.timestamp ≡ s.timestamp)

  keyed-IsAuthored :
      (f : Frame) (c : Client) (r : Result DbError Message)
      → IsAuthored c (trim_space f.message.content) (keyed (stamped f c) r)
  unfolding keyed stamped
  keyed-IsAuthored f c (ok s) = record {
    msg_type = refl;
    user_id = refl;
    username = refl;
    room = refl;
    content = refl;
  }
  keyed-IsAuthored f c (err e) = record {
    msg_type = refl;
    user_id = refl;
    username = refl;
    room = refl;
    content = refl;
  }

  keyed-saved :
      (m s : Message) (r : Result DbError Message)
      → r ≡ ok s
      → ((keyed m r).id ≡ s.id) × ((keyed m r).timestamp ≡ s.timestamp)
  unfolding keyed
  keyed-saved m s r p = rw p (refl, refl)

  handle_username-broadcast :
      (f : Frame) (id : ℕ) (w : World) → (handle_username f id w).hub.broadcast ≡ w.hub.broadcast
  unfolding handle_username audit_rejected_message
  handle_username-broadcast f id w =
      if-elim (λ (x : World). x.hub.broadcast ≡ w.hub.broadcast) (w.hub.objects id).authenticated
        (λ a. refl)
        (λ a.
          if-elim (λ (x : World). x.hub.broadcast ≡ w.hub.broadcast)
            (not (valid_username (trim_space f.message.content))) (λ bad. refl) (λ good. refl))

  publish_stamped-Posted :
      (f : Frame) (id : ℕ) (w w' : World)
      → valid_message_body (trim_space f.message.content) ≡ true
      → f.allowed ≡ true
      → publish_stamped f (stamped f (w.hub.objects id)) w ≡ next w'
      → Posted f id w w'
  unfolding publish_stamped
  publish_stamped-Posted f id w w' v a = go (publish f.event_id m w.hub) refl
    where
      c : Client
      c = w.hub.objects id

      m : Message
      m = keyed (stamped f c) (saved_of f c w.db).0

      go :
          (o : Option (Hub × Bool))
          → publish f.event_id m w.hub ≡ o
          → published w.hub (saved_of f c w.db).1 o ≡ next w'
          → Posted f id w w'
      go none e p = cc
      go (some (h, false)) e p = cc
      go (some (h, true)) e p =
          let same : record { hub = h; db = (saved_of f c w.db).1 } ≡ w' = cc in
          record {
            message = m;
            authored = keyed-IsAuthored f c (saved_of f c w.db).0;
            valid = v;
            allowed = a;
            queued =
                sym (ap (λ (x : World). x.hub.broadcast) same)
                ∙ (publish-Relayed f.event_id m w.hub h e).0;
            saved = λ s. keyed-saved (stamped f c) s (saved_of f c w.db).0;
          }

  -- A frame after which the loop goes on leaves the broadcast queue as it is, or adds one message to
  -- it: a chat message with the user, the name and the room of this client, whatever the frame said,
  -- with the trimmed content, of 1 to 4000 runes, that the rate limiter allowed; and if the database
  -- stored it, it has the key and the time of the stored message.
  pub handle_frame-Posted :
      (f : Frame) (id : ℕ) (w w' : World)
      → handle_frame f id w ≡ next w'
      → (w'.hub.broadcast ≡ w.hub.broadcast) ⊎ Posted f id w w'
  unfolding handle_frame audit_rejected_message send_rate_limit_notice
  handle_frame-Posted f id w w' =
      if-elim P (f.message.msg_type == codes "username")
        (λ n e. inl (quiet _ (handle_username-broadcast f id w) e))
        (λ n.
          if-elim P (not (valid_message_body (trim_space f.message.content)))
            (λ bad e. inl (quiet _ refl e))
            (λ good.
              if-elim P (not f.allowed) (λ a e. inl (quiet _ refl e))
                (λ a e.
                  inr (publish_stamped-Posted f id w w' (not-false _ good) (not-false _ a) e))))
    where
      P : Next → Type 0
      P x = x ≡ next w' → (w'.hub.broadcast ≡ w.hub.broadcast) ⊎ Posted f id w w'

      quiet :
          (x : World)
          → x.hub.broadcast ≡ w.hub.broadcast
          → next x ≡ next w'
          → w'.hub.broadcast ≡ w.hub.broadcast
      quiet x q e = let same : x ≡ w' = cc in sym (ap (λ (y : World). y.hub.broadcast) same) ∙ q
