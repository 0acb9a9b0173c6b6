-- ===== src/Hub/Client/Frames.antt =====
-- What one frame of a client can do: whose name it can change.
use chatster.Prelude.{
  Bool, Bool-cases, Option, Result, arith, eq→≡, false, if-elim, inl, inr, none, not, not-false,
  refl, some, subst, sym, true, ℕ, ◌==◌, ◌≡◌, ◌⊎◌, nat_eq, list_eq,
}
use chatster.Text.{Unicode, codes, trim_space}
use chatster.Db.Rows.{Driver, Message}
use chatster.Db.Sqlite.{Db, DbError, save_message_for_user_in_room}
use chatster.Hub.State.{Client, Hub, enqueue, update}
use chatster.Hub.Remote.{publish}
use chatster.Hub.Remote.Local.{publish-objects}
use chatster.Hub.Client.{
  Frame, Next, World, audit_rejected_message, blocked, handle_frame, handle_username, keyed, next,
  publish_stamped, published, rate_limit_notice, send_rate_limit_notice, stamped, stop,
  valid_message_body, valid_username,
}

abbrev pub world_of : Next → World
world_of (next w) = w
world_of (stop w) = w
world_of (blocked w) = w

-- What a frame may change of the identity of a client: the name of one that is not authenticated.
pub record KeepsIdentity (own : Bool) (c c' : Client) : Type 0 where
  pub user_id : c'.user_id ≡ c.user_id
  pub authenticated : c'.authenticated ≡ c.authenticated
  pub room : c'.room_field ≡ c.room_field
  pub username :
      (c'.username ≡ c.username)
      ⊎ ((own ≡ true) × (c.authenticated ≡ false) × (valid_username c'.username ≡ true))

same-identity : (own : Bool) (c : Client) → KeepsIdentity own c c
same-identity own c = record {
  user_id = refl;
  authenticated = refl;
  room = refl;
  username = inl refl;
}

same_objects-identity :
    (id k : ℕ) (o o' : ℕ → Client) → o' ≡ o → KeepsIdentity (k == id) (o k) (o' k)
same_objects-identity id k o o' p =
    subst (λ (x : ℕ → Client). KeepsIdentity (k == id) (o k) (x k)) (sym p)
      (same-identity (k == id) (o k))

-- A change of one client alone.
update-identity :
    (id k : ℕ) (o : ℕ → Client) (c : Client)
    → KeepsIdentity true (o id) c
    → KeepsIdentity (k == id) (o k) (update o id c k)
update-identity id k o c v = elim (Bool-cases (k == id)) [
  | inl e ↦ rw e (subst (λ i. KeepsIdentity true (o i) c) (sym (eq→≡ k id e)) v)
  | inr e ↦ rw e (same-identity false (o k))
]

enqueue-identity : (m : Message) (c : Client) → KeepsIdentity true c (enqueue m c).0
unfolding enqueue
enqueue-identity m c = record {
  user_id = ground arith;
  authenticated = ground arith;
  room = ground arith;
  username = inl (ground arith);
}

module _ ⦃u : Unicode⦄ ⦃d : Driver⦄ where
  handle_username-identity :
      (f : Frame) (id : ℕ) (w : World) (k : ℕ)
      → KeepsIdentity (k == id) (w.hub.objects k) ((handle_username f id w).hub.objects k)
  unfolding handle_username audit_rejected_message
  handle_username-identity f id w k =
      if-elim (λ (x : World). KeepsIdentity (k == id) (w.hub.objects k) (x.hub.objects k))
        (w.hub.objects id).authenticated (λ a. same-identity (k == id) (w.hub.objects k))
        (λ a.
          if-elim (λ (x : World). KeepsIdentity (k == id) (w.hub.objects k) (x.hub.objects k))
            (not (valid_username (trim_space f.message.content)))
            (λ bad. same-identity (k == id) (w.hub.objects k))
            (λ good.
              update-identity id k w.hub.objects
                (record (w.hub.objects id) { username = trim_space f.message.content })
                (record {
                  user_id = refl;
                  authenticated = refl;
                  room = refl;
                  username = inr (refl, a, not-false _ good);
                })))

  publish_stamped-identity :
      (f : Frame) (m : Message) (id : ℕ) (w : World) (k : ℕ)
      → KeepsIdentity (k == id) (w.hub.objects k) ((world_of (publish_stamped f m w)).hub.objects k)
  unfolding publish_stamped
  publish_stamped-identity f m id w k =
      go
        (publish f.event_id
          (keyed m
            (save_message_for_user_in_room f.faults f.now m.room m.user_id m.username m.content
              m.msg_type w.db).0)
          w.hub)
        refl
    where
      saved : Result DbError Message × Db
      saved =
          save_message_for_user_in_room f.faults f.now m.room m.user_id m.username m.content
            m.msg_type w.db

      go :
          (o : Option (Hub × Bool))
          → publish f.event_id (keyed m saved.0) w.hub ≡ o
          → KeepsIdentity
              (k == id)
              (w.hub.objects k)
              ((world_of (published w.hub saved.1 o)).hub.objects k)
      go none e = same-identity (k == id) (w.hub.objects k)
      go (some (h, true)) e =
          same_objects-identity id k w.hub.objects h.objects
            (publish-objects f.event_id (keyed m saved.0) w.hub h true e)
      go (some (h, false)) e =
          same_objects-identity id k w.hub.objects h.objects
            (publish-objects f.event_id (keyed m saved.0) w.hub h false e)

  -- Whatever a client sends, the user, the room and the authentication of every client stay, and so
  -- does every name, except that a client that is not authenticated may change its own to a valid one.
  pub handle_frame-identity :
      (f : Frame) (id : ℕ) (w : World) (k : ℕ)
      → KeepsIdentity (k == id) (w.hub.objects k) ((world_of (handle_frame f id w)).hub.objects k)
  unfolding handle_frame audit_rejected_message send_rate_limit_notice
  handle_frame-identity f id w k =
      if-elim P (f.message.msg_type == codes "username") (λ n. handle_username-identity f id w k)
        (λ n.
          if-elim P (not (valid_message_body (trim_space f.message.content)))
            (λ bad. same-identity (k == id) (w.hub.objects k))
            (λ good.
              if-elim P (not f.allowed)
                (λ a.
                  update-identity id k w.hub.objects
                    (enqueue (rate_limit_notice (w.hub.objects id)) (w.hub.objects id)).0
                    (enqueue-identity (rate_limit_notice (w.hub.objects id)) (w.hub.objects id)))
                (λ a. publish_stamped-identity f (stamped f (w.hub.objects id)) id w k)))
    where
      P : Next → Type 0
      P x = KeepsIdentity (k == id) (w.hub.objects k) ((world_of x).hub.objects k)
