-- ===== src/Events/Validity.antt =====
-- Valid envelopes, of backend/internal/events/envelope.go.
use chatster.Prelude.{
  >>=-ok, Bool-cases, Result-cases, [], ap, arith, eq→≡, false, inl, inr, is_nil, length,
  ltb_false→le, ne_nil_of_is_nil, ne_of_false, not, not-false, ok, ok-injective, or-false, refl,
  reject_if-ok, subst, sym, true, ◌&&◌, ◌<◌, ◌==◌, ◌||◌, ◌∷◌, ◌≡◌, ◌≢◌, ◌≤◌, ◌⊎◌, nat_eq, list_eq,
}
use chatster.Text.{Text, Unicode, codes, trim_space}
use chatster.Db.Room.{normalize_room}
use chatster.Db.Room.Canonical.{IsRoom, normalize_room-IsRoom}
use chatster.Db.Rows.{Time}
use chatster.Events.{
  Envelope, Payload, bad_event_id, bad_message_id, bad_schema, bad_type, bad_user_id, bad_version,
  canonical_origin, canonical_room, envelope_version, has_bad_event_id, has_bad_type,
  has_bad_user_id, has_long_event_id, has_other_schema, has_other_version, long_event_id,
  max_event_id_runes, new, no_content, no_timestamp, no_username, normalize_token, schema_name,
  timestamp_not_utc, valid_user_id, validate,
}
use chatster.Events.Channels.{IsToken, normalize_token-IsToken}

-- An envelope that may reach the hub.
pub record IsValid (e : Envelope) : Type 0 where
  pub schema : e.schema ≡ schema_name
  pub version : e.version ≡ envelope_version
  pub event_id_given : e.event_id ≢ []
  pub event_id_trimmed : trim_space e.event_id ≡ e.event_id
  pub event_id_fits : length e.event_id ≤ max_event_id_runes
  pub dated : 0 < e.timestamp
  pub utc : e.timestamp_utc ≡ true
  pub room : IsRoom e.room
  pub origin : IsToken e.origin_instance
  pub identified : 0 < e.message.id
  pub user_id : (e.message.user_id ≡ []) ⊎ (valid_user_id e.message.user_id ≡ true)
  pub named : trim_space e.message.username ≢ []
  pub content : e.message.content ≢ []
  pub durable : e.message.msg_type ≢ codes "username"

module _ ⦃u : Unicode⦄ where
  valid_user_id-cases :
      (m : Payload)
      → has_bad_user_id m ≡ false
      → (m.user_id ≡ []) ⊎ (valid_user_id m.user_id ≡ true)
  valid_user_id-cases m h = cases m.user_id h
    where
      cases :
          (t : Text)
          → (not (is_nil t) && (not (valid_user_id t) || not (t == trim_space t))) ≡ false
          → (t ≡ []) ⊎ (valid_user_id t ≡ true)
      cases [] k = inl refl
      cases (c ∷ t) k = inr (not-false _ (or-false _ _ k).0)

  canonical_room-IsRoom : (t : Text) → canonical_room t ≡ ok tt → IsRoom t
  unfolding canonical_room
  canonical_room-IsRoom t h = elim (Result-cases (normalize_room t)) [
    | inr (e, k) ↦ cc (rw (k, canonical_room) at h)
    | inl (r, k) ↦ elim (Bool-cases (r == t)) [
      | inl e ↦ subst IsRoom (eq→≡ r t e) (normalize_room-IsRoom t k)
      | inr e ↦ cc (rw (k, canonical_room, e) at h)
    ]
  ]

  canonical_origin-IsToken : (t : Text) → canonical_origin t ≡ ok tt → IsToken t
  unfolding canonical_origin
  canonical_origin-IsToken t h = elim (Result-cases (normalize_token t)) [
    | inr (e, k) ↦ cc (rw (k, canonical_origin) at h)
    | inl (r, k) ↦ elim (Bool-cases (r == t)) [
      | inl e ↦ subst IsToken (eq→≡ r t e) (normalize_token-IsToken t r k)
      | inr e ↦ cc (rw (k, canonical_origin, e) at h)
    ]
  ]

  -- A valid envelope has the schema and version of this program, a trimmed event identifier of 1 to
  -- 128 runes, a UTC time that is not zero, a canonical room and origin, a positive message
  -- identifier, an empty or well-formed user identifier, a name that is not blank, a content, and a
  -- durable type.
  pub validate-IsValid : (e : Envelope) → validate e ≡ ok tt → IsValid e
  unfolding validate
  validate-IsValid e h =
      let (schema, h₁) = reject_if-ok (has_other_schema e) bad_schema _ h in
      let (version, h₂) = reject_if-ok (has_other_version e) bad_version _ h₁ in
      let (id, h₃) = reject_if-ok (has_bad_event_id e) bad_event_id _ h₂ in
      let (long, h₄) = reject_if-ok (has_long_event_id e) long_event_id _ h₃ in
      let (dated, h₅) = reject_if-ok (e.timestamp == 0) no_timestamp _ h₄ in
      let (utc, h₆) = reject_if-ok (not e.timestamp_utc) timestamp_not_utc _ h₅ in
      let (_, room, h₇) = >>=-ok (canonical_room e.room) _ h₆ in
      let (_, origin, h₈) = >>=-ok (canonical_origin e.origin_instance) _ h₇ in
      let (identified, h₉) = reject_if-ok (e.message.id == 0) bad_message_id _ h₈ in
      let (user, g₁) = reject_if-ok (has_bad_user_id e.message) bad_user_id _ h₉ in
      let (named, g₂) = reject_if-ok (is_nil (trim_space e.message.username)) no_username _ g₁ in
      let (content, g₃) = reject_if-ok (is_nil e.message.content) no_content _ g₂ in
      let (durable, _) = reject_if-ok (has_bad_type e.message) bad_type _ g₃ in
      record {
        schema = eq→≡ e.schema schema_name (not-false _ schema);
        version = eq→≡ e.version envelope_version (not-false _ version);
        event_id_given = ne_nil_of_is_nil e.event_id (or-false _ _ id).0;
        event_id_trimmed =
            sym (eq→≡ e.event_id (trim_space e.event_id) (not-false _ (or-false _ _ id).1));
        event_id_fits = ltb_false→le max_event_id_runes (length e.event_id) long;
        dated = ground (arith, dated);
        utc = not-false e.timestamp_utc utc;
        room = canonical_room-IsRoom e.room room;
        origin = canonical_origin-IsToken e.origin_instance origin;
        identified = ground (arith, identified);
        user_id = valid_user_id-cases e.message user;
        named = ne_nil_of_is_nil (trim_space e.message.username) named;
        content = ne_nil_of_is_nil e.message.content content;
        durable = ne_of_false e.message.msg_type (codes "username") (or-false _ _ durable).1;
      }

  -- An envelope that `New` builds is valid and carries what it was given.
  pub new-IsValid :
      (id room origin : Text) (m : Payload) (t : Time) (e : Envelope)
      → new id room origin m t ≡ ok e
      → IsValid e
        × (e.event_id ≡ id)
        × (e.room ≡ room)
        × (e.origin_instance ≡ origin)
        × (e.message ≡ m)
        × (e.timestamp ≡ t)
  unfolding new
  new-IsValid id room origin m t e h =
      let (_, valid, h₁) = >>=-ok (validate built) _ h in
      let same : built ≡ e = ok-injective h₁ in
      (
        subst IsValid same (validate-IsValid built valid),
        sym (ap (λ (x : Envelope). x.event_id) same),
        sym (ap (λ (x : Envelope). x.room) same),
        sym (ap (λ (x : Envelope). x.origin_instance) same),
        sym (ap (λ (x : Envelope). x.message) same),
        sym (ap (λ (x : Envelope). x.timestamp) same),
      )
    where
      built : Envelope
      built = record {
        schema = schema_name;
        version = envelope_version;
        event_id = id;
        room = room;
        origin_instance = origin;
        timestamp = t;
        timestamp_utc = true;
        message = m;
      }
