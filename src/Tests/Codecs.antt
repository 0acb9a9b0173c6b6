-- ===== src/Tests/Codecs.antt =====
-- Concrete encodings with which the runs are made: they meet the laws that the theorems ask for.
use chatster.Prelude.{
  Bool, List, Option, [], ap, ap₂, arith, contains, drop, false, if◌then◌else◌, is_nil, length, ltb,
  map, nat_beq, none, refl, some, some-injective, sym, take, true, ℕ, ◌++◌, ◌+◌, ◌-◌, ◌∙◌, ◌∷◌, ◌≡◌,
  ◌≢◌, ◌≤◌, nat_eq, list_eq,
}
use chatster.Text.{Text, Unicode, byte_len, codes, rune_len}
use chatster.Codec.{Base64, Base64Laws, Digest, Json, JsonRoundTrips}
use chatster.Db.Rows.{Driver}
use chatster.Cursor.{HistoryCursor}
use chatster.Auth.Principals.{Credential}
use chatster.Events.{Envelope}
use chatster.Broker.{Wire, WireRoundTrips}
use chatster.Auth.Session.{SessionPayload}

-- Case tables that know ASCII only.
instance abbrev pub ascii : Unicode
ascii = record { lower_beyond = λ c. c; fold_beyond = λ c. c }

-- A driver that stores an instant as one code point.
instance abbrev pub one_rune : Driver
one_rune = record {
  bind_time = λ t. t ∷ [];
  format_utc = λ t. t ∷ [];
  parse = λ l s. elim s [ [] ↦ none | t ∷ ts ↦ some t ];
  julianday = λ s. elim s [ [] ↦ 0 | t ∷ ts ↦ t ];
}

-- The alphabet without the dot.
abbrev pub over_dot : ℕ → ℕ
over_dot c = if ltb c 46 then c else c + 1

abbrev back : ℕ → ℕ
back c = if ltb c 46 then c else c - 1

instance abbrev pub dotless : Base64
dotless = record { encode = map over_dot; decode = λ s. some (map back s) }

instance abbrev pub plain : Digest
plain = record { mac = λ k m. b'm' ∷ k; sum256 = λ s. s }

dotless-decode : (s : Text) → map back (map over_dot s) ≡ s
dotless-decode [] = refl
dotless-decode (c ∷ s) = ap₂ ◌∷◌ (ground arith) (dotless-decode s)

dotless-no_dot : (s : Text) → contains (map over_dot s) b'.' ≡ false
unfolding contains
dotless-no_dot [] = refl
dotless-no_dot (c ∷ s) = rw (dotless-no_dot s) (ground arith)

rune_len-over_dot : (c : ℕ) → rune_len c ≤ rune_len (over_dot c)
unfolding rune_len
rune_len-over_dot c = ground arith

dotless-grows : (s : Text) → byte_len s ≤ byte_len (map over_dot s)
unfolding byte_len
dotless-grows [] = omega arith
dotless-grows (c ∷ s) = omega (arith, rune_len-over_dot c, dotless-grows s)

dotless-nonempty : (s : Text) → s ≢ [] → map over_dot s ≢ []
dotless-nonempty [] h = h
dotless-nonempty (c ∷ s) h = λ e. cc

pub dotless_laws : Base64Laws dotless
dotless_laws = record {
  decode-encode = λ s. ap some (dotless-decode s);
  no_dot = dotless-no_dot;
  encode_grows = dotless-grows;
  encode_nonempty = dotless-nonempty;
}

instance abbrev pub cursor_json : Json HistoryCursor
cursor_json = record {
  marshal = λ c. some (c.version ∷ c.id ∷ c.timestamp ∷ c.room);
  decode = λ s. elim s [
    | v ∷ i ∷ t ∷ room ↦ some (record { version = v; room = room; timestamp = t; id = i }, [])
    | _ ↦ none
  ];
  at_eof = is_nil;
}

pub cursor_json_laws : JsonRoundTrips cursor_json
cursor_json_laws a s e =
    let p : a.version ∷ a.id ∷ a.timestamp ∷ a.room ≡ s = some-injective _ _ e in
    rw (← p) ([], refl, refl, λ k. cc)

-- Sessions with one room: the lengths first, then the texts.
abbrev pub write_session : SessionPayload → Text → Text
write_session p room =
    p.version
    ∷ p.issued_at
    ∷ p.expires_at
    ∷ length p.session_id
    ∷ length p.subject
    ∷ length p.display_name
    ∷ (p.session_id ++ (p.subject ++ (p.display_name ++ room)))

abbrev read_session : Text → Option (SessionPayload × Text)
read_session (v ∷ i ∷ e ∷ n ∷ m ∷ k ∷ s) = some (
  record {
    version = v;
    session_id = take n s;
    subject = take m (drop n s);
    display_name = take k (drop m (drop n s));
    rooms = drop k (drop m (drop n s)) ∷ [];
    issued_at = i;
    expires_at = e;
  },
  [],
)
read_session s = none

instance abbrev pub session_json : Json SessionPayload
session_json = record {
  marshal = λ p. elim p.rooms [ room ∷ [] ↦ some (write_session p room) | _ ↦ none ];
  decode = read_session;
  at_eof = is_nil;
}

take_front : (xs ys : Text) → take (length xs) (xs ++ ys) ≡ xs
take_front [] ys = refl
take_front (x ∷ xs) ys = ap (◌∷◌ x) (take_front xs ys)

drop_front : (xs ys : Text) → drop (length xs) (xs ++ ys) ≡ ys
drop_front [] ys = refl
drop_front (x ∷ xs) ys = drop_front xs ys

read-write :
    (p : SessionPayload) (room : Text)
    → read_session (write_session p room) ≡ some (record p { rooms = room ∷ [] }, [])
read-write p room =
    rw
      (
        take_front p.session_id (p.subject ++ (p.display_name ++ room)),
        drop_front p.session_id (p.subject ++ (p.display_name ++ room)),
        take_front p.subject (p.display_name ++ room),
        drop_front p.subject (p.display_name ++ room),
        take_front p.display_name room,
        drop_front p.display_name room,
      )
      refl

marshal-reads :
    (p : SessionPayload) (rooms : List Text) (s : Text)
    → session_json.marshal (record p { rooms = rooms }) ≡ some s
    → (rest : Text) × (session_json.decode s ≡ some (record p { rooms = rooms }, rest))
      × (session_json.at_eof rest ≡ true)
      × (s ≢ [])
marshal-reads p [] s e = cc
marshal-reads p (r ∷ r' ∷ rs) s e = cc
marshal-reads p (room ∷ []) s e =
    let same : write_session p room ≡ s = some-injective _ _ e in
    rw (← same) ([], read-write p room, refl, λ k. cc)

pub session_json_laws : JsonRoundTrips session_json
session_json_laws a s e = marshal-reads a a.rooms s e

instance abbrev pub credential_json : Json (List Credential)
credential_json = record {
  marshal = λ c. none;
  decode = λ s. some (
    record {
      token = s;
      user_id = codes "u1";
      display_name = codes "Ann";
      rooms = codes "general" ∷ [];
    }
        ∷ [],
    [],
  );
  at_eof = is_nil;
}

abbrev bit : Bool → ℕ
bit b = if b then 1 else 0

bit-back : (b : Bool) → nat_beq (bit b) 1 ≡ b
bit-back true = refl
bit-back false = refl

-- Envelopes: the lengths, the numbers and the texts.
abbrev write_envelope : Envelope → Text
write_envelope e =
    length e.schema
    ∷ length e.event_id
    ∷ length e.room
    ∷ length e.origin_instance
    ∷ length e.message.user_id
    ∷ length e.message.username
    ∷ length e.message.content
    ∷ e.version
    ∷ e.timestamp
    ∷ bit e.timestamp_utc
    ∷ e.message.id
    ∷ (e.schema
        ++ (e.event_id
            ++ (e.room
                ++ (e.origin_instance
                    ++ (e.message.user_id
                        ++ (e.message.username ++ (e.message.content ++ e.message.msg_type)))))))

-- The texts behind the lengths, each cut off from what the others leave.
abbrev read_texts : ℕ → ℕ → ℕ → ℕ → ℕ → ℕ → ℕ → ℕ → ℕ → ℕ → ℕ → Text → Envelope
read_texts a b c d f g h version timestamp utc id s =
    let s₁ = drop a s in
    let s₂ = drop b s₁ in
    let s₃ = drop c s₂ in
    let s₄ = drop d s₃ in
    let s₅ = drop f s₄ in
    let s₆ = drop g s₅ in
    record {
      schema = take a s;
      version = version;
      event_id = take b s₁;
      room = take c s₂;
      origin_instance = take d s₃;
      timestamp = timestamp;
      timestamp_utc = nat_beq utc 1;
      message = record {
        id = id;
        user_id = take f s₄;
        username = take g s₅;
        content = take h s₆;
        msg_type = drop h s₆;
      };
    }

abbrev read_envelope : Text → Option Envelope
read_envelope (a ∷ b ∷ c ∷ d ∷ f ∷ g ∷ h ∷ version ∷ timestamp ∷ utc ∷ id ∷ s) =
    some (read_texts a b c d f g h version timestamp utc id s)
read_envelope s = none

envelope_wire_reads : (e : Envelope) → read_envelope (write_envelope e) ≡ some e
envelope_wire_reads e =
    let m = e.message in
    let t₆ = m.content ++ m.msg_type in
    let t₅ = m.username ++ t₆ in
    let t₄ = m.user_id ++ t₅ in
    let t₃ = e.origin_instance ++ t₄ in
    let t₂ = e.room ++ t₃ in
    let t₁ = e.event_id ++ t₂ in
    rw
      (
        drop_front e.schema t₁,
        take_front e.schema t₁,
        drop_front e.event_id t₂,
        take_front e.event_id t₂,
        drop_front e.room t₃,
        take_front e.room t₃,
        drop_front e.origin_instance t₄,
        take_front e.origin_instance t₄,
        drop_front m.user_id t₅,
        take_front m.user_id t₅,
        drop_front m.username t₆,
        take_front m.username t₆,
        drop_front m.content m.msg_type,
        take_front m.content m.msg_type,
        bit-back e.timestamp_utc,
      )
      refl

abbrev pub envelope_wire : Wire
envelope_wire = record { marshal = λ e. some (write_envelope e); unmarshal = read_envelope }

pub envelope_wire_laws : WireRoundTrips envelope_wire
envelope_wire_laws e s h = ap read_envelope (sym (some-injective _ _ h)) ∙ envelope_wire_reads e
