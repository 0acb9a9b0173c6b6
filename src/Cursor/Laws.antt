-- ===== src/Cursor/Laws.antt =====
-- The encoding and decoding of history cursors, of backend/history_cursor.go.
use chatster.Prelude.{
  Bool-cases, Option-cases, Result-cases, [], arith, eq_refl, eq→≡, inl, inr, is_nil, is_nil_of_ne,
  le→ltb_false, ltb, ne_nil_of_is_nil, none, refl, some, some-injective, subst, true, ◌<◌, ◌||◌,
  ◌≡◌, ◌≢◌, ◌≤◌, nat_eq, list_eq,
}
use chatster.Text.{Text, Unicode, byte_len}
use chatster.Codec.{Base64, Base64Laws, Json, JsonRoundTrips}
use chatster.Db.Room.{normalize_room}
use chatster.Db.Room.Canonical.{IsRoom, normalize_room-IsRoom, normalize_room-of_IsRoom}
use chatster.Db.Rows.{Message}
use chatster.Cursor.{
  HistoryCursor, check_cursor, check_payload, decode_history_cursor, encode_history_cursor,
  history_cursor_version, max_history_cursor_size,
}

-- What every accepted cursor satisfies.
pub record IsCursor (c : HistoryCursor) : Type 0 where
  pub canonical : IsRoom c.room
  pub versioned : c.version ≡ history_cursor_version
  pub identified : 0 < c.id
  pub dated : 0 < c.timestamp

module _ ⦃u : Unicode⦄ where
  check_cursor-IsCursor : (c e : HistoryCursor) → check_cursor c ≡ some e → (e ≡ c) × IsCursor c
  unfolding check_cursor
  check_cursor-IsCursor c e h = elim (Result-cases (normalize_room c.room)) [
    | inr (x, k) ↦ cc (rw (k, check_cursor) at h)
    | inl (room, k) ↦
        let h' = rw (k, check_cursor) at h in
        let same : room ≡ c.room = ground (arith, eq→≡ room c.room) in
        (
          ground (arith, same),
          record {
            canonical = subst IsRoom same (normalize_room-IsRoom c.room k);
            versioned = ground arith;
            identified = ground arith;
            dated = ground arith;
          },
        )
  ]

  check_cursor-accepts : (c : HistoryCursor) → IsCursor c → check_cursor c ≡ some c
  unfolding check_cursor
  check_cursor-accepts c v =
      rw (normalize_room-of_IsRoom v.canonical, check_cursor)
        (ground (arith, v.versioned, v.identified, v.dated, eq_refl c.room))

module _ ⦃u : Unicode⦄ ⦃j : Json HistoryCursor⦄ ⦃b : Base64⦄ where
  check_payload-IsCursor :
      (payload : Text) (c : HistoryCursor) → check_payload payload ≡ some c → IsCursor c
  unfolding check_payload
  check_payload-IsCursor payload c h =
      elim (Bool-cases (is_nil payload || ltb max_history_cursor_size (byte_len payload))) [
        | inl bad ↦ cc (rw bad at h)
        | inr good ↦ elim (Option-cases (j.decode payload)) [
          | inl k ↦ cc (rw (good, k) at h)
          | inr ((d, rest), k) ↦ elim (Bool-cases (j.at_eof rest)) [
            | inr e ↦ cc (rw (good, k, e) at h)
            | inl e ↦ let (same, v) = check_cursor-IsCursor d c (rw (good, k, e) at h) in rw same v
          ]
        ]
      ]

  check_payload-accepts :
      (payload rest : Text) (c : HistoryCursor)
      → payload ≢ []
      → byte_len payload ≤ max_history_cursor_size
      → j.decode payload ≡ some (c, rest)
      → j.at_eof rest ≡ true
      → IsCursor c
      → check_payload payload ≡ some c
  unfolding check_payload
  check_payload-accepts payload rest c full fits decoded at_eof v =
      rw (is_nil_of_ne payload full, le→ltb_false _ _ fits, decoded, at_eof)
        (check_cursor-accepts c v)

  -- An accepted cursor names a canonical room, has the current version, a positive identifier and
  -- a time that is not zero, and came from a text of 1 to 512 bytes.
  pub decode_history_cursor-IsCursor :
      (raw : Text) (c : HistoryCursor)
      → decode_history_cursor raw ≡ some c
      → IsCursor c × (raw ≢ []) × (byte_len raw ≤ max_history_cursor_size)
  unfolding decode_history_cursor check_payload
  decode_history_cursor-IsCursor raw c h =
      elim (Bool-cases (is_nil raw || ltb max_history_cursor_size (byte_len raw))) [
        | inl bad ↦ cc (rw bad at h)
        | inr good ↦ (inner (rw good at h), ne_nil_of_is_nil raw (ground arith), ground arith)
      ]
    where
      inner :
          (elim (b.decode raw) [ none ↦ none | some payload ↦ check_payload payload ]) ≡ some c
          → IsCursor c
      inner k = elim (Option-cases (b.decode raw)) [
        | inl m ↦ cc (rw m at k)
        | inr (payload, m) ↦ check_payload-IsCursor payload c (rw m at k)
      ]

  -- The cursor that is issued for a message decodes to the room, time and identifier of that
  -- message, as long as neither the payload nor its encoding is longer than 512 bytes.
  pub decode_history_cursor-encode :
      (room : Text) (m : Message) (s : Text)
      → JsonRoundTrips j
      → Base64Laws b
      → IsRoom room
      → 0 < m.id
      → 0 < m.timestamp
      → encode_history_cursor room m ≡ some s
      → byte_len s ≤ max_history_cursor_size
      → decode_history_cursor s
        ≡ some (record {
          version = history_cursor_version;
          room = room;
          timestamp = m.timestamp;
          id = m.id;
        })
  unfolding decode_history_cursor encode_history_cursor
  decode_history_cursor-encode room m s jl bl canonical id time e n =
      elim (Option-cases (j.marshal cursor)) [
        | inl k ↦ cc (rw (k, encode_history_cursor) at e)
        | inr (payload, k) ↦
            let encoded : b.encode payload ≡ s =
              some-injective _ _ (rw (k, encode_history_cursor) at e) in
            let (rest, decoded, at_eof, nonempty) = jl cursor payload k in
            let same : b.decode s ≡ some payload = rw (← encoded) (bl.decode-encode payload) in
            let full : s ≢ [] = rw (← encoded) (bl.encode_nonempty payload nonempty) in
            let short : byte_len payload ≤ byte_len s = rw (← encoded) (bl.encode_grows payload) in
            rw (is_nil_of_ne s full, le→ltb_false _ _ n, same)
              (check_payload-accepts payload rest cursor nonempty (omega arith) decoded at_eof
                (record { canonical = canonical; versioned = refl; identified = id; dated = time }))
      ]
    where
      cursor : HistoryCursor
      cursor = record {
        version = history_cursor_version;
        room = room;
        timestamp = m.timestamp;
        id = m.id;
      }
