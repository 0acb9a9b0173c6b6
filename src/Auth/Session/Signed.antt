-- ===== src/Auth/Session/Signed.antt =====
-- A signed cookie of backend/internal/auth/session.go is decoded as it was encoded.
use chatster.Prelude.{
  All, List, [], all, arith, eq_refl, is_nil_of_ne, length, ltb, ok, ok-injective, or_fail-ok, refl,
  reject_if-ok, some, subst, true, ℕ, ◌%◌, ◌*◌, ◌++◌, ◌+◌, ◌/◌, ◌<◌, ◌∷◌, ◌≡◌, ◌≢◌, ◌≤◌, nat_eq,
  list_eq,
}
use chatster.Text.{Text, byte_len, codes, hex_digit, hex_encode, is_hex, rune_len, strip_prefix}
use chatster.Text.Append.{append_ne_nil, byte_len-append, cut-append, strip_prefix-append}
use chatster.Codec.{Base64, Base64Laws, Digest, Json, JsonRoundTrips}
use chatster.Auth.Principals.{cookie_too_large, encode_failed, valid_opaque_id}
use chatster.Auth.Session.{SessionPayload, decode, encode, max_cookie_bytes}

hex_digit-is_hex : (n : ℕ) → n < 16 → (is_hex (hex_digit n) ≡ true) × (rune_len (hex_digit n) ≡ 1)
unfolding hex_digit is_hex rune_len
hex_digit-is_hex n h = ground arith

abbrev pub AreBytes : List ℕ → Type 0
AreBytes xs = All (λ x. x < 256) xs

hex_encode-is_hex : (xs : List ℕ) → AreBytes xs → all is_hex (hex_encode xs) ≡ true
unfolding hex_encode all
hex_encode-is_hex [] h = refl
hex_encode-is_hex (x ∷ xs) h =
    let b : x < 256 = h.0 in
    rw ((hex_digit-is_hex (x / 16) (omega arith)).0, (hex_digit-is_hex (x % 16) (omega arith)).0)
      (hex_encode-is_hex xs h.1)

byte_len-hex_encode : (xs : List ℕ) → AreBytes xs → byte_len (hex_encode xs) ≡ 2 * length xs
unfolding hex_encode byte_len
byte_len-hex_encode [] h = refl
byte_len-hex_encode (x ∷ xs) h =
    let b : x < 256 = h.0 in
    omega (
      arith,
      (hex_digit-is_hex (x / 16) (omega arith)).1,
      (hex_digit-is_hex (x % 16) (omega arith)).1,
      byte_len-hex_encode xs h.1,
    )

-- A random source that gives the 16 bytes that were asked for.
pub record IsRandom (raw : List ℕ) : Type 0 where
  pub full : length raw ≡ 16
  pub bytes : AreBytes raw

valid_opaque_id-of_parts :
    (value prefix rest : Text)
    → strip_prefix prefix value ≡ some rest
    → byte_len value ≡ byte_len prefix + 32
    → all is_hex rest ≡ true
    → valid_opaque_id value prefix ≡ true
unfolding valid_opaque_id
valid_opaque_id-of_parts value prefix rest e n h =
    rw (e, valid_opaque_id, n, eq_refl (byte_len prefix + 32)) h

pub new_session_id-valid :
    (raw : List ℕ)
    → IsRandom raw
    → valid_opaque_id (codes "sid_" ++ hex_encode raw) (codes "sid_") ≡ true
new_session_id-valid raw r =
    valid_opaque_id-of_parts (codes "sid_" ++ hex_encode raw) (codes "sid_") (hex_encode raw)
      (strip_prefix-append (codes "sid_") (hex_encode raw))
      (omega (
        arith,
        byte_len-append (codes "sid_") (hex_encode raw),
        byte_len-hex_encode raw r.bytes,
        r.full,
      ))
      (hex_encode-is_hex raw r.bytes)

-- The laws that the signed cookie relies on.
pub record CookieLaws ⦃j : Json SessionPayload⦄ ⦃b : Base64⦄ ⦃g : Digest⦄ : Type 0 where
  pub json : JsonRoundTrips j
  pub base64 : Base64Laws b
  pub mac_nonempty : (k m : Text) → g.mac k m ≢ []

module _ ⦃j : Json SessionPayload⦄ ⦃b : Base64⦄ ⦃g : Digest⦄ (laws : CookieLaws) where
  pub decode-encode :
      (secret value : Text) (p : SessionPayload)
      → encode secret p ≡ ok value
      → (decode secret value ≡ ok p) × (byte_len value ≤ max_cookie_bytes) × (value ≢ [])
  unfolding encode decode
  decode-encode secret value p h =
      let (raw, marshalled, h₁) = or_fail-ok (j.marshal p) encode_failed _ h in
      let (rest, parsed, at_eof, nonempty) = laws.json p raw marshalled in
      let encoded = b.encode raw in
      let digest = g.mac secret encoded in
      let signature = b.encode digest in
      let (fits, h₂) =
        reject_if-ok (ltb max_cookie_bytes (byte_len (encoded ++ b'.' ∷ signature)))
          cookie_too_large _ h₁ in
      let full : encoded ≢ [] = laws.base64.encode_nonempty raw nonempty in
      subst (λ v. (decode secret v ≡ ok p) × (byte_len v ≤ max_cookie_bytes) × (v ≢ []))
        {x = encoded ++ b'.' ∷ signature} (ok-injective h₂)
        (
          rw
              (
                cut-append b'.' encoded signature (laws.base64.no_dot raw),
                is_nil_of_ne encoded full,
                is_nil_of_ne signature
                    (laws.base64.encode_nonempty digest (laws.mac_nonempty secret encoded)),
                laws.base64.no_dot digest,
                laws.base64.decode-encode digest,
                eq_refl digest,
                laws.base64.decode-encode raw,
                parsed,
                at_eof,
              )
              refl,
          ground (arith, fits),
          append_ne_nil encoded (b'.' ∷ signature) full,
        )
