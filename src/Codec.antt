-- ===== src/Codec.antt =====
-- The encodings of the standard library that the backend applies to tokens: JSON, unpadded URL
-- base64, HMAC and SHA-256. They are parameters; what the code relies on is stated as laws.
use chatster.Prelude.{Bool, Option, [], contains, false, some, true, ◌≡◌, ◌≢◌, ◌≤◌, nat_eq, list_eq}
use chatster.Text.{Text, byte_len}

-- `encoding/json` at one type: `json.Marshal`, and the first `Decode` of a decoder that disallows
-- unknown fields, with the input that it left. A number below zero is read as 0.
pub record Json (A : Type 0) : Type 0 where
  pub marshal : A → Option Text
  pub decode : Text → Option (A × Text)
  -- whether the next `Decode` on that input returns `io.EOF`
  pub at_eof : Text → Bool

pub record Base64 : Type 0 where
  pub encode : Text → Text
  pub decode : Text → Option Text

pub record Digest : Type 0 where
  -- `hmac.New(sha256.New, secret)`, one `Write` and `Sum(nil)`
  pub mac : Text → Text → Text
  -- `sha256.Sum256`
  pub sum256 : Text → Text

-- `Marshal` gives a text, not an empty one, that decodes to the value with nothing behind it.
abbrev pub JsonRoundTrips : {A : Type 0} → Json A → Type 0
JsonRoundTrips {A} j =
    (a : A) (s : Text)
    → j.marshal a ≡ some s
    → (rest : Text) × (j.decode s ≡ some (a, rest)) × (j.at_eof rest ≡ true) × (s ≢ [])

-- What base64 encodes it decodes again, over the alphabet of letters, digits, `-` and `_`.
pub record Base64Laws (b : Base64) : Type 0 where
  pub decode-encode : (s : Text) → b.decode (b.encode s) ≡ some s
  pub no_dot : (s : Text) → contains (b.encode s) b'.' ≡ false
  pub encode_grows : (s : Text) → byte_len s ≤ byte_len (b.encode s)
  pub encode_nonempty : (s : Text) → s ≢ [] → b.encode s ≢ []
