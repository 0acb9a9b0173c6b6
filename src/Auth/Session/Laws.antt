-- ===== src/Auth/Session/Laws.antt =====
-- Accepted session cookies, of backend/internal/auth/session.go.
use chatster.Prelude.{
  >>=-ok, Result-cases, arith, contains, eq→≡, false, if◌then◌else◌, inl, inr, is_nil, list_beq,
  ltb, not, ok, ok-injective, or_fail-ok, refl, reject_if-ok, some, subst, true, ◌*◌, ◌+◌, ◌<◌,
  ◌==◌, ◌||◌, ◌≡◌, ◌≤◌, nat_eq, list_eq,
}
use chatster.Text.{Text, Unicode, byte_len, codes, cut}
use chatster.Codec.{Base64, Digest, Json}
use chatster.Db.Rows.{Time}
use chatster.Auth.Principals.{
  Principal, PrincipalTemplate, expired_session, invalid_session, normalize_principal,
  valid_opaque_id,
}
use chatster.Auth.Principals.Laws.{IsNormal, normalize_principal-IsNormal}
use chatster.Auth.Service.Laws.{IsSessionService}
use chatster.Auth.Service.{Service, mode_anonymous, mode_of, mode_session, second}
use chatster.Auth.Session.{
  CookieLookup, SessionPayload, authenticate, authenticate_session, check_payload, cookie_value,
  decode, has_bad_form, has_bad_times, is_expired, lives_too_long, max_cookie_bytes, no_cookie,
  session_identity, session_principal, unreadable_cookie,
}

-- A cookie value carries a signature of its first part under the secret.
pub record IsSigned ⦃b : Base64⦄ ⦃g : Digest⦄ (secret value : Text) : Type 0 where
  pub encoded : Text
  pub signature : Text
  pub parts : cut b'.' value ≡ some (encoded, signature)
  pub authentic : b.decode signature ≡ some (g.mac secret encoded)

-- A principal that a session stands for at a time.
pub record IsLive (s : Service) (now : Time) (p : Principal) : Type 0 where
  pub known : p.anonymous ≡ false
  pub unexpired : now < p.expires_at
  pub lifetime : p.expires_at ≤ now + 60 * second + s.ttl + second
  pub session_valid : valid_opaque_id p.session_id (codes "sid_") ≡ true
  pub identity :
      IsNormal (record { user_id = p.user_id; display_name = p.display_name; rooms = p.rooms })

session_not_anonymous :
    (m : Text)
    → m ≡ mode_session
    → ((if is_nil m then mode_anonymous else m) == mode_anonymous) ≡ false
unfolding list_beq
session_not_anonymous m e = rw e refl

session_is_session :
    (m : Text)
    → m ≡ mode_session
    → ((if is_nil m then mode_anonymous else m) == mode_session) ≡ true
unfolding list_beq
session_is_session m e = rw e refl

pub not_anonymous :
    (s : Service) → s.mode ≡ mode_session → (mode_of (some s) == mode_anonymous) ≡ false
unfolding mode_of
not_anonymous s e = session_not_anonymous s.mode e

pub is_session : (s : Service) → s.mode ≡ mode_session → (mode_of (some s) == mode_session) ≡ true
unfolding mode_of
is_session s e = session_is_session s.mode e

module _ ⦃j : Json SessionPayload⦄ ⦃b : Base64⦄ ⦃g : Digest⦄ where
  decode-IsSigned :
      (secret value : Text) (p : SessionPayload)
      → decode secret value ≡ ok p
      → IsSigned secret value
  unfolding decode
  decode-IsSigned secret value p h =
      let ((encoded, signature), parts, h₁) = or_fail-ok (cut b'.' value) invalid_session _ h in
      let (_, h₂) =
        reject_if-ok (is_nil encoded || is_nil signature || contains signature b'.') invalid_session
          _ h₁ in
      let (provided, decoded, h₃) = or_fail-ok (b.decode signature) invalid_session _ h₂ in
      let (equal, _) = reject_if-ok (not (provided == g.mac secret encoded)) invalid_session _ h₃ in
      let same : provided ≡ g.mac secret encoded =
        eq→≡ provided (g.mac secret encoded) (ground arith) in
      record {
        encoded = encoded;
        signature = signature;
        parts = parts;
        authentic = rw (← same) decoded;
      }

module _ ⦃u : Unicode⦄ ⦃j : Json SessionPayload⦄ ⦃b : Base64⦄ ⦃g : Digest⦄ where
  session_identity-IsNormal :
      (payload : SessionPayload) (t : PrincipalTemplate)
      → session_identity payload ≡ ok t
      → IsNormal t
  unfolding session_identity
  session_identity-IsNormal payload t h =
      elim (Result-cases (normalize_principal payload.subject payload.display_name payload.rooms)) [
        | inr (e, k) ↦ cc (rw (k, session_identity) at h)
        | inl (t', k) ↦
            subst IsNormal (ok-injective (rw (k, session_identity) at h))
              (normalize_principal-IsNormal payload.subject payload.display_name payload.rooms t' k)
      ]

  check_payload-IsLive :
      (s : Service) (payload : SessionPayload) (now : Time) (p : Principal)
      → check_payload s payload now ≡ ok p
      → IsLive s now p
  unfolding check_payload
  check_payload-IsLive s payload now p h =
      let (t, found, h₀) = >>=-ok (session_identity payload) _ h in
      let (form, h₁) = reject_if-ok (has_bad_form payload) invalid_session _ h₀ in
      let (fresh, h₂) = reject_if-ok (is_expired payload now) expired_session _ h₁ in
      let (times, h₃) = reject_if-ok (has_bad_times payload now) invalid_session _ h₂ in
      let (span, h₄) = reject_if-ok (lives_too_long s payload) invalid_session _ h₃ in
      subst (IsLive s now) {x = session_principal payload t} (ok-injective h₄) (record {
        known = refl;
        unexpired = ground arith;
        lifetime = ground arith;
        session_valid = ground arith;
        identity = session_identity-IsNormal payload t found;
      })

  authenticate_session-IsLive :
      (s : Service) (lookup : CookieLookup) (now : Time) (p : Principal)
      → authenticate_session s lookup now ≡ ok p
      → IsLive s now p
        × (value : Text) × (lookup ≡ cookie_value value)
        × (byte_len value ≤ max_cookie_bytes)
        × IsSigned s.secret value
  unfolding authenticate_session
  authenticate_session-IsLive s no_cookie now p h = cc
  authenticate_session-IsLive s unreadable_cookie now p h = cc
  authenticate_session-IsLive s (cookie_value value) now p h =
      let (size, h₁) =
        reject_if-ok (is_nil value || ltb max_cookie_bytes (byte_len value)) invalid_session _ h in
      let (payload, decoded, h₂) = >>=-ok (decode s.secret value) _ h₁ in
      (
        check_payload-IsLive s payload now p h₂,
        value,
        refl,
        ground arith,
        decode-IsSigned s.secret value payload decoded,
      )

  -- In session mode an accepted request carries a cookie of at most 4096 bytes that is signed under
  -- the secret, and its principal is live: not anonymous, not expired, within the lifetime of the
  -- service, with a well-formed session identifier and a normal identity.
  pub authenticate-IsLive :
      (s : Service) (lookup : CookieLookup) (now : Time) (p : Principal)
      → IsSessionService s
      → authenticate (some s) lookup now ≡ ok p
      → IsLive s now p
        × (value : Text) × (lookup ≡ cookie_value value)
        × (byte_len value ≤ max_cookie_bytes)
        × IsSigned s.secret value
  unfolding authenticate
  authenticate-IsLive s lookup now p v h =
      authenticate_session-IsLive s lookup now p
        (rw (not_anonymous s v.in_session_mode, authenticate) at h)
