-- ===== src/Auth/Session/RoundTrip.antt =====
-- The way of a cookie from `Exchange` to `Authenticate`, of backend/internal/auth/session.go.
use chatster.Prelude.{
  >>=-ok, Bool, List, [], arith, eq_false, false, is_nil_of_ne, le→ltb_false, ltb, lt→leb_false, ok,
  ok-injective, or_fail-ok, refl, reject_if-ok, some, subst, true, ℕ, ◌*◌, ◌++◌, ◌+◌, ◌/◌, ◌<◌,
  ◌||◌, ◌≡◌, ◌≢◌, ◌≤◌, nat_eq, list_eq,
}
use chatster.Text.{Text, Unicode, byte_len, codes, has_blank, hex_encode}
use chatster.Codec.{Base64, Digest, Json}
use chatster.Db.Rows.{Time}
use chatster.Auth.Principals.{
  Principal, PrincipalTemplate, invalid_token, normalize_principal, valid_opaque_id,
}
use chatster.Auth.Principals.Laws.{IsNormal, normalize_principal-normal}
use chatster.Auth.Service.{
  Service, find_credential, max_access_token_bytes, min_session_ttl, min_token_bytes, second,
}
use chatster.Auth.Service.Laws.{IsSessionService, find_credential-IsNormal}
use chatster.Auth.Session.{
  Cookie, SessionPayload, authenticate, check_payload, cookie_value, decode, encode, exchange,
  exchange_session, exchanged, from_unix, has_bad_form, has_bad_times, is_expired, issue,
  lives_too_long, max_cookie_bytes, new_session_id, session_identity, session_principal, to_unix,
  unix_epoch,
}
use chatster.Auth.Session.Laws.{is_session, not_anonymous}
use chatster.Auth.Session.Signed.{CookieLaws, IsRandom, decode-encode, new_session_id-valid}

-- The whole seconds of a time.
abbrev pub whole : Time → Time
whole t = t / second * second

from_unix-to_unix : (t : Time) → unix_epoch * second ≤ t → from_unix (to_unix t) ≡ whole t
from_unix-to_unix t h = omega arith

issued_positive : (now : Time) → (unix_epoch + 1) * second ≤ now → 0 < to_unix (whole now)
issued_positive now h = omega arith

or_false : (a b c : Bool) → a ≡ false → b ≡ false → c ≡ false → (a || b || c) ≡ false
or_false a b c h k l = ground arith

module _ ⦃u : Unicode⦄ ⦃j : Json SessionPayload⦄ ⦃b : Base64⦄ ⦃g : Digest⦄ where
  session_identity-of_normal :
      (payload : SessionPayload) (t : PrincipalTemplate)
      → normalize_principal payload.subject payload.display_name payload.rooms ≡ ok t
      → session_identity payload ≡ ok t
  unfolding session_identity
  session_identity-of_normal payload t e = rw (e, session_identity) refl

  check_payload-accepts :
      (s : Service) (payload : SessionPayload) (t : PrincipalTemplate) (now : Time)
      → session_identity payload ≡ ok t
      → has_bad_form payload ≡ false
      → is_expired payload now ≡ false
      → has_bad_times payload now ≡ false
      → lives_too_long s payload ≡ false
      → check_payload s payload now ≡ ok (session_principal payload t)
  unfolding check_payload
  check_payload-accepts s payload t now found form fresh times span =
      rw (found, form, fresh, times, span) refl

  check_payload-issue :
      (s : Service) (t : PrincipalTemplate) (session_id : Text) (now later : Time)
      → IsSessionService s
      → IsNormal t
      → valid_opaque_id session_id (codes "sid_") ≡ true
      → (unix_epoch + 1) * second ≤ now
      → now ≤ later + 60 * second
      → later < whole (whole now + s.ttl)
      → check_payload s (issue s t session_id now) later
        ≡ ok (session_principal (issue s t session_id now) t)
  check_payload-issue s t session_id now later v k id epoch clock live =
      let issued : from_unix (to_unix (whole now)) ≡ whole now = omega arith in
      let expires : from_unix (to_unix (whole now + s.ttl)) ≡ whole (whole now + s.ttl) =
        omega arith in
      let positive = issued_positive now epoch in
      let longer : min_session_ttl ≤ s.ttl = v.ttl_min in
      check_payload-accepts s (issue s t session_id now) t later
        (session_identity-of_normal (issue s t session_id now) t (normalize_principal-normal t k))
        (rw id refl) (rw expires (lt→leb_false _ _ live))
        (or_false _ _ _ (eq_false (to_unix (whole now)) 0 (omega arith))
          (rw (expires, issued) (lt→leb_false _ _ (omega arith)))
          (rw issued (le→ltb_false _ _ (omega arith))))
        (rw (expires, issued) (le→ltb_false _ _ (omega arith)))

  authenticate-accepts :
      (s : Service) (value : Text) (payload : SessionPayload) (now : Time) (p : Principal)
      → IsSessionService s
      → value ≢ []
      → byte_len value ≤ max_cookie_bytes
      → decode s.secret value ≡ ok payload
      → check_payload s payload now ≡ ok p
      → authenticate (some s) (cookie_value value) now ≡ ok p
  unfolding authenticate
  authenticate-accepts s value payload now p v full fits decoded checked =
      rw
        (
          not_anonymous s v.in_session_mode,
          authenticate,
          is_nil_of_ne value full,
          le→ltb_false _ _ fits,
          decoded,
          checked,
        )
        refl

  exchange_session-authenticates :
      (s : Service) (token : Text) (raw : List ℕ) (now later : Time) (r : Principal × Cookie)
      → CookieLaws
      → IsSessionService s
      → IsRandom raw
      → (unix_epoch + 1) * second ≤ now
      → exchange_session s token (some raw) now ≡ ok r
      → now ≤ later + 60 * second
      → later < whole r.0.expires_at
      → authenticate (some s) (cookie_value r.1.value) later
        ≡ ok (record r.0 { expires_at = whole r.0.expires_at })
  unfolding exchange_session new_session_id
  exchange_session-authenticates s token raw now later r laws v random epoch h clock =
      let (_, h₁) =
        reject_if-ok
          (ltb (byte_len token) min_token_bytes
            || ltb max_access_token_bytes (byte_len token)
            || has_blank token)
          invalid_token _ h in
      let (t, found, h₂) =
        or_fail-ok (find_credential (g.sum256 token) s.credentials) invalid_token _ h₁ in
      let id = codes "sid_" ++ hex_encode raw in
      let (value, encoded, h₃) = >>=-ok (encode s.secret (issue s t id now)) _ h₂ in
      let normal =
        find_credential-IsNormal (g.sum256 token) s.credentials t v.credentials_normal found in
      let (decoded, fits, full) = decode-encode laws s.secret value (issue s t id now) encoded in
      let ends : from_unix (to_unix (whole now + s.ttl)) ≡ whole (whole now + s.ttl) =
        omega arith in
      subst
        (λ (x : Principal × Cookie).
          later < whole x.0.expires_at
          → authenticate (some s) (cookie_value x.1.value) later
            ≡ ok (record x.0 { expires_at = whole x.0.expires_at }))
        {x = exchanged s t id now value} (ok-injective h₃)
        λ live. rw (← ends) (
          authenticate-accepts s value (issue s t id now) later _ v full fits decoded (
            check_payload-issue s t id now later v normal (new_session_id-valid raw random) epoch
              clock live))

  -- The cookie of a successful exchange is accepted at any later clock, allowing one minute of
  -- skew, before the last whole second of its lifetime; the principal is the one that the exchange
  -- returned, with its expiry cut to whole seconds.
  pub authenticate-exchange :
      (s : Service) (token : Text) (raw : List ℕ) (now later : Time) (p : Principal) (c : Cookie)
      → CookieLaws
      → IsSessionService s
      → IsRandom raw
      → (unix_epoch + 1) * second ≤ now
      → exchange (some s) token (some raw) now ≡ ok (p, c)
      → now ≤ later + 60 * second
      → later < whole p.expires_at
      → authenticate (some s) (cookie_value c.value) later
        ≡ ok (record p { expires_at = whole p.expires_at })
  unfolding exchange
  authenticate-exchange s token raw now later p c laws v random epoch h clock live =
      exchange_session-authenticates s token raw now later (p, c) laws v random epoch
        (rw (is_session s v.in_session_mode, exchange) at h) clock live
