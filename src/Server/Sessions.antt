-- ===== src/Server/Sessions.antt =====
-- The session endpoint of backend/server.go: `sessionHandler` and `bearerToken`.
use chatster.Prelude.{
  Bool, Bool-cases, List, Option, Result, [], ap, ap₂, eq→≡, err, false, if◌then◌else◌, inl, inr,
  is_nil, ltb, none, not, not-false, ok, ok-injective, or_fail, or_fail-ok, refl, reject_if,
  reject_if-ok, some, sym, true, ℕ, ◌==◌, ◌>>=◌, ◌>>◌, ◌||◌, ◌∙◌, ◌≡◌, nat_eq, list_eq,
}
use chatster.Text.{Text, Unicode, byte_len, codes, cut, equal_fold, has_blank, trim_space}
use chatster.Codec.{Base64, Digest, Json}
use chatster.Db.Rows.{Time}
use chatster.Auth.Principals.{AuthError, Principal, authenticated, expired_session, invalid_token}
use chatster.Auth.Service.{Service, max_access_token_bytes, mode_of, mode_session}
use chatster.Auth.Session.{
  Cookie, SessionPayload, authenticate, exchange, exchanged, expired_cookie,
}
use chatster.Server.{Refusal, Request, json_error, or_refuse, origin_allowed}
use chatster.Server.History.{or_refuse-ok}

-- What the handler writes: the state of the session, a new session with its cookie, or the cookie that
-- ends a session.
pub data SessionReply : Type 0 where
  session_state : Text → Bool → Option Principal → Text → SessionReply
  session_opened : Text → Principal → Cookie → SessionReply
  session_closed : Cookie → SessionReply

-- `none` is `false`.
unfoldable pub bearer_token : ⦃u : Unicode⦄ → Text → Option Text
bearer_token header = elim (cut 32 (trim_space header)) [
  | none ↦ none
  | some (scheme, token) ↦
      if not (equal_fold scheme (codes "Bearer"))
        || is_nil token
        || ltb max_access_token_bytes (byte_len token)
        || has_blank token
      then none
      else some token
]

abbrev pub invalid_credentials : Refusal
invalid_credentials =
    json_error 401 (codes "invalid_credentials") (codes "The access token is invalid.")

abbrev pub origin_forbidden : Refusal
origin_forbidden =
    json_error 403 (codes "origin_forbidden") (codes "The request origin is not allowed.")

unfoldable pub exchange_refusal : AuthError → Refusal
exchange_refusal invalid_token = invalid_credentials
exchange_refusal e =
    json_error 500 (codes "session_unavailable") (codes "A session could not be created.")

unfoldable pub reason_of : AuthError → Text
reason_of expired_session = codes "session_expired"
reason_of e = codes "authentication_required"

unfoldable pub session_state_of : Text → Result AuthError Principal → SessionReply
session_state_of mode (ok p) = session_state mode (authenticated p) (some p) []
session_state_of mode (err e) = session_state mode false none (reason_of e)

module _ ⦃u : Unicode⦄ ⦃j : Json SessionPayload⦄ ⦃b : Base64⦄ ⦃g : Digest⦄ where
  -- The case of a POST.
  unfoldable pub open_session :
      List Text → Option Service → Option (List ℕ) → Time → Request → Result Refusal SessionReply
  open_session allowed service random now r = do
    reject_if (not (mode_of service == mode_session)) (
        json_error 409 (codes "authentication_disabled")
          (codes "Session authentication is disabled."))
    reject_if (not (origin_allowed allowed r.origin)) origin_forbidden
    token ← or_fail (bearer_token r.authorization) invalid_credentials
    (p, cookie) ← or_refuse (exchange service token random now) exchange_refusal
    ok (session_opened (mode_of service) p cookie)

  -- The case of a DELETE.
  unfoldable pub close_session : List Text → Option Service → Request → Result Refusal SessionReply
  close_session allowed service r = do
    reject_if (not (origin_allowed allowed r.origin)) origin_forbidden
    ok (session_closed (expired_cookie service))

  unfoldable pub session_handler :
      List Text → Option Service → Option (List ℕ) → Time → Request → Result Refusal SessionReply
  session_handler allowed service random now r =
      if r.method == codes "GET"
      then ok (session_state_of (mode_of service) (authenticate service r.cookie now))
      else if r.method == codes "POST"
      then open_session allowed service random now r
      else if r.method == codes "DELETE"
      then close_session allowed service r
      else err (json_error 405 (codes "method_not_allowed") (codes "Method not allowed."))

  abbrev is_opening : SessionReply → Bool
  is_opening (session_opened m p c) = true
  is_opening (session_state m a p r) = false
  is_opening (session_closed c) = false

  state-is_opening :
      (mode : Text) (e : Result AuthError Principal) → is_opening (session_state_of mode e) ≡ false
  unfolding session_state_of
  state-is_opening mode (ok p) = refl
  state-is_opening mode (err e) = refl

  close_session-is_opening :
      (allowed : List Text) (service : Option Service) (r : Request) (reply : SessionReply)
      → close_session allowed service r ≡ ok reply
      → is_opening reply ≡ false
  unfolding close_session
  close_session-is_opening allowed service r reply h =
      let (o, h') = reject_if-ok (not (origin_allowed allowed r.origin)) origin_forbidden _ h in
      sym (ap is_opening (ok-injective h'))

  open_session-opens :
      (allowed : List Text) (service : Option Service) (random : Option (List ℕ)) (now : Time)
      (r : Request) (m : Text) (p : Principal) (c : Cookie)
      → open_session allowed service random now r ≡ ok (session_opened m p c)
      → (mode_of service ≡ mode_session)
        × (origin_allowed allowed r.origin ≡ true)
        × (token : Text) × (bearer_token r.authorization ≡ some token)
        × (exchange service token random now ≡ ok (p, c))
  unfolding open_session
  open_session-opens allowed service random now r m p c h =
      let (s, h₁) = reject_if-ok (not (mode_of service == mode_session)) _ _ h in
      let (o, h₂) = reject_if-ok (not (origin_allowed allowed r.origin)) _ _ h₁ in
      let (token, given, h₃) = or_fail-ok (bearer_token r.authorization) _ _ h₂ in
      let (pc, exchanged, h₄) = or_refuse-ok (exchange service token random now) _ _ h₃ in
      let one : pc.0 ≡ p = cc in
      let two : pc.1 ≡ c = cc in
      (
        eq→≡ (mode_of service) mode_session (not-false _ s),
        not-false _ o,
        token,
        given,
        exchanged ∙ ap₂ (λ (a : Principal) (b : Cookie). ok (a, b)) one two,
      )

  -- A session is opened only by a POST from an allowed origin, in session mode, whose authorisation
  -- header carries a token that the service exchanges for the principal and the cookie of the reply.
  pub session_handler-opens :
      (allowed : List Text) (service : Option Service) (random : Option (List ℕ)) (now : Time)
      (r : Request) (m : Text) (p : Principal) (c : Cookie)
      → session_handler allowed service random now r ≡ ok (session_opened m p c)
      → (r.method ≡ codes "POST")
        × (mode_of service ≡ mode_session)
        × (origin_allowed allowed r.origin ≡ true)
        × (token : Text) × (bearer_token r.authorization ≡ some token)
        × (exchange service token random now ≡ ok (p, c))
  unfolding session_handler
  session_handler-opens allowed service random now r m p c h =
      elim (Bool-cases (r.method == codes "GET")) [
        | inl e ↦
            let same = ok-injective (rw (e, session_handler) at h) in
            let opened =
              sym (ap is_opening same)
              ∙ state-is_opening (mode_of service) (authenticate service r.cookie now) in
            cc
        | inr e ↦ elim (Bool-cases (r.method == codes "POST")) [
          | inl e' ↦
              let (s, o, token, given, exchanged) =
                open_session-opens allowed service random now r m p c
                  (rw (e, e', session_handler) at h) in
              (eq→≡ r.method (codes "POST") e', s, o, token, given, exchanged)
          | inr e' ↦ elim (Bool-cases (r.method == codes "DELETE")) [
            | inl e'' ↦
                let opened =
                  close_session-is_opening allowed service r (session_opened m p c)
                    (rw (e, e', e'', session_handler) at h) in
                cc
            | inr e'' ↦ cc (rw (e, e', e'', session_handler) at h)
          ]
        ]
      ]
