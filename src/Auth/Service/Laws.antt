-- ===== src/Auth/Service/Laws.antt =====
-- The services that `New` of backend/internal/auth/session.go returns.
use chatster.Prelude.{
  >>=-ok, Bool-cases, List, Option-cases, [], arith, eq→≡, err, if◌then◌else◌, inl, inr, is_nil,
  ltb_false→le, ne_nil_of_is_nil, none, ok, ok-injective, or_fail-ok, refl, reject_if-ok, some,
  some-injective, subst, ℕ, ◌==◌, ◌∷◌, ◌≡◌, ◌≢◌, ◌≤◌, ◌⊎◌, nat_eq, list_eq,
}
use chatster.Prelude.Int.{negsuc, pos, ℤ}
use chatster.Text.{Text, Unicode, byte_len, to_lower, trim_space}
use chatster.Codec.{Digest, Json}
use chatster.Auth.Principals.{
  Credential, PrincipalTemplate, bad_credentials, credentials_required, duplicate_token,
  no_credentials, normalize_principal, short_secret, token_blank, token_size, trailing_credentials,
  ttl_out_of_range,
}
use chatster.Auth.Principals.Laws.{IsNormal, normalize_principal-IsNormal}
use chatster.Auth.Service.{
  Config, Service, add_credential, add_credentials, decode_credentials, find_credential,
  max_session_ttl, min_secret_bytes, min_session_ttl, mode_anonymous, mode_session, new,
  new_session, session_service, session_ttl,
}

-- A hash maps to one identity, and every identity is normal.
abbrev pub AreCredentials : List (Text × PrincipalTemplate) → Type 0
AreCredentials [] = Unit
AreCredentials ((h, t) ∷ rest) = IsNormal t × (find_credential h rest ≡ none) × AreCredentials rest

-- A service in session mode, as `New` builds it.
pub record IsSessionService (s : Service) : Type 0 where
  pub in_session_mode : s.mode ≡ mode_session
  pub secret_long : min_secret_bytes ≤ byte_len s.secret
  pub ttl_min : min_session_ttl ≤ s.ttl
  pub ttl_max : s.ttl ≤ max_session_ttl
  pub credentials_normal : AreCredentials s.credentials
  pub credentials_given : s.credentials ≢ []

session_ttl_bounds :
    (z : ℤ) (n : ℕ) → session_ttl z ≡ some n → (min_session_ttl ≤ n) × (n ≤ max_session_ttl)
unfolding session_ttl
session_ttl_bounds (negsuc k) n h = cc
session_ttl_bounds (pos k) n h = ground arith

pub find_credential-IsNormal :
    (h : Text) (cs : List (Text × PrincipalTemplate)) (t : PrincipalTemplate)
    → AreCredentials cs
    → find_credential h cs ≡ some t
    → IsNormal t
unfolding find_credential
find_credential-IsNormal h [] t v e = cc
find_credential-IsNormal h ((k, x) ∷ cs) t v e = elim (Bool-cases (k == h)) [
  | inl m ↦ subst IsNormal (some-injective x t (rw m at e)) v.0
  | inr m ↦ find_credential-IsNormal h cs t v.2 (rw m at e)
]

module _ ⦃u : Unicode⦄ ⦃g : Digest⦄ where
  add_credential-AreCredentials :
      (c : Credential) (known out : List (Text × PrincipalTemplate))
      → AreCredentials known
      → add_credential c known ≡ ok out
      → AreCredentials out × (out ≢ [])
  unfolding add_credential
  add_credential-AreCredentials c known out v h =
      let (_, h₁) = reject_if-ok _ token_size _ h in
      let (_, h₂) = reject_if-ok _ token_blank _ h₁ in
      let (t, normal, h₃) = >>=-ok (normalize_principal c.user_id c.display_name c.rooms) _ h₂ in
      extend t (normalize_principal-IsNormal c.user_id c.display_name c.rooms t normal)
        (Option-cases (find_credential (g.sum256 c.token) known)) h₃
    where
      extend :
          (t : PrincipalTemplate)
          → IsNormal t
          → let found = find_credential (g.sum256 c.token) known in
            (found ≡ none) ⊎ ((x : PrincipalTemplate) × (found ≡ some x))
            → (elim (find_credential (g.sum256 c.token) known) [
              | some x ↦ err duplicate_token
              | none ↦ ok ((g.sum256 c.token, t) ∷ known)
            ])
              ≡ ok out
            → AreCredentials out × (out ≢ [])
      extend t k (inr (x, e)) h' = cc (rw e at h')
      extend t k (inl e) h' =
          subst (λ o. AreCredentials o × (o ≢ [])) (ok-injective (rw e at h')) ((k, e, v), λ x. cc)

  add_credentials-AreCredentials :
      (cs : List Credential) (known out : List (Text × PrincipalTemplate))
      → AreCredentials known
      → (cs ≢ []) ⊎ (known ≢ [])
      → add_credentials cs known ≡ ok out
      → AreCredentials out × (out ≢ [])
  unfolding add_credentials
  add_credentials-AreCredentials [] known out v n h =
      subst (λ o. AreCredentials o × (o ≢ [])) (ok-injective h)
        (v, elim n [ inl k ↦ absurd (k refl) | inr k ↦ k ])
  add_credentials-AreCredentials (c ∷ cs) known out v n h =
      let (known', added, h') = >>=-ok (add_credential c known) _ h in
      let (v', n') = add_credential-AreCredentials c known known' v added in
      add_credentials-AreCredentials cs known' out v' (inr n') h'

module _ ⦃u : Unicode⦄ ⦃g : Digest⦄ ⦃c : Json (List Credential)⦄ where
  decode_credentials_nonempty :
      (raw : Text) (cs : List Credential) → decode_credentials raw ≡ ok cs → cs ≢ []
  unfolding decode_credentials
  decode_credentials_nonempty raw cs h =
      let (_, h₁) = reject_if-ok _ credentials_required _ h in
      let ((ds, rest), _, h₂) = or_fail-ok (c.decode raw) bad_credentials _ h₁ in
      let (_, h₃) = reject_if-ok _ trailing_credentials _ h₂ in
      let (full, h₄) = reject_if-ok _ no_credentials _ h₃ in
      subst (λ x. x ≢ []) (ok-injective h₄) (ne_nil_of_is_nil ds full)

  new_session-IsSessionService :
      (cfg : Config) (s : Service) → new_session cfg ≡ ok s → IsSessionService s
  unfolding new_session
  new_session-IsSessionService cfg s h =
      let (long, h₁) = reject_if-ok _ short_secret _ h in
      let (ttl, bounds, h₂) = or_fail-ok (session_ttl cfg.session_ttl) ttl_out_of_range _ h₁ in
      let (cs, decoded, h₃) = >>=-ok (decode_credentials cfg.credentials_json) _ h₂ in
      let (known, added, h₄) = >>=-ok (add_credentials cs []) _ h₃ in
      let (lo, hi) = session_ttl_bounds cfg.session_ttl ttl bounds in
      let (normal, given) =
        add_credentials-AreCredentials cs [] known tt
          (inl (decode_credentials_nonempty cfg.credentials_json cs decoded)) added in
      subst IsSessionService {x = session_service cfg ttl known} (ok-injective h₄) (record {
        in_session_mode = refl;
        secret_long = ltb_false→le (byte_len cfg.session_secret) min_secret_bytes long;
        ttl_min = lo;
        ttl_max = hi;
        credentials_normal = normal;
        credentials_given = given;
      })

  -- A service that `New` returns is in anonymous mode, or in session mode with a secret of at
  -- least 32 bytes, a lifetime from one minute to a day, at least one credential, only normal
  -- identities, and no token hash twice.
  pub new-IsSessionService :
      (cfg : Config) (s : Service) → new cfg ≡ ok s → (s.mode ≡ mode_anonymous) ⊎ IsSessionService s
  unfolding new
  new-IsSessionService cfg s h = elim (Bool-cases (mode == mode_anonymous)) [
    | inl e ↦ inl (
        subst (λ (x : Service). x.mode ≡ mode_anonymous) (ok-injective (rw e at h))
          (eq→≡ mode mode_anonymous e))
    | inr e ↦ elim (Bool-cases (mode == mode_session)) [
      | inl k ↦ inr (new_session-IsSessionService cfg s (rw (e, k) at h))
      | inr k ↦ cc (rw (e, k) at h)
    ]
  ]
    where
      mode : Text
      mode =
          let lowered = to_lower (trim_space cfg.mode) in
          if is_nil lowered then mode_anonymous else lowered
