-- ===== src/Startup/Guarded.antt =====
-- Which origins a started server lets send credentials.
use chatster.Prelude.{
  Bool, List, Result, [], ap, contains, eq_false, eq_refl, err, false, if-elim, if◌then◌else◌, inl,
  inr, is_nil, not, ok, ok-injective, refl, some, subst, sym, true, ◌&&◌, ◌==◌, ◌∙◌, ◌∷◌, ◌≡◌, ◌≢◌,
  nat_eq, list_eq,
}
use chatster.Text.{Text, Unicode}
use chatster.Codec.{Digest, Json}
use chatster.Auth.Principals.{ConfigError, Credential}
use chatster.Auth.Service.{Service, mode_anonymous, mode_of, mode_session, new}
use chatster.Auth.Service.Laws.{IsSessionService, new-IsSessionService}
use chatster.Server.{Request, origin_allowed}
use chatster.Server.Sessions.{origin_forbidden}
use chatster.Server.Cors.{cors_headers, enable_cors, refused_origin, socket_path, with_headers}
use chatster.Startup.{AuthStartError, auth_settings, new_auth_service, origins_required}

is_nil_of : (s : Text) → s ≢ [] → is_nil s ≡ false
is_nil_of [] n = absurd (n refl)
is_nil_of (x ∷ s) n = refl

origin_allowed-listed :
    (allowed : List Text) (origin : Text)
    → is_nil allowed ≡ false
    → origin ≢ []
    → origin_allowed allowed origin ≡ contains allowed origin
unfolding origin_allowed
origin_allowed-listed allowed origin given n = rw (given, is_nil_of origin n) refl

other_mode : mode_anonymous ≢ mode_session
other_mode e = cc

not_session : (s : Service) → s.mode ≡ mode_anonymous → mode_of (some s) ≡ mode_anonymous
unfolding mode_of
not_session s e = rw (e) refl

-- What a service that passed the last check is.
started :
    (t s : Service) (nowhere : Bool)
    → (if mode_of (some t) == mode_session && nowhere then err origins_required else ok t) ≡ ok s
    → mode_of (some s) ≡ mode_session
    → (t ≡ s) × (nowhere ≡ false)
started t s nowhere h m =
    if-elim (λ (x : Result AuthStartError Service). x ≡ ok s → (t ≡ s) × (nowhere ≡ false))
      (mode_of (some t) == mode_session && nowhere) (λ c e. cc)
      (λ c e.
        let same : t ≡ s = ok-injective e in
        let session : (mode_of (some t) == mode_session) ≡ true =
          subst (λ (x : Service). (mode_of (some x) == mode_session) ≡ true) (sym same)
            (rw (m) (eq_refl mode_session)) in
        (same, rw (session) at c))
      h

if_not {ℓ} : {A : Type ℓ} (b : Bool) (x y : A) → (if not b then x else y) ≡ (if b then y else x)
if_not true x y = refl
if_not false x y = refl

module _ ⦃u : Unicode⦄ ⦃g : Digest⦄ ⦃c : Json (List Credential)⦄ {Float : Type 0} where
  new_auth_service-session :
      (cfg : chatster.Config.Config Float) (s : Service)
      → new_auth_service cfg ≡ ok s
      → mode_of (some s) ≡ mode_session
      → (new (auth_settings cfg) ≡ ok s) × (is_nil cfg.allowed_origins ≡ false)
  unfolding new_auth_service
  new_auth_service-session cfg s h m = go (new (auth_settings cfg)) refl
    where
      go :
          (o : Result ConfigError Service)
          → new (auth_settings cfg) ≡ o
          → (new (auth_settings cfg) ≡ ok s) × (is_nil cfg.allowed_origins ≡ false)
      go (err e) k = cc (rw (new_auth_service, k) at h)
      go (ok t) k =
          let (same, listed) =
            started t s (is_nil cfg.allowed_origins) (rw (new_auth_service, k) at h) m in
          (k ∙ ap ok same, listed)

  -- If the process starts in session mode, its service has a sound configuration, and of the requests
  -- that name an origin, outside the path of the sockets, exactly those of the configured origins are
  -- answered by the handler or as a preflight, with that origin as the allowed one; the others are
  -- refused and no handler runs.
  pub enable_cors-Guarded :
      {A : Type 0} (cfg : chatster.Config.Config Float) (s : Service) (path : Text) (r : Request)
      (next : A)
      → new_auth_service cfg ≡ ok s
      → mode_of (some s) ≡ mode_session
      → path ≢ socket_path
      → r.origin ≢ []
      → IsSessionService s
        × ((cors_headers r.origin).allow_origin ≡ some r.origin)
        × (enable_cors cfg.allowed_origins path r next ≡ (
            if contains cfg.allowed_origins r.origin
            then with_headers r next
            else refused_origin origin_forbidden))
  unfolding enable_cors cors_headers
  enable_cors-Guarded cfg s path r next h m p o =
      let (built, listed) = new_auth_service-session cfg s h m in
      (
        elim (new-IsSessionService (auth_settings cfg) s built) [
          | inl anonymous ↦ absurd (other_mode (sym (not_session s anonymous) ∙ m))
          | inr session ↦ session
        ],
        rw (is_nil_of r.origin o) refl,
        rw
            (
              eq_false path socket_path p,
              is_nil_of r.origin o,
              origin_allowed-listed cfg.allowed_origins r.origin listed o,
            )
            (if_not (contains cfg.allowed_origins r.origin) (refused_origin origin_forbidden)
              (with_headers r next)),
      )
