-- ===== src/Auth/Session/Grants.antt =====
-- Which rooms a session opens.
use chatster.Prelude.{
  >>=-ok, Bool-cases, Result-cases, contains, false, inl, inr, ok, ok-injective, refl, some, true,
  ◌↔◌, ◌≡◌, nat_eq, list_eq,
}
use chatster.Text.{Text, Unicode}
use chatster.Codec.{Base64, Digest, Json}
use chatster.Db.Room.{normalize_room}
use chatster.Db.Rows.{Time}
use chatster.Auth.Principals.{Principal}
use chatster.Auth.Service.{Service}
use chatster.Auth.Service.Laws.{IsSessionService}
use chatster.Auth.Session.{CookieLookup, SessionPayload, authenticate, authorize}
use chatster.Auth.Session.Laws.{authenticate-IsLive}

module _ ⦃u : Unicode⦄ where
  -- The normalised room is among the grants of the principal.
  pub record IsGranted (p : Principal) (text : Text) : Type 0 where
    pub room : Text
    pub normalized : normalize_room text ≡ ok room
    pub granted : contains p.rooms room ≡ true

module _ ⦃u : Unicode⦄ ⦃j : Json SessionPayload⦄ ⦃b : Base64⦄ ⦃g : Digest⦄ where
  module _ (s : Service) (lookup : CookieLookup) (now : Time) (text : Text) (p : Principal) where
    authorize-IsGranted :
        IsSessionService s
        → authorize (some s) lookup now text ≡ ok p
        → (authenticate (some s) lookup now ≡ ok p) × IsGranted p text
    unfolding authorize
    authorize-IsGranted v h =
        let (q, found, h₁) = >>=-ok (authenticate (some s) lookup now) _ h in
        let live = authenticate-IsLive s lookup now q v found in
        let known : q.anonymous ≡ false = live.0.known in
        elim (Result-cases (normalize_room text)) [
          | inr (e, k) ↦ cc (rw (k, authorize, found) at h)
          | inl (r, k) ↦ elim (Bool-cases (contains q.rooms r)) [
            | inr c ↦ cc (rw (found, authorize, k, known, c) at h)
            | inl c ↦
                let same : q ≡ p = ok-injective (rw (found, authorize, k, known, c) at h) in
                (rw (← same) found, rw (← same) (record { room = r; normalized = k; granted = c }))
          ]
        ]

    authorize-of_IsGranted :
        authenticate (some s) lookup now ≡ ok p
        → IsGranted p text
        → authorize (some s) lookup now text ≡ ok p
    unfolding authorize
    authorize-of_IsGranted found v = elim (Bool-cases p.anonymous) [
      | inl e ↦ rw (found, authorize, v.normalized, e) refl
      | inr e ↦ rw (found, authorize, v.normalized, e, v.granted) refl
    ]

  -- In session mode a request is authorised for a room, as a principal, exactly when it is
  -- authenticated as that principal and the normalised room is among the principal's grants.
  pub authorize_iff :
      (s : Service) (lookup : CookieLookup) (now : Time) (text : Text) (p : Principal)
      → IsSessionService s
      → (authorize (some s) lookup now text ≡ ok p)
        ↔ ((authenticate (some s) lookup now ≡ ok p) × IsGranted p text)
  authorize_iff s lookup now text p v = (
    authorize-IsGranted s lookup now text p v,
    λ h. authorize-of_IsGranted s lookup now text p h.0 h.1,
  )
