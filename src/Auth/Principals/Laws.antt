-- ===== src/Auth/Principals/Laws.antt =====
-- Normalised principals, of backend/internal/auth/session.go.
use mathlib.Core.List.{append_assoc, append-nil}
use chatster.Prelude.{
  All, Bool-cases, Distinct, List, Result-cases, [], arith, contains, false, inl, inr, is_nil,
  is_nil_of_ne, length, length-append, le→ltb_false, ltb, ne_nil_of_is_nil, ok, ok-injective, refl,
  subst, true, ℕ, ◌++◌, ◌+◌, ◌||◌, ◌∷◌, ◌≡◌, ◌≢◌, ◌≤◌, ◌⊎◌, nat_eq, list_eq,
}
use chatster.Text.{Text, Unicode, trim_space}
use chatster.Text.Laws.{trim_space-token, trim_space_idem}
use chatster.Db.Room.{normalize_room}
use chatster.Db.Room.Canonical.{
  IsRoom, IsRoom-token, IsRoom-nonempty, normalize_room-IsRoom, normalize_room-of_IsRoom,
}
use chatster.Auth.Principals.{
  PrincipalTemplate, max_rooms_per_user, normalize_principal, normalize_rooms, valid_identifier,
}

-- An identity as `normalizePrincipal` returns it.
pub record IsNormal (p : PrincipalTemplate) : Type 0 where
  pub id_valid : valid_identifier p.user_id ≡ true
  pub id_trimmed : trim_space p.user_id ≡ p.user_id
  pub name_trimmed : trim_space p.display_name ≡ p.display_name
  pub name_given : p.display_name ≢ []
  pub name_fits : length p.display_name ≤ 64
  pub rooms_given : p.rooms ≢ []
  pub rooms_fit : length p.rooms ≤ max_rooms_per_user
  pub rooms_canonical : All IsRoom p.rooms
  pub rooms_distinct : Distinct p.rooms

-- The end of a list that is extended by a new element.
contains-append :
    (xs ys : List Text) (a : Text) → contains (xs ++ ys) a ≡ (contains xs a || contains ys a)
unfolding contains
contains-append [] ys a = refl
contains-append (x ∷ xs) ys a = ground (arith, contains-append xs ys a)

Distinct-snoc :
    (xs : List Text) (r : Text) → Distinct xs → contains xs r ≡ false → Distinct (xs ++ r ∷ [])
unfolding contains
Distinct-snoc [] r d h = (refl, tt)
Distinct-snoc (x ∷ xs) r d h = (
  ground (
    arith,
    contains-append xs (r ∷ []) x,
    (list_eq {A = ℕ}).decides x r,
    (list_eq {A = ℕ}).decides r x,
  ),
  Distinct-snoc xs r d.1 (ground arith),
)

Distinct-middle :
    (xs : List Text) (r : Text) (ys : List Text) → Distinct (xs ++ r ∷ ys) → contains xs r ≡ false
unfolding contains
Distinct-middle [] r ys d = refl
Distinct-middle (x ∷ xs) r ys d = ground (
  arith,
  contains-append xs (r ∷ ys) x,
  (list_eq {A = ℕ}).decides x r,
  (list_eq {A = ℕ}).decides r x,
  Distinct-middle xs r ys d.1,
)

All-snoc : (xs : List Text) (r : Text) → All IsRoom xs → IsRoom r → All IsRoom (xs ++ r ∷ [])
All-snoc [] r h k = (k, tt)
All-snoc (x ∷ xs) r h k = (h.0, All-snoc xs r h.1 k)

snoc_ne_nil : (xs : List Text) (r : Text) → xs ++ r ∷ [] ≢ []
snoc_ne_nil [] r e = cc
snoc_ne_nil (x ∷ xs) r e = cc

contains_nonempty : (xs : List Text) (a : Text) → contains xs a ≡ true → xs ≢ []
unfolding contains
contains_nonempty [] a h e = cc
contains_nonempty (x ∷ xs) a h e = cc

pub record Normalizes (seen rooms out : List Text) : Type 0 where
  pub canonical : All IsRoom seen → All IsRoom out
  pub distinct : Distinct seen → Distinct out
  pub given : (seen ≢ []) ⊎ (rooms ≢ []) → out ≢ []
  pub fits : length out ≤ length seen + length rooms

room_not_blank : (r : Text) → IsRoom r → is_nil (trim_space r) ≡ false
room_not_blank r h = rw (trim_space-token r (IsRoom-token h)) (IsRoom-nonempty h)

Normalizes-seen :
    (seen rest out : List Text) (room : Text)
    → seen ≢ []
    → Normalizes seen rest out
    → Normalizes seen (room ∷ rest) out
Normalizes-seen seen rest out room full n = record {
  canonical = n.canonical;
  distinct = n.distinct;
  given = λ _. n.given (inl full);
  fits = omega (arith, n.fits);
}

Normalizes-new :
    (seen rest out : List Text) (room r : Text)
    → IsRoom r
    → contains seen r ≡ false
    → Normalizes (seen ++ r ∷ []) rest out
    → Normalizes seen (room ∷ rest) out
Normalizes-new seen rest out room r k c n = record {
  canonical = λ h. n.canonical (All-snoc seen r h k);
  distinct = λ d. n.distinct (Distinct-snoc seen r d c);
  given = λ _. n.given (inl (snoc_ne_nil seen r));
  fits = omega (arith, n.fits, length-append seen (r ∷ []));
}

module _ ⦃u : Unicode⦄ where
  normalize_rooms-Normalizes :
      (seen rooms out : List Text) → normalize_rooms seen rooms ≡ ok out → Normalizes seen rooms out
  unfolding normalize_rooms
  normalize_rooms-Normalizes seen [] out h =
      let e : seen ≡ out = ok-injective h in
      subst (Normalizes seen []) e (record {
        canonical = λ x. x;
        distinct = λ x. x;
        given = λ g. elim g [ inl n ↦ n | inr n ↦ absurd (n refl) ];
        fits = omega arith;
      })
  normalize_rooms-Normalizes seen (room ∷ rest) out h =
      elim (Bool-cases (is_nil (trim_space room))) [
        | inl e ↦ cc (rw e at h)
        | inr e ↦ elim (Result-cases (normalize_room room)) [
          | inr (x, k) ↦ cc (rw (e, k) at h)
          | inl (r, k) ↦ elim (Bool-cases (contains seen r)) [
            | inl c ↦
                Normalizes-seen seen rest out room (contains_nonempty seen r c)
                  (normalize_rooms-Normalizes seen rest out (rw (e, k, c) at h))
            | inr c ↦
                Normalizes-new seen rest out room r (normalize_room-IsRoom room k) c
                  (normalize_rooms-Normalizes (seen ++ r ∷ []) rest out (rw (e, k, c) at h))
          ]
        ]
      ]

  normalize_rooms-canonical :
      (seen rooms : List Text)
      → All IsRoom rooms
      → Distinct (seen ++ rooms)
      → normalize_rooms seen rooms ≡ ok (seen ++ rooms)
  unfolding normalize_rooms
  normalize_rooms-canonical seen [] h d = rw (append-nil seen)
  normalize_rooms-canonical seen (r ∷ rest) h d =
      rw (room_not_blank r h.0, normalize_room-of_IsRoom h.0, Distinct-middle seen r rest d)
        (rw (← append_assoc seen (r ∷ []) rest) (
          normalize_rooms-canonical (seen ++ r ∷ []) rest h.1
            (rw (append_assoc seen (r ∷ []) rest) d)))

  -- An identity that `normalizePrincipal` returns has a valid trimmed identifier, a trimmed name of
  -- 1 to 64 runes, and between 1 and 64 canonical rooms without repetition.
  pub normalize_principal-IsNormal :
      (id name : Text) (rooms : List Text) (p : PrincipalTemplate)
      → normalize_principal id name rooms ≡ ok p
      → IsNormal p
  unfolding normalize_principal
  normalize_principal-IsNormal id name rooms p h =
      elim (Bool-cases (valid_identifier (trim_space id))) [
        | inr e ↦ cc (rw e at h)
        | inl valid ↦
            elim (Bool-cases (is_nil (trim_space name) || ltb 64 (length (trim_space name)))) [
              | inl e ↦ cc (rw (valid, e) at h)
              | inr named ↦
                  elim (Bool-cases (is_nil rooms || ltb max_rooms_per_user (length rooms))) [
                    | inl e ↦ cc (rw (valid, named, e) at h)
                    | inr counted ↦ elim (Result-cases (normalize_rooms [] rooms)) [
                      | inr (x, k) ↦ cc (rw (valid, named, counted, k) at h)
                      | inl (out, k) ↦
                          subst IsNormal (ok-injective (rw (valid, named, counted, k) at h))
                            (normal valid named counted (normalize_rooms-Normalizes [] rooms out k))
                    ]
                  ]
            ]
      ]
    where
      normal :
          {out : List Text}
          → valid_identifier (trim_space id) ≡ true
          → (is_nil (trim_space name) || ltb 64 (length (trim_space name))) ≡ false
          → (is_nil rooms || ltb max_rooms_per_user (length rooms)) ≡ false
          → Normalizes [] rooms out
          → IsNormal
              (record { user_id = trim_space id; display_name = trim_space name; rooms = out })
      normal valid named counted n = record {
        id_valid = valid;
        id_trimmed = trim_space_idem id;
        name_trimmed = trim_space_idem name;
        name_given = ne_nil_of_is_nil (trim_space name) (ground arith);
        name_fits = ground arith;
        rooms_given = n.given (inr (ne_nil_of_is_nil rooms (ground arith)));
        rooms_fit =
            let c : length rooms ≤ max_rooms_per_user = ground arith in omega (arith, n.fits);
        rooms_canonical = n.canonical tt;
        rooms_distinct = n.distinct tt;
      }

  -- Normalising a normal identity returns it unchanged.
  pub normalize_principal-normal :
      (p : PrincipalTemplate)
      → IsNormal p
      → normalize_principal p.user_id p.display_name p.rooms ≡ ok p
  unfolding normalize_principal
  normalize_principal-normal p v =
      rw
        (
          v.id_trimmed,
          v.name_trimmed,
          v.id_valid,
          is_nil_of_ne p.display_name v.name_given,
          le→ltb_false _ _ v.name_fits,
          is_nil_of_ne p.rooms v.rooms_given,
          le→ltb_false _ _ v.rooms_fit,
          normalize_rooms-canonical [] p.rooms v.rooms_canonical v.rooms_distinct,
        )
        refl
