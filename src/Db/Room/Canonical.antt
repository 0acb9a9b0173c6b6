-- ===== src/Db/Room/Canonical.antt =====
-- Which texts `NormalizeRoom` accepts and what it returns.
use chatster.Prelude.{
  Bool-cases, [], all, arith, false, inl, inr, is_nil, length, ltb, not, ok, refl, sym, true, ℕ,
  ◌&&◌, ◌||◌, ◌↔◌, ◌∷◌, ◌≡◌, ◌≤◌, ◌⊎◌,
}
use chatster.Text.{Text, Unicode, is_digit, is_lower, to_lower, trim_space}
use chatster.Text.Laws.{is_token_rune, to_lower-token, trim_space-token}
use chatster.Db.Room.{
  check_rest, check_runes, default_room, max_room_runes, normalize_lowered, normalize_room,
}

-- The names of rooms: at most 32 lower-case letters, digits, `_` and `-`, the first one a letter
-- or a digit.
pub data IsRoom : Text → Type 0 where
  room_name :
      (r : ℕ) (rs : Text)
      → (is_lower r || is_digit r) ≡ true
      → all is_token_rune rs ≡ true
      → length (r ∷ rs) ≤ max_room_runes
      → IsRoom (r ∷ rs)

check_rest-ok :
    (room s out : Text) → check_rest room s ≡ ok out → (out ≡ room) × (all is_token_rune s ≡ true)
unfolding check_rest all is_token_rune
check_rest-ok room [] out h = (cc, refl)
check_rest-ok room (r ∷ rs) out h = ground (arith, check_rest-ok room rs out)

check_rest-accepts : (room s : Text) → all is_token_rune s ≡ true → check_rest room s ≡ ok room
unfolding check_rest all is_token_rune
check_rest-accepts room [] h = refl
check_rest-accepts room (r ∷ rs) h = ground (arith, check_rest-accepts room rs)

pub IsRoom-token : {s : Text} → IsRoom s → all is_token_rune s ≡ true
unfolding all is_token_rune
IsRoom-token (room_name r rs h t n) = ground arith

pub IsRoom-nonempty : {s : Text} → IsRoom s → is_nil s ≡ false
IsRoom-nonempty (room_name r rs h t n) = refl

IsRoom-default : IsRoom default_room
unfolding is_lower is_digit all is_token_rune
IsRoom-default = room_name _ _ refl refl (omega arith)

-- The room that a lowered text names: the default room for the empty text, and else itself.
abbrev pub RoomOf : Text → Text → Type 0
RoomOf s r = ((s ≡ []) × (r ≡ default_room)) ⊎ (IsRoom r × (s ≡ r))

normalize_lowered-RoomOf : (s r : Text) → normalize_lowered s ≡ ok r → RoomOf s r
unfolding normalize_lowered check_runes
normalize_lowered-RoomOf [] r h = inl (refl, cc)
normalize_lowered-RoomOf (c ∷ cs) r h = elim (Bool-cases (ltb max_room_runes (length (c ∷ cs)))) [
  | inl long ↦ cc (rw long at h)
  | inr fits ↦ elim (Bool-cases (not (is_lower c) && not (is_digit c))) [
    | inl bad ↦ cc (rw (fits, bad) at h)
    | inr good ↦
        let k = check_rest-ok (c ∷ cs) cs r (rw (fits, good) at h) in
        inr (rw k.0 (room_name c cs (ground arith) k.1 (ground arith)), sym k.0)
  ]
]

-- A canonical name is accepted as it is.
normalize_lowered-room : {s : Text} → IsRoom s → normalize_lowered s ≡ ok s
unfolding normalize_lowered check_runes
normalize_lowered-room (room_name r rs h t n) = ground (arith, check_rest-accepts (r ∷ rs) rs t)

normalize_lowered-of_RoomOf : (s r : Text) → RoomOf s r → normalize_lowered s ≡ ok r
unfolding normalize_lowered
normalize_lowered-of_RoomOf s r (inl e) = rw (e.0, e.1) refl
normalize_lowered-of_RoomOf s r (inr (k, e)) = rw e (normalize_lowered-room k)

RoomOf-IsRoom : (s r : Text) → RoomOf s r → IsRoom r
RoomOf-IsRoom s r (inl e) = rw e.1 IsRoom-default
RoomOf-IsRoom s r (inr e) = e.0

module _ ⦃u : Unicode⦄ where
  -- A text is accepted exactly when its trimmed lower-case form is empty, with the default room as
  -- the result, or is a room name, with itself as the result.
  pub normalize_room_accepts :
      (t r : Text) → (normalize_room t ≡ ok r) ↔ RoomOf (to_lower (trim_space t)) r
  unfolding normalize_room
  normalize_room_accepts t r = (
    normalize_lowered-RoomOf (to_lower (trim_space t)) r,
    normalize_lowered-of_RoomOf (to_lower (trim_space t)) r,
  )

  pub normalize_room-IsRoom : (t : Text) {r : Text} → normalize_room t ≡ ok r → IsRoom r
  normalize_room-IsRoom t {r} h =
      RoomOf-IsRoom (to_lower (trim_space t)) r ((normalize_room_accepts t r).0 h)

  pub normalize_room-of_IsRoom : {r : Text} → IsRoom r → normalize_room r ≡ ok r
  unfolding normalize_room
  normalize_room-of_IsRoom {r} h =
      let t = IsRoom-token h in
      rw (trim_space-token r t, to_lower-token r t) (normalize_lowered-room h)

  -- Normalising returns a room name, which normalising again leaves as it is.
  pub normalize_room_canonical :
      (t r : Text) → normalize_room t ≡ ok r → IsRoom r × (normalize_room r ≡ ok r)
  normalize_room_canonical t r h =
      let k = normalize_room-IsRoom t h in (k, normalize_room-of_IsRoom k)
