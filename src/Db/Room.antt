-- ===== src/Db/Room.antt =====
-- `NormalizeRoom` of backend/db/database.go.
pub mod Canonical
use chatster.Prelude.{
  Result, [], err, if◌then◌else◌, length, ltb, not, ok, ℕ, ◌&&◌, ◌==◌, ◌∷◌, nat_eq, list_eq,
}
use chatster.Text.{Text, Unicode, codes, is_digit, is_lower, to_lower, trim_space}

pub data RoomError : Type 0 where
  room_too_long room_bad_start room_bad_rune : RoomError

abbrev pub default_room : Text
default_room = codes "general"

abbrev pub max_room_runes : ℕ
max_room_runes = 32

-- The loop over the runes behind the first one.
unfoldable pub check_rest : Text → Text → Result RoomError Text
unfolding is_lower is_digit
check_rest room [] = ok room
check_rest room (r ∷ rs) =
    let rest = check_rest room rs in
    if not (is_lower r) && not (is_digit r) && not (r == b'_') && not (r == b'-')
    then err room_bad_rune
    else rest

unfoldable pub check_runes : Text → Text → Result RoomError Text
unfolding is_lower is_digit check_rest
check_runes room [] = ok room
check_runes room (r ∷ rs) =
    if not (is_lower r) && not (is_digit r) then err room_bad_start else check_rest room rs

normalize_lowered : Text → Result RoomError Text
normalize_lowered [] = ok default_room
normalize_lowered room =
    if ltb max_room_runes (length room) then err room_too_long else check_runes room room

module _ ⦃u : Unicode⦄ where
  unfoldable pub normalize_room : Text → Result RoomError Text
  unfolding normalize_lowered
  normalize_room room = normalize_lowered (to_lower (trim_space room))
