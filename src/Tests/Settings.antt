-- ===== src/Tests/Settings.antt =====
-- Settings.
use chatster.Prelude.{
  All, List, [], contains, if◌then◌else◌, keep, none, refl, ℕ, ◌++◌, ◌==◌, ◌∷◌, ◌≡◌, nat_eq,
  list_eq,
}
use chatster.Text.{Text, codes, is_space, trim_left, trim_right, trim_space}
use chatster.Config.{Env, Formats, from_env, split_csv}
use chatster.Config.Origins.{HasNo, IsEntry, given_entries, join_comma, split_csv-join}
use chatster.Config.Bounds.{IsAddr, IsSane, from_env-IsSane}
use chatster.Tests.Codecs.{ascii}

abbrev pub whole_numbers : Formats ℕ
whole_numbers = record {
  parse_float = λ s. none;
  at_most_zero = λ f. f == 0;
  five = 5;
  parse_duration = λ s. none;
}

abbrev pub hosted : Env
hosted name = if name == codes "PORT" then codes " 9000" else []

from_env-IsSane_example :
    IsSane (from_env whole_numbers hosted)
    × IsAddr
        (trim_space (hosted (codes "CHATSTER_HTTP_ADDR")))
        (from_env whole_numbers hosted).http_addr
from_env-IsSane_example = from_env-IsSane whole_numbers hosted

abbrev pub first_origin : Text
first_origin = codes "https://a.example"

abbrev second_origin : Text
second_origin = codes "http://localhost:3000"

-- A blank part, and white space around the others.
abbrev raw_origins : List Text
raw_origins = (b' ' ∷ first_origin) ∷ codes "  " ∷ (second_origin ++ b' ' ∷ []) ∷ []

raw_origins-HasNo : All (HasNo b',') raw_origins
unfolding contains
raw_origins-HasNo = (refl, (refl, (refl, tt)))

split_csv-join_example :
    (split_csv (join_comma raw_origins) ≡ given_entries raw_origins)
    × All IsEntry (split_csv (join_comma raw_origins))
split_csv-join_example = split_csv-join raw_origins raw_origins-HasNo

two_given : given_entries raw_origins ≡ first_origin ∷ second_origin ∷ []
unfolding keep trim_space trim_left trim_right is_space
two_given = refl
