-- ===== src/Db/Log.antt =====
-- What backend/db promises of the messages that it stores, whatever the backend: a log that grows at
-- its end, forgets its oldest entries only, and answers with the latest entries of a room. The log is
-- the list of its entries, the newest first.
use chatster.Prelude.{
  All, All-keep, Bool, Bool-cases, List, [], ap, arith, false, inl, inr, keep, length, ltb, refl,
  reverse, suc, take, zero, ℕ, ◌&&◌, ◌<◌, ◌==◌, ◌||◌, ◌∷◌, ◌≡◌, ◌≤◌, nat_eq, list_eq,
}
use chatster.Text.{Text}
use chatster.Db.Room.Canonical.{IsRoom}
use chatster.Db.Rows.{Message, Time}

abbrev pub Log : Type 0
Log = List Message

-- What a new entry must be: later than all others, with a greater key, in a canonical room.
pub record IsNext (m : Message) (log : Log) : Type 0 where
  pub room : IsRoom m.room
  pub greater : All (λ x. x.id < m.id) log
  pub later : All (λ x. x.timestamp ≤ m.timestamp) log

pub data LogStep (log : Log) : Log → Type 0 where
  appends : (m : Message) → IsNext m log → LogStep log (m ∷ log)
  forgets : (n : ℕ) → LogStep log (take n log)

pub data LogReach (log : Log) : Log → Type 0 where
  here : LogReach log log
  next : {log' log'' : Log} → LogReach log log' → LogStep log' log'' → LogReach log log''

-- The last entries of a room, the oldest first.
unfoldable pub log_recent : Text → ℕ → Log → List Message
log_recent room limit log = reverse (take limit (keep (λ m. m.room == room) log))

-- The last entries of a room before a position, the oldest first.
unfoldable pub log_before : Text → Time → ℕ → ℕ → Log → List Message
log_before room before before_id limit log = reverse (
    take limit (
      keep
        (λ m.
          m.room == room && (ltb m.timestamp before || m.timestamp == before && ltb m.id before_id))
        log))

-- Keys fall strictly along the log, and times fall.
abbrev pub IsLog : Log → Type 0
IsLog [] = Unit
IsLog (m ∷ log) = All (λ x. x.id < m.id) log × All (λ x. x.timestamp ≤ m.timestamp) log × IsLog log

pub IsLog-keep : (q : Message → Bool) (log : Log) → IsLog log → IsLog (keep q log)
unfolding keep
IsLog-keep q [] v = tt
IsLog-keep q (m ∷ log) v = elim (Bool-cases (q m)) [
  | inl e ↦ rw e (
    All-keep (λ x. x.id < m.id) q log v.0,
    All-keep (λ x. x.timestamp ≤ m.timestamp) q log v.1,
    IsLog-keep q log v.2,
  )
  | inr e ↦ rw e (IsLog-keep q log v.2)
]

module _ {ℓ} {A : Type ℓ} (q : A → Bool) where
  -- Once the test fails it fails on all that follow.
  abbrev pub Falling : List A → Type ℓ
  Falling [] = Unit
  Falling (x ∷ xs) = (q x ≡ false → All (λ y. q y ≡ false) xs) × Falling xs

  keep-none : (xs : List A) → All (λ y. q y ≡ false) xs → keep q xs ≡ []
  unfolding keep
  keep-none [] h = refl
  keep-none (x ∷ xs) h = rw h.0 (keep-none xs h.1)

  -- A test that falls keeps the first elements.
  pub keep-Falling : (xs : List A) → Falling xs → keep q xs ≡ take (length (keep q xs)) xs
  unfolding keep
  keep-Falling [] v = refl
  keep-Falling (x ∷ xs) v = elim (Bool-cases (q x)) [
    | inl e ↦ rw e (ap (◌∷◌ x) (keep-Falling xs v.1))
    | inr e ↦ rw (e, keep-none xs (v.0 e)) refl
  ]

pub LogReach-trans : {a b c : Log} → LogReach a b → LogReach b c → LogReach a c
LogReach-trans r here = r
LogReach-trans r (next s step) = next (LogReach-trans r s) step

-- The first entries of a log are a log, and so on.
pub All-take {ℓ κ} :
    {A : Type ℓ} (P : A → Type κ) (n : ℕ) (xs : List A) → All P xs → All P (take n xs)
All-take P zero xs h = tt
All-take P (suc n) [] h = tt
All-take P (suc n) (x ∷ xs) h = (h.0, All-take P n xs h.1)

pub IsLog-take : (n : ℕ) (log : Log) → IsLog log → IsLog (take n log)
IsLog-take zero log v = tt
IsLog-take (suc n) [] v = tt
IsLog-take (suc n) (m ∷ log) v = (
  All-take (λ x. x.id < m.id) n log v.0,
  All-take (λ x. x.timestamp ≤ m.timestamp) n log v.1,
  IsLog-take n log v.2,
)

pub at_most_later :
    (now later : Time) (ms : Log)
    → now ≤ later
    → All (λ m. m.timestamp ≤ now) ms
    → All (λ m. m.timestamp ≤ later) ms
at_most_later now later [] h v = tt
at_most_later now later (m ∷ ms) h v = (omega (arith, v.0), at_most_later now later ms h v.1)

pub below_higher : (n k : ℕ) (ms : Log) → n ≤ k → All (λ m. m.id < n) ms → All (λ m. m.id < k) ms
below_higher n k [] h v = tt
below_higher n k (m ∷ ms) h v = (omega (arith, v.0), below_higher n k ms h v.1)
