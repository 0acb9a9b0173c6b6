-- ===== src/Server/Ratelimit.antt =====
-- backend/internal/ratelimit/ws.go: one limiter for each address. The token bucket of the package `rate`
-- is a parameter.
use chatster.Prelude.{
  Bool, List, Option, [], if◌then◌else◌, ltb, none, some, ℕ, ◌==◌, ◌∷◌, nat_eq, list_eq,
}
use chatster.Text.{Text}
use chatster.Db.Rows.{Time}

-- `rate.NewLimiter`, and `Allow` at a time of the clock.
pub record Bucket (Rate L : Type 0) : Type 0 where
  pub new_limiter : Rate → ℕ → L
  pub allow : Time → L → L × Bool

-- `limiters` is the map from addresses, as the list of its entries.
pub record WsUpgrade (Rate L : Type 0) : Type 0 where
  pub limiters : List (Text × L)
  pub rps : Rate
  pub burst : ℕ

unfoldable pub find_limiter : {L : Type 0} → Text → List (Text × L) → Option L
find_limiter ip [] = none
find_limiter ip ((k, l) ∷ rest) =
    let found = find_limiter ip rest in if k == ip then some l else found

-- The entry of an address is made or changed.
unfoldable pub put_limiter : {L : Type 0} → Text → L → List (Text × L) → List (Text × L)
put_limiter ip l [] = (ip, l) ∷ []
put_limiter ip l ((k, l') ∷ rest) =
    let stored = put_limiter ip l rest in if k == ip then (k, l) ∷ rest else (k, l') ∷ stored

module _ {Rate L : Type 0} where
  -- `NewWSUpgrade`
  abbrev pub new_ws_upgrade : Rate → ℕ → WsUpgrade Rate L
  new_ws_upgrade rps burst = record {
    limiters = [];
    rps = rps;
    burst = if ltb burst 1 then 1 else burst;
  }

module _ {Rate L : Type 0} (bucket : Bucket Rate L) where
  -- The limiter of an address, a new one if there is none.
  abbrev pub limiter_of : Text → WsUpgrade Rate L → L
  limiter_of ip w = elim (find_limiter ip w.limiters) [
    | none ↦ bucket.new_limiter w.rps w.burst
    | some l ↦ l
  ]

  -- `Allow`
  unfoldable pub allow_ip : Time → Text → WsUpgrade Rate L → WsUpgrade Rate L × Bool
  allow_ip now ip w =
      let (l, allowed) = bucket.allow now (limiter_of ip w) in
      (record w { limiters = put_limiter ip l w.limiters }, allowed)
