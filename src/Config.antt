-- ===== src/Config.antt =====
-- backend/internal/config/config.go: the settings of a process, read from its environment. The numbers
-- of `strconv.ParseFloat` and the durations of `time.ParseDuration` are parameters.
pub mod Origins
pub mod Bounds
use chatster.Prelude.Int.{negsuc, pos, ℤ}
use chatster.Prelude.{
  Bool, List, Option, String, [], false, if◌then◌else◌, is_nil, ltb, none, not, some, true, ℕ, ◌++◌,
  ◌==◌, ◌||◌, ◌∷◌, nat_eq, list_eq,
}
use chatster.Text.{Text, Unicode, codes, equal_fold, split, to_lower, trim_space}
use chatster.Text.Numbers.{atoi, itoa, parse_int32}

-- `strconv.ParseFloat`, the test `f <= 0`, the number 5, and `time.ParseDuration` in nanoseconds.
pub record Formats (Float : Type 0) : Type 0 where
  pub parse_float : Text → Option Float
  pub at_most_zero : Float → Bool
  pub five : Float
  pub parse_duration : Text → Option ℤ

pub record Config (Float : Type 0) : Type 0 where
  pub http_addr : Text
  pub db_path : Text
  pub storage : Text
  pub postgres_dsn : Text
  pub postgres_min_conns : ℤ
  pub postgres_max_conns : ℤ
  pub redis_url : Text
  pub redis_namespace : Text
  pub instance_id : Text
  pub static_dir : Text
  pub allowed_origins : List Text
  pub auth_mode : Text
  pub session_secret : Text
  pub auth_users_json : Text
  pub session_ttl : ℤ
  pub session_cookie_secure : Bool
  pub ws_upgrade_rps : Float
  pub ws_upgrade_burst : ℕ
  pub disable_ws_rate_limit : Bool
  pub message_rps : Float
  pub message_burst : ℕ
  pub disable_message_rate_limit : Bool
  pub message_retention_days : ℕ
  pub audit_retention_days : ℕ

abbrev pub default_http_addr : Text
default_http_addr = codes ":8080"

-- `time.Hour` in nanoseconds
abbrev pub default_ttl : ℤ
default_ttl = pos 3600000000000

-- `os.Getenv`: the empty text where the variable is not set.
abbrev pub Env : Type 0
Env = Text → Text

-- The loop over the parts of `splitCSV`.
unfoldable pub trimmed_parts : List Text → List Text
trimmed_parts [] = []
trimmed_parts (p ∷ ps) =
    let rest = trimmed_parts ps in
    let trimmed = trim_space p in if is_nil trimmed then rest else trimmed ∷ rest

unfoldable pub split_csv : Text → List Text
split_csv s = if is_nil s then [] else trimmed_parts (split b',' s)

-- `parsePoolSizeEnv`, on the value of its variable
unfoldable pub pool_size : Text → ℕ → ℤ
pool_size value default =
    let raw = trim_space value in
    if is_nil raw then pos default else elim (parse_int32 raw) [
      | none ↦ negsuc 0
      | some (negsuc n) ↦ negsuc 0
      | some (pos n) ↦ if ltb n 1 then negsuc 0 else pos n
    ]

-- `platformHTTPAddr`, on the value of `PORT`
unfoldable pub platform_http_addr : Text → Text
platform_http_addr value =
    let port = trim_space value in
    if is_nil port then default_http_addr else elim (atoi port) [
      | none ↦ default_http_addr
      | some (negsuc n) ↦ default_http_addr
      | some (pos n) ↦ if ltb n 1 || ltb 65535 n then default_http_addr else codes ":" ++ itoa n
    ]

-- A number above zero in a variable, or what stands already.
unfoldable pub positive_or : ℕ → Text → ℕ
positive_or default value =
    let v = trim_space value in
    if is_nil v then default else elim (atoi v) [
      | none ↦ default
      | some (negsuc n) ↦ default
      | some (pos n) ↦ if ltb 0 n then n else default
    ]

abbrev pub or_default : Text → Text → Text
or_default value default = if is_nil value then default else value

-- `CHATSTER_SESSION_TTL`; a value that is no duration gives -1.
unfoldable pub session_ttl_of : {Float : Type 0} → Formats Float → Text → ℤ
session_ttl_of f value =
    let raw = trim_space value in
    if is_nil raw
    then default_ttl
    else elim (f.parse_duration raw) [ none ↦ negsuc 0 | some parsed ↦ parsed ]

-- The two settings of a rate: the rate and whether it is switched off.
unfoldable pub rate_of : {Float : Type 0} → Formats Float → Text → Float × Bool
rate_of f value =
    let v = trim_space value in
    if v == codes "0"
    then (f.five, true)
    else if is_nil v
    then (f.five, false)
    else elim (f.parse_float v) [
      | none ↦ (f.five, false)
      | some r ↦ if f.at_most_zero r then (f.five, true) else (r, false)
    ]

unfoldable pub from_env : ⦃u : Unicode⦄ {Float : Type 0} → Formats Float → Env → Config Float
from_env f env =
    let trimmed = λ (name : String). trim_space (env (codes name)) in
    let lowered = λ (name : String). to_lower (trimmed name) in
    let ws = rate_of f (env (codes "CHATSTER_WS_UPGRADE_RPS")) in
    let message = rate_of f (env (codes "CHATSTER_MESSAGE_RPS")) in
    record {
      http_addr =
          or_default (trimmed "CHATSTER_HTTP_ADDR") (platform_http_addr (env (codes "PORT")));
      db_path = or_default (trimmed "CHATSTER_DB_PATH") (codes "./chatster.db");
      storage = or_default (lowered "CHATSTER_STORAGE") (codes "sqlite");
      postgres_dsn = trimmed "CHATSTER_POSTGRES_DSN";
      postgres_min_conns = pool_size (env (codes "CHATSTER_POSTGRES_MIN_CONNS")) 2;
      postgres_max_conns = pool_size (env (codes "CHATSTER_POSTGRES_MAX_CONNS")) 10;
      redis_url = trimmed "CHATSTER_REDIS_URL";
      redis_namespace = or_default (trimmed "CHATSTER_REDIS_NAMESPACE") (codes "development");
      instance_id = trimmed "CHATSTER_INSTANCE_ID";
      static_dir = trimmed "CHATSTER_STATIC_DIR";
      allowed_origins = split_csv (env (codes "CHATSTER_ALLOWED_ORIGINS"));
      auth_mode = or_default (lowered "CHATSTER_AUTH_MODE") (codes "anonymous");
      session_secret = env (codes "CHATSTER_SESSION_SECRET");
      auth_users_json = env (codes "CHATSTER_AUTH_USERS_JSON");
      session_ttl = session_ttl_of f (env (codes "CHATSTER_SESSION_TTL"));
      session_cookie_secure =
          not (equal_fold (trimmed "CHATSTER_SESSION_COOKIE_SECURE") (codes "false"));
      ws_upgrade_rps = ws.0;
      ws_upgrade_burst = positive_or 10 (env (codes "CHATSTER_WS_UPGRADE_BURST"));
      disable_ws_rate_limit = ws.1;
      message_rps = message.0;
      message_burst = positive_or 10 (env (codes "CHATSTER_MESSAGE_BURST"));
      disable_message_rate_limit = message.1;
      message_retention_days = positive_or 0 (env (codes "CHATSTER_MESSAGE_RETENTION_DAYS"));
      audit_retention_days = positive_or 0 (env (codes "CHATSTER_AUDIT_RETENTION_DAYS"));
    }
