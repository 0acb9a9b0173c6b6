-- ===== src/Config/Bounds.antt =====
-- The bounds of the settings that are read.
use chatster.Prelude.Int.{negsuc, pos, ℤ}
use chatster.Prelude.{
  All, Bool-cases, Option, [], arith, if-elim, if◌then◌else◌, inl, inr, is_nil, ltb, ltb_false→le,
  ltb→lt, min, none, or-false, refl, some, ℕ, ◌++◌, ◌<◌, ◌^◌, ◌||◌, ◌∷◌, ◌≡◌, ◌≢◌, ◌≤◌,
}
use chatster.Text.{Text, Unicode, codes, to_lower, trim_space}
use chatster.Text.Numbers.{atoi, itoa, parse_int32}
use chatster.Text.Numbers.Digits.{atoi-itoa, atoi_fits}
use chatster.Config.{
  Config, Env, Formats, default_http_addr, from_env, or_default, platform_http_addr, pool_size,
  positive_or,
}
use chatster.Config.Origins.{IsEntry, split_csv-IsEntry}

-- A number of connections, or the mark of a value that was refused.
pub data IsPoolSize : ℤ → Type 0 where
  refused_size : IsPoolSize (negsuc 0)
  given_size : (n : ℕ) → 1 ≤ n → n < 2 ^ 31 → IsPoolSize (pos n)

pool_size-IsPoolSize :
    (value : Text) (default : ℕ)
    → 1 ≤ default
    → default < 2 ^ 31
    → IsPoolSize (pool_size value default)
unfolding pool_size parse_int32
pool_size-IsPoolSize value default low high =
    if-elim IsPoolSize (is_nil (trim_space value)) (λ e. given_size default low high)
      (λ e. read (atoi (trim_space value)))
  where
    read :
        (o : Option ℤ)
        → IsPoolSize
            (elim (elim o as (λ _. Option ℤ) [
              | none ↦ none
              | some (pos n) ↦ if ltb n (2 ^ 31) then some (pos n) else none
              | some (negsuc n) ↦ if ltb n (2 ^ 31) then some (negsuc n) else none
            ])
              as (λ _. ℤ) [
                | none ↦ negsuc 0
                | some (negsuc n) ↦ negsuc 0
                | some (pos n) ↦ if ltb n 1 then negsuc 0 else pos n
              ])
    read none = refused_size
    read (some (negsuc n)) = elim (Bool-cases (ltb n (2 ^ 31))) [
      | inl e ↦ rw e refused_size
      | inr e ↦ rw e refused_size
    ]
    read (some (pos n)) = elim (Bool-cases (ltb n (2 ^ 31))) [
      | inl e ↦ rw e (
          if-elim IsPoolSize (ltb n 1) (λ z. refused_size)
            (λ z. given_size n (ltb_false→le n 1 z) (ltb→lt n (2 ^ 31) e)))
      | inr e ↦ rw e refused_size
    ]

-- An address to listen on: the default one, or a port that is written in decimal.
pub data IsPortAddr : Text → Type 0 where
  default_addr : IsPortAddr default_http_addr
  port :
      (n : ℕ) → 1 ≤ n → n ≤ 65535 → atoi (itoa n) ≡ some (pos n) → IsPortAddr (codes ":" ++ itoa n)

platform_http_addr-IsPortAddr : (value : Text) → IsPortAddr (platform_http_addr value)
unfolding platform_http_addr
platform_http_addr-IsPortAddr value =
    if-elim IsPortAddr (is_nil (trim_space value)) (λ e. default_addr)
      (λ e. read (atoi (trim_space value)))
  where
    read :
        (o : Option ℤ)
        → IsPortAddr (elim o as (λ _. Text) [
          | none ↦ default_http_addr
          | some (negsuc n) ↦ default_http_addr
          | some (pos n) ↦ if ltb n 1 || ltb 65535 n then default_http_addr else codes ":" ++ itoa n
        ])
    read none = default_addr
    read (some (negsuc n)) = default_addr
    read (some (pos n)) =
        if-elim IsPortAddr (ltb n 1 || ltb 65535 n) (λ e. default_addr)
          (λ e.
            let (low, high) = or-false (ltb n 1) (ltb 65535 n) e in
            let top = ltb_false→le 65535 n high in
            port n (ltb_false→le n 1 low) top (atoi-itoa n (omega arith)))

positive_or-bounds :
    (default : ℕ) (value : Text)
    → default < 2 ^ 63
    → (min 1 default ≤ positive_or default value) × (positive_or default value < 2 ^ 63)
unfolding positive_or
positive_or-bounds default value small =
    if-elim Fits (is_nil (trim_space value)) (λ e. (omega arith, small))
      (λ e. read (atoi (trim_space value)) (atoi_fits (trim_space value)))
  where
    Fits : ℕ → Type 0
    Fits n = (min 1 default ≤ n) × (n < 2 ^ 63)

    read :
        (o : Option ℤ)
        → ((n : ℕ) → o ≡ some (pos n) → n < 2 ^ 63)
        → Fits (elim o as (λ _. ℕ) [
          | none ↦ default
          | some (negsuc n) ↦ default
          | some (pos n) ↦ if ltb 0 n then n else default
        ])
    read none fits = (omega arith, small)
    read (some (negsuc n)) fits = (omega arith, small)
    read (some (pos n)) fits =
        if-elim Fits (ltb 0 n) (λ e. let p = ltb→lt 0 n e in (omega arith, fits n refl))
          (λ e. (omega arith, small))

or_default-given : (value default : Text) → default ≢ [] → or_default value default ≢ []
or_default-given [] default g = g
or_default-given (c ∷ s) default g = λ e. cc

-- The address to listen on, for the value that is configured.
pub data IsAddr (value addr : Text) : Type 0 where
  configured_addr : value ≢ [] → addr ≡ value → IsAddr value addr
  chosen : value ≡ [] → IsPortAddr addr → IsAddr value addr

-- The bounds of all settings.
pub record IsSane {Float : Type 0} (c : Config Float) : Type 0 where
  pub stored : c.db_path ≢ []
  pub storage : c.storage ≢ []
  pub namespace : c.redis_namespace ≢ []
  pub mode : c.auth_mode ≢ []
  pub min_conns : IsPoolSize c.postgres_min_conns
  pub max_conns : IsPoolSize c.postgres_max_conns
  pub upgrade_burst : (1 ≤ c.ws_upgrade_burst) × (c.ws_upgrade_burst < 2 ^ 63)
  pub message_burst : (1 ≤ c.message_burst) × (c.message_burst < 2 ^ 63)
  pub message_retention : c.message_retention_days < 2 ^ 63
  pub audit_retention : c.audit_retention_days < 2 ^ 63
  pub origins : All IsEntry c.allowed_origins

-- Whatever the environment holds, no text that has a default is empty, each pool size is -1 or from 1
-- to 2 to the 31 less 1, each burst is from 1 to 2 to the 63 less 1 and each retention below that, the
-- allowed origins are trimmed, not empty and without a comma, and the address to listen on is the one
-- that is configured, or, if it is blank, the default one or a decimal port from 1 to 65535.
pub from_env-IsSane :
    ⦃u : Unicode⦄ {Float : Type 0} (f : Formats Float) (env : Env)
    → IsSane (from_env f env)
      × IsAddr (trim_space (env (codes "CHATSTER_HTTP_ADDR"))) (from_env f env).http_addr
unfolding from_env
from_env-IsSane f env =
    let port_addr = platform_http_addr-IsPortAddr (env (codes "PORT")) in
    let upgrade = positive_or-bounds 10 (env (codes "CHATSTER_WS_UPGRADE_BURST")) (ground arith) in
    let message = positive_or-bounds 10 (env (codes "CHATSTER_MESSAGE_BURST")) (ground arith) in
    (
      record {
        stored =
            or_default-given (trim_space (env (codes "CHATSTER_DB_PATH"))) (codes "./chatster.db")
              (λ e. cc);
        storage =
            or_default-given (to_lower (trim_space (env (codes "CHATSTER_STORAGE"))))
              (codes "sqlite") (λ e. cc);
        namespace =
            or_default-given (trim_space (env (codes "CHATSTER_REDIS_NAMESPACE")))
              (codes "development") (λ e. cc);
        mode =
            or_default-given (to_lower (trim_space (env (codes "CHATSTER_AUTH_MODE"))))
              (codes "anonymous") (λ e. cc);
        min_conns = pool_size-IsPoolSize _ 2 (ground arith) (ground arith);
        max_conns = pool_size-IsPoolSize _ 10 (ground arith) (ground arith);
        upgrade_burst = (omega (arith, upgrade.0), upgrade.1);
        message_burst = (omega (arith, message.0), message.1);
        message_retention = (positive_or-bounds 0 _ (ground arith)).1;
        audit_retention = (positive_or-bounds 0 _ (ground arith)).1;
        origins = split_csv-IsEntry (env (codes "CHATSTER_ALLOWED_ORIGINS"));
      },
      configured (trim_space (env (codes "CHATSTER_HTTP_ADDR"))) _ port_addr,
    )
  where
    configured : (value addr : Text) → IsPortAddr addr → IsAddr value (or_default value addr)
    configured [] addr v = chosen refl v
    configured (c ∷ s) addr v = configured_addr (λ e. cc) refl
