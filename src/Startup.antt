-- ===== src/Startup.antt =====
-- The start of the process in backend/main.go: `newAuthService`, the retention and `shutdownServer`.
-- The stores, the clock and the HTTP server are arguments.
pub mod Guarded
use chatster.Prelude.{
  List, Option, Result, err, if◌then◌else◌, is_nil, ltb, none, ok, some, ℕ, ◌&&◌, ◌==◌, nat_eq,
  list_eq,
}
use chatster.Text.{Unicode}
use chatster.Codec.{Digest, Json}
use chatster.Db.Rows.{Time}
use chatster.Auth.Principals.{ConfigError, Credential}
use chatster.Auth.Service.{Service, mode_of, mode_session, new}

-- Why no service starts.
pub data AuthStartError : Type 0 where
  auth_config : ConfigError → AuthStartError
  origins_required : AuthStartError

abbrev pub auth_settings :
    {Float : Type 0} → chatster.Config.Config Float → chatster.Auth.Service.Config
auth_settings cfg = record {
  mode = cfg.auth_mode;
  session_secret = cfg.session_secret;
  credentials_json = cfg.auth_users_json;
  session_ttl = cfg.session_ttl;
  cookie_secure = cfg.session_cookie_secure;
}

module _ ⦃u : Unicode⦄ ⦃g : Digest⦄ ⦃c : Json (List Credential)⦄ where
  unfoldable pub new_auth_service :
      {Float : Type 0} → chatster.Config.Config Float → Result AuthStartError Service
  new_auth_service cfg = elim (new (auth_settings cfg)) [
    | err e ↦ err (auth_config e)
    | ok s ↦
        if mode_of (some s) == mode_session && is_nil cfg.allowed_origins
        then err origins_required
        else ok s
  ]

-- One of the two methods of the repository that the retention calls.
abbrev pub Prune : Type 0 → Type 0 → Type 0
Prune E S = Time → S → Result E ℕ × S

-- One retention, with the time that lies so many days back.
unfoldable pub retain : {E S : Type 0} → Prune E S → (ℕ → Time) → ℕ → S → Result E ℕ × S
retain prune days_ago days s = if ltb 0 days then prune (days_ago days) s else (ok 0, s)

-- The retention of the messages and of the audit, with the clock that each reads; the process ends at
-- the first failure.
unfoldable pub run_retention :
    {E S Float : Type 0}
    → Prune E S
    → Prune E S
    → (ℕ → Time)
    → (ℕ → Time)
    → chatster.Config.Config Float
    → S
    → Result E (ℕ × ℕ) × S
run_retention prune_messages prune_audit messages_ago audit_ago cfg s =
    let (messages, s₁) = retain prune_messages messages_ago cfg.message_retention_days s in
    elim messages [
      | err e ↦ (err e, s₁)
      | ok n ↦
          let (events, s₂) = retain prune_audit audit_ago cfg.audit_retention_days s₁ in
          (elim events [ err e ↦ err e | ok k ↦ ok (n, k) ], s₂)
    ]

-- `shutdownServer`: the error of the hub comes first.
unfoldable pub shutdown_error : {E : Type 0} → Option E → Option E → Option E
shutdown_error none server_error = server_error
shutdown_error (some e) server_error = some e
