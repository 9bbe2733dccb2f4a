-- ===== src/Auth/Data.antt =====
-- The store `auth.json` and the tables of linkmoth_auth.py. Times are whole seconds; hashing, key
-- derivation and one-time codes are parameters.
use linkmoth.Prelude.{ℕ, String, Bool, Option, List, max, length}
use linkmoth.Text.{codes}

-- What the code takes from `hashlib`, `hmac` and `struct`: the check of a password or a recovery code
-- against a salt and a hash, the hash of a session id, a secret or a token, and the code of a secret
-- at a counter, which raises for a malformed secret.
pub record Crypto : Type 0 where
  pub verify : String → String × String → Bool
  pub digest : String → String
  pub totp_at : String → ℕ → Option String

-- `auth` in the configuration, with the defaults filled in.
pub record AuthConfig : Type 0 where
  pub session_ttl_seconds : ℕ
  pub session_idle_seconds : ℕ
  pub login_max_attempts : ℕ
  pub login_lockout_seconds : ℕ

abbrev pub session_ttl : AuthConfig → ℕ
session_ttl cfg = max 1 cfg.session_ttl_seconds

abbrev pub session_idle : AuthConfig → ℕ
session_idle cfg = max 60 cfg.session_idle_seconds

abbrev pub max_attempts : AuthConfig → ℕ
max_attempts cfg = max 1 cfg.login_max_attempts

abbrev pub lockout_seconds : AuthConfig → ℕ
lockout_seconds cfg = max 30 cfg.login_lockout_seconds

-- A secret that waits for its first code, and the time of its set-up.
pub record Pending : Type 0 where
  pub secret : String
  pub created : ℕ

-- A one-time token for the set-up, and when it expires.
pub record Onboarding : Type 0 where
  pub token : String
  pub expires : ℕ

pub record ReadonlyToken : Type 0 where
  pub id : String
  pub name : String
  pub hash : String
  pub created : ℕ

-- `password` and each of `recovery` are a salt and a hash, which are always written together.
pub record AuthStore : Type 0 where
  pub password : Option (String × String)
  pub onboarding : Option Onboarding
  pub webhook_secret : Option String
  pub totp_secret : Option String
  pub recovery : List (String × String)
  pub pending : Option Pending
  pub readonly_tokens : List ReadonlyToken

-- A row of `auth_sessions`.
pub record Session : Type 0 where
  pub id : String
  pub created : ℕ
  pub expires : ℕ
  pub csrf_token : String
  pub totp_verified : Bool
  pub totp_fingerprint : Option String
  pub last_activity : Option ℕ

-- A row of `auth_login_attempts`.
pub record Attempts : Type 0 where
  pub ip : String
  pub failures : ℕ
  pub locked_until : ℕ
  pub last_attempt : ℕ

-- A row of `auth_totp_uses`.
pub record TotpUse : Type 0 where
  pub fingerprint : String
  pub last_counter : ℕ

-- A row of `auth_events`.
pub record AuthEvent : Type 0 where
  pub id : ℕ
  pub ts : ℕ
  pub event : String
  pub ip : String
  pub detail : String

pub record Auth : Type 0 where
  pub store : AuthStore
  pub sessions : List Session
  pub attempts : List Attempts
  pub totp_uses : List TotpUse
  pub events : List AuthEvent
  pub next_event : ℕ

-- `len(text)`.
abbrev pub text_length : String → ℕ
text_length s = length (codes s)
