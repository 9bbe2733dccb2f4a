-- ===== src/Auth/Throttle.antt =====
-- The throttle on guesses of linkmoth_auth.py: `login_allowed`, `record_login_failure` and
-- `clear_login_failures`.
use linkmoth.Prelude.{
  ℕ, suc, ◌+◌, ◌-◌, String, Bool, true, false, not, Option, none, some, List, [], ◌∷◌, keep, max,
  ltb, leb, str_eq, if◌then◌else◌,
}
use linkmoth.Auth.Data.{AuthConfig, max_attempts, lockout_seconds, Attempts}

unfoldable pub find_attempts : String → List Attempts → Option Attempts
find_attempts ip [] = none
find_attempts ip (row ∷ rows) =
    let later = find_attempts ip rows in if str_eq row.ip ip then some row else later

-- `INSERT … ON CONFLICT(ip) DO UPDATE`.
unfoldable pub put_attempts : Attempts → List Attempts → List Attempts
put_attempts new [] = new ∷ []
put_attempts new (row ∷ rows) =
    let later = put_attempts new rows in if str_eq row.ip new.ip then new ∷ rows else row ∷ later

-- Whether a row locks its address at a time.
abbrev pub locks : Option Attempts → ℕ → Bool
locks none now = false
locks (some row) now = ltb now row.locked_until

abbrev retry_after : Option Attempts → ℕ → ℕ
retry_after none now = 0
retry_after (some row) now = max 1 (row.locked_until - now)

unfoldable pub login_allowed : String → ℕ → List Attempts → Bool × ℕ
login_allowed ip now rows =
    let row = find_attempts ip rows in
    if locks row now then (false, retry_after row now) else (true, 0)

abbrev pub failures_of : Option Attempts → ℕ
failures_of none = 0
failures_of (some row) = row.failures

-- The row after one more failure.
unfoldable pub failed_row : AuthConfig → String → ℕ → Option Attempts → Attempts
failed_row cfg ip now row =
    let failures = suc (failures_of row) in
    let full = leb (max_attempts cfg) failures in
    record {
      ip = ip;
      failures = if full then 0 else failures;
      locked_until = if full then now + lockout_seconds cfg else 0;
      last_attempt = now;
    }

unfoldable pub record_login_failure : AuthConfig → String → ℕ → List Attempts → List Attempts
record_login_failure cfg ip now rows =
    let row = find_attempts ip rows in
    if locks row now then rows else put_attempts (failed_row cfg ip now row) rows

unfoldable pub clear_login_failures : String → List Attempts → List Attempts
clear_login_failures ip rows = keep (λ row. not (str_eq row.ip ip)) rows
