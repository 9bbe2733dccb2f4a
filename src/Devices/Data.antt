-- ===== src/Devices/Data.antt =====
-- The rows of `devices` and `device_runs` and the values that linkmoth_devices.py works with.
use linkmoth.Prelude.{ℕ, String, Bool, Option, List}

pub data Preset : Type 0 where
  generic printer web_ui tcp_service : Preset

-- What one check finds.
pub data RunState : Type 0 where
  up degraded down error : RunState

-- The debounced state of a device.
pub data StableState : Type 0 where
  unknown stable_up stable_degraded stable_down : StableState

pub data Event : Type 0 where
  fault recovery : Event

pub data Source : Type 0 where
  manual scheduled : Source

pub record Alerts : Type 0 where
  pub discord : Bool
  pub push : Bool
  pub webhook : Bool

pub record WebSettings : Type 0 where
  pub https : Bool
  pub port : ℕ
  pub path : String
  pub expected_status : ℕ
  pub body_contains : String
  pub verify_tls : Bool

pub data Settings : Type 0 where
  no_settings : Settings
  tcp_port : ℕ → Settings
  web : WebSettings → Settings

pub record ServiceResult : Type 0 where
  pub ok : Option Bool
  pub detail : String
  pub ms : Option ℕ

pub record RunResult : Type 0 where
  pub state : RunState
  pub summary : String
  pub duration_ms : ℕ
  pub results : List ServiceResult
  pub event_ts : Option ℕ

-- The user's fields of a device, as `validate_device` returns them.
pub record Clean : Type 0 where
  pub name : String
  pub address : String
  pub preset : Preset
  pub enabled : Bool
  pub interval_seconds : ℕ
  pub alerts : Alerts
  pub settings : Settings

-- The streaks and the debounced state.
pub record Health : Type 0 where
  pub stable_state : StableState
  pub success_streak : ℕ
  pub failure_streak : ℕ

-- A row of `devices`; its key, a UUID, is a number here.
pub record Device : Type 0 where
  pub id : ℕ
  pub config : Clean
  pub created : ℕ
  pub updated : ℕ
  pub last_run_ts : Option ℕ
  pub last_state : Option RunState
  pub last_summary : Option String
  pub last_result : Option RunResult
  pub last_success : Option ℕ
  pub last_failure : Option ℕ
  pub health : Health
  pub next_run : Option ℕ

pub record DeviceRun : Type 0 where
  pub id : ℕ
  pub device_id : ℕ
  pub ts : ℕ
  pub source : Source
  pub state : RunState
  pub summary : String
  pub duration_ms : ℕ
  pub results : List ServiceResult

-- `next_run_id` is the rowid that SQLite gives to the next row of `device_runs`.
pub record DeviceDb : Type 0 where
  pub devices : List Device
  pub runs : List DeviceRun
  pub next_run_id : ℕ

pub data DeviceError : Type 0 where
  not_found busy limit_reached value_error : DeviceError

pub data Result {ℓ} (A : Type ℓ) : Type ℓ where
  done : A → Result A
  fail : DeviceError → Result A

infixl 5 ◌>>=◌ ◌>>◌
abbrev pub ◌>>=◌ {ℓ κ} : {A : Type ℓ} {B : Type κ} → Result A → (A → Result B) → Result B
done a >>= f = f a
fail e >>= f = fail e

abbrev pub ◌>>◌ {ℓ} : {B : Type ℓ} → Result (Unit {0}) → Result B → Result B
m >> k = m >>= λ _. k
