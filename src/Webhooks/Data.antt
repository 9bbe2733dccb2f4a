-- ===== src/Webhooks/Data.antt =====
-- The tables of linkmoth_webhooks.py. Times are whole seconds.
use linkmoth.Prelude.{
  ℕ, ◌*◌, String, Bool, Option, List, [], ◌∷◌, any, leb, ◌==◌, str_eq, if◌then◌else◌,
}

-- Strings in a set.
abbrev pub is_one_of : List String → String → Bool
is_one_of names x = any (λ n. str_eq n x) names

abbrev pub max_webhooks : ℕ
max_webhooks = 20

abbrev pub queue_cap : ℕ
queue_cap = 500

abbrev pub max_delivery_attempts : ℕ
max_delivery_attempts = 10

abbrev pub gone_max_attempts : ℕ
gone_max_attempts = 3

abbrev pub max_age_seconds : ℕ
max_age_seconds = 24 * 3600

abbrev pub drain_batch : ℕ
drain_batch = 20

-- `BACKOFF_SECONDS[min(attempts - 1, 4)]`, by the number of attempts made.
unfoldable pub backoff_seconds : ℕ → ℕ
backoff_seconds attempts =
    if leb attempts 1
    then 30
    else if attempts == 2
    then 120
    else if attempts == 3
    then 600
    else if attempts == 4
    then 1800
    else 3600

abbrev pub event_ids : List String
event_ids =
    "fault_opened" ∷ "fault_updated" ∷ "fault_recovered" ∷ "fault_closed" ∷ "degradation_detected"
    ∷ "diagnosis_run" ∷ "false_alarm_marked" ∷ "device_down" ∷ "device_recovered"
    ∷ "public_exposure_detected" ∷ []

unfoldable pub is_known : String → Bool
is_known event = is_one_of event_ids event

-- `ESCALATABLE_EVENTS` and `ESCALATION_CLEAR_EVENTS`.
unfoldable pub is_escalatable : String → Bool
is_escalatable event = is_one_of ("fault_opened" ∷ "degradation_detected" ∷ []) event

unfoldable pub is_clearing : String → Bool
is_clearing event = is_one_of ("fault_recovered" ∷ "fault_closed" ∷ "false_alarm_marked" ∷ []) event

-- What the payload is rendered from: the incident's reference, "" where there is none, and the rest.
pub record Context : Type 0 where
  pub incident_id : String
  pub text : String

-- A row of `webhooks`; `events` is decoded, and the columns that only rendering reads are `target`.
pub record Webhook : Type 0 where
  pub id : String
  pub enabled : Bool
  pub target : String
  pub events : List String
  pub escalation_minutes : ℕ
  pub last_send_ts : Option ℕ
  pub last_status : Option ℕ
  pub last_error : Option String

-- A row of `webhook_queue`.
pub record Delivery : Type 0 where
  pub id : ℕ
  pub webhook_id : String
  pub event : String
  pub context : Context
  pub created : ℕ
  pub attempts : ℕ
  pub next_attempt : ℕ
  pub last_error : Option String
  pub escalation_seconds : ℕ

-- The tables, each in the order of its row ids.
pub record HookDb : Type 0 where
  pub webhooks : List Webhook
  pub queue : List Delivery
