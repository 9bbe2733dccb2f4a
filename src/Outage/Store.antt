-- ===== src/Outage/Store.antt =====
-- The rows that an outage leaves in the database: `suppressed_alerts` and `network_outage`, with
-- the functions of linkmoth_kuma_proxy.py that write and clear the first.
use linkmoth.Prelude.{
  ℕ, suc, String, Bool, not, Option, none, some, List, [], ◌∷◌, ◌++◌, keep, any, newest, max, ◌==◌,
  str_eq, if◌then◌else◌,
}
use linkmoth.Text.{truncate}
use linkmoth.Diagnosis.Check.{Check}
use linkmoth.Diagnosis.Verdict.{FaultCode, Verdict}

-- The parts of an alert's payload that the code reads; an absent or non-textual key is "".
pub record Payload : Type 0 where
  pub source : String
  pub monitor : String
  pub verdict : Option (String × String)

pub record Suppressed : Type 0 where
  pub id : ℕ
  pub ts : ℕ
  pub kuma_status : Option ℕ
  pub monitor_detail : String
  pub verdict_code : Option FaultCode
  pub verdict_title : Option String
  pub payload : Payload
  pub reason : String

-- The one row of `network_outage`.
pub record OutageRow : Type 0 where
  pub active : Bool
  pub code : FaultCode
  pub title : String
  pub explain : String
  pub started : ℕ
  pub updated : ℕ
  pub checks : List Check

pub record Db : Type 0 where
  pub suppressed : List Suppressed
  pub outage : Option OutageRow

abbrev pub max_suppressed_alerts : ℕ
max_suppressed_alerts = 500

abbrev cut_verdict : Option (String × String) → Option (String × String)
cut_verdict none = none
cut_verdict (some (code, title)) = some (truncate 64 code, truncate 200 title)

unfoldable pub suppressed_payload_summary : Payload → Payload
suppressed_payload_summary payload =
    let source = truncate 32 payload.source in
    record {
      source = source;
      monitor = truncate 200 payload.monitor;
      verdict = if str_eq source "linkmoth" then cut_verdict payload.verdict else none;
    }

abbrev code_of : Option Verdict → Option FaultCode
code_of none = none
code_of (some v) = some v.code

abbrev title_of : Option Verdict → Option String
title_of none = none
title_of (some v) = some v.title

unfoldable pub suppressed_row :
    ℕ → ℕ → Option ℕ → String → Option Verdict → Payload → String → Suppressed
unfolding suppressed_payload_summary
suppressed_row id now status detail verdict payload reason = record {
  id = id;
  ts = now;
  kuma_status = status;
  monitor_detail = truncate 500 detail;
  verdict_code = code_of verdict;
  verdict_title = title_of verdict;
  payload = suppressed_payload_summary payload;
  reason = truncate 200 reason;
}

-- The rowid that SQLite gives to the next row of `suppressed_alerts`: one above the highest. An id may come
-- back once its row is deleted.
unfoldable pub next_alert_id : List Suppressed → ℕ
next_alert_id [] = 1
next_alert_id (row ∷ rows) = max (suc row.id) (next_alert_id rows)

unfoldable pub record_suppressed :
    ℕ → Option ℕ → String → Option Verdict → Payload → String → Db → Db
unfolding suppressed_row
record_suppressed now status detail verdict payload reason db =
    let row =
      suppressed_row (next_alert_id db.suppressed) now status detail verdict payload reason in
    record db { suppressed = newest max_suppressed_alerts (db.suppressed ++ row ∷ []) }

abbrev pub has_id : List ℕ → ℕ → Bool
has_id ids i = any (λ j. i == j) ids

-- `clear_suppressed_alerts`: every row, or the rows with the given ids.
unfoldable pub clear_suppressed_alerts : Option (List ℕ) → Db → Db
clear_suppressed_alerts none db = record db { suppressed = [] }
clear_suppressed_alerts (some ids) db = record db {
  suppressed = keep (λ row. not (has_id ids row.id)) db.suppressed;
}
