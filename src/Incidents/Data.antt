-- ===== src/Incidents/Data.antt =====
-- The rows of `incidents`, `runs` and `incident_outage_segments`.
use linkmoth.Prelude.{ℕ, String, Bool, Option, List}
use linkmoth.Diagnosis.Verdict.{Severity, FaultCode}

pub record Incident : Type 0 where
  pub id : ℕ
  pub started : ℕ
  pub source : String
  pub detail : String
  pub resolved : Option ℕ
  pub recovered_at : Option ℕ
  pub verdict_code : Option FaultCode
  pub verdict_title : Option String
  pub diagnosis_code : Option FaultCode
  pub diagnosis_title : Option String
  pub false_alarm : Bool

pub record RunRow : Type 0 where
  pub incident_id : Option ℕ
  pub ts : ℕ
  pub severity : Severity

pub record Segment : Type 0 where
  pub started : ℕ
  pub ended : Option ℕ

pub record SegmentRow : Type 0 where
  pub incident_id : ℕ
  pub segment : Segment

-- `next_id` is the rowid that SQLite gives to the next incident.
pub record IncidentDb : Type 0 where
  pub incidents : List Incident
  pub next_id : ℕ
  pub runs : List RunRow
  pub segments : List SegmentRow
