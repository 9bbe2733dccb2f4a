-- ===== src/Incidents/Store.antt =====
-- The statements on `incidents` and `incident_outage_segments`: `_record_incident_observation` and
-- `_close_open_outage_segment` of linkmoth_core.py, and the part of `diagnose_once` of
-- linkmoth_engine.py that stores a run.
use linkmoth.Prelude.{
  ℕ, Bool, true, false, ◌&&◌, Option, none, some, List, [], ◌∷◌, ◌++◌, any, count, keep, map,
  update, ◌==◌, if◌then◌else◌,
}
use linkmoth.Diagnosis.Verdict.{Severity}
use linkmoth.Incidents.Data.{Incident, RunRow, Segment, SegmentRow, IncidentDb}
use linkmoth.Incidents.Segments.{is_ok}

abbrev pub is_none : Option ℕ → Bool
is_none none = true
is_none (some t) = false

-- `resolved IS NULL`.
abbrev pub is_unresolved : Incident → Bool
is_unresolved incident = is_none incident.resolved

unfoldable pub find_incident : ℕ → List Incident → Option Incident
find_incident i [] = none
find_incident i (incident ∷ rest) =
    let later = find_incident i rest in if incident.id == i then some incident else later

abbrev pub last_open : Option Incident → List Incident → Option Incident
last_open found [] = found
last_open found (incident ∷ rest) =
    last_open (if is_unresolved incident then some incident else found) rest

-- `open_incident`: the newest incident that is not resolved.
unfoldable pub open_incident : List Incident → Option Incident
open_incident incidents = last_open none incidents

-- `ended IS NULL`.
abbrev pub is_open : Segment → Bool
is_open s = is_none s.ended

abbrev pub end_if_open : ℕ → Segment → Segment
end_if_open at s = if is_open s then record s { ended = some at } else s

abbrev pub end_row : ℕ → ℕ → SegmentRow → SegmentRow
end_row i at row =
    if row.incident_id == i then record row { segment = end_if_open at row.segment } else row

unfoldable pub close_open_outage_segment : ℕ → ℕ → IncidentDb → IncidentDb
close_open_outage_segment i at db = record db { segments = map (end_row i at) db.segments }

-- The segments of one incident, in order.
unfoldable pub segments_of : ℕ → List SegmentRow → List Segment
segments_of i [] = []
segments_of i (row ∷ rows) =
    let rest = segments_of i rows in if row.incident_id == i then row.segment ∷ rest else rest

abbrev pub of_incident : ℕ → RunRow → Bool
of_incident i run = elim run.incident_id [ none ↦ false | some j ↦ j == i ]

unfoldable pub runs_of : ℕ → List RunRow → List RunRow
runs_of i runs = keep (of_incident i) runs

-- Where the segment that a failing run opens begins.
unfoldable pub segment_start : Incident → ℕ → IncidentDb → ℕ
segment_start incident at db =
    if (count (λ (row : SegmentRow). row.incident_id == incident.id) db.segments == 0)
      && (count (of_incident incident.id) db.runs == 1)
    then incident.started
    else at

unfoldable pub open_segment : Incident → ℕ → IncidentDb → IncidentDb
open_segment incident at db =
    if any (λ (row : SegmentRow). (row.incident_id == incident.id) && is_open row.segment)
      db.segments
    then db
    else record db {
      segments =
          db.segments
          ++ record {
            incident_id = incident.id;
            segment = record { started = segment_start incident at db; ended = none };
          }
            ∷ [];
    }

abbrev pub coalesce : Option ℕ → ℕ → Option ℕ
coalesce none at = some at
coalesce (some t) at = some t

abbrev pub mark_recovered : ℕ → Incident → Incident
mark_recovered at x = record x { recovered_at = coalesce x.recovered_at at }

abbrev pub mark_failing : Incident → Incident
mark_failing x = record x { recovered_at = none }

-- `UPDATE incidents SET … WHERE id=? AND resolved IS NULL`.
unfoldable pub update_unresolved : ℕ → (Incident → Incident) → IncidentDb → IncidentDb
update_unresolved i f db = record db {
  incidents = update (λ x. (x.id == i) && is_unresolved x) f db.incidents;
}

unfoldable pub observe_incident : Incident → ℕ → Severity → IncidentDb → IncidentDb
observe_incident incident at severity db =
    if is_ok severity
    then update_unresolved incident.id (mark_recovered at)
        (close_open_outage_segment incident.id at db)
    else update_unresolved incident.id mark_failing (open_segment incident at db)

unfoldable pub record_incident_observation : Option ℕ → ℕ → Severity → IncidentDb → IncidentDb
record_incident_observation none at severity db = db
record_incident_observation (some i) at severity db = elim (find_incident i db.incidents) [
  | none ↦ db
  | some incident ↦ if is_unresolved incident then observe_incident incident at severity db else db
]

-- What `diagnose_once` writes for a run.
unfoldable pub store_run : Option ℕ → ℕ → Severity → IncidentDb → IncidentDb
store_run i at severity db =
    record_incident_observation i at severity (record db {
      runs = db.runs ++ record { incident_id = i; ts = at; severity = severity } ∷ [];
    })
