-- ===== src/Incidents/Tests.antt =====
-- Segments of incidents, and the theorems at concrete inputs.
use linkmoth.Prelude.{
  ◌≡◌, ◌≢◌, ◌≤◌, ◌↔◌, refl, ◌&&◌, true, false, Option, none, some, List, [], ◌∷◌, All, ltb, arith,
}
use linkmoth.Diagnosis.Verdict.{
  Severity, ok, warn, bad, FaultCode, all_clear, wan_down, web_broken, Verdict,
}
use linkmoth.Incidents.Data.{Incident, Segment, IncidentDb}
use linkmoth.Incidents.Segments.{to_end, outage_seconds, is_ok, derive_outage_segments}
use linkmoth.Incidents.Store.{
  open_incident, find_incident, runs_of, segments_of, store_run, record_incident_observation,
  observe_incident, update_unresolved, open_segment, segment_start, close_open_outage_segment,
}
use linkmoth.Incidents.Agreement.{Stored, store_all, Ordered}
use linkmoth.Incidents.Derived.{IsFresh, derive-store_all, derive-close}
use linkmoth.Incidents.Engine.{
  Race, Engine, insert_incident, attach_or_insert, guarded_insert, open_or_attach, trigger, resolve,
  close_open_incident,
}
use linkmoth.Incidents.Single.{unresolved}
use linkmoth.Incidents.Calls.{start, then_call, triggered, closed, unresolved-Calls}
use linkmoth.Incidents.Loop.{recheck}
use linkmoth.Incidents.Rechecks.{watch, trailing_ok, Covers, recovers_iff, worst-Covers}
use linkmoth.Incidents.Measure.{measure}
use linkmoth.Incidents.Seconds.{after, down_at, outage_seconds-measure}

abbrev overlapping : List Segment
overlapping =
    record { started = 10; ended = some 20 }
    ∷ record { started = 15; ended = some 25 }
    ∷ record { started = 30; ended = none }
    ∷ []

outage_seconds-measure_example :
    outage_seconds overlapping (some 12) none 40
    ≡ measure
        (to_end 40 none)
        (λ t. (after (some 12) t && ltb t (to_end 40 none)) && down_at 40 overlapping t)
outage_seconds-measure_example = outage_seconds-measure overlapping (some 12) none 40

abbrev opened_as : Incident
opened_as = record {
  id = 3;
  started = 100;
  source = "kuma";
  detail = "NAS";
  resolved = none;
  recovered_at = none;
  verdict_code = none;
  verdict_title = none;
  diagnosis_code = none;
  diagnosis_title = none;
  false_alarm = false;
}

abbrev ledger : IncidentDb
ledger = record { incidents = opened_as ∷ []; next_id = 4; runs = []; segments = [] }

ledger-IsFresh : IsFresh 3 opened_as ledger
unfolding find_incident runs_of segments_of
ledger-IsFresh = record { found = refl; unresolved = refl; runs = refl; segments = refl }

-- Down, healthy, and down again, with a run for no incident between.
abbrev history : List Stored
history =
    record { target = some 3; at = 160; severity = warn }
    ∷ record { target = none; at = 150; severity = bad }
    ∷ record { target = some 3; at = 140; severity = ok }
    ∷ record { target = some 3; at = 120; severity = bad }
    ∷ []

history-Ordered : Ordered 100 history
history-Ordered = (omega arith, (omega arith, (omega arith, (omega arith, tt))))

abbrev row : Incident
row = record opened_as { recovered_at = none }

row_found : find_incident 3 (store_all history ledger).incidents ≡ some row
unfolding store_all store_run record_incident_observation observe_incident update_unresolved
    open_segment close_open_outage_segment find_incident segment_start
row_found = refl

has_run : runs_of 3 (store_all history ledger).runs ≢ []
unfolding store_all store_run record_incident_observation observe_incident update_unresolved
    open_segment close_open_outage_segment find_incident runs_of segment_start
has_run = λ h. cc h

derive-store_all_example :
    derive_outage_segments row (runs_of 3 (store_all history ledger).runs)
    ≡ segments_of 3 (store_all history ledger).segments
derive-store_all_example =
    derive-store_all 3 opened_as ledger ledger-IsFresh history history-Ordered row row_found has_run

derive-close_example :
    derive_outage_segments
      (record row { resolved = some 200 })
      (runs_of 3 (store_all history ledger).runs)
    ≡ segments_of 3 (close_open_outage_segment 3 200 (store_all history ledger)).segments
derive-close_example =
    derive-close 3 opened_as ledger ledger-IsFresh history history-Ordered row row_found has_run 200
      (omega arith)

abbrev engine : Engine
engine = record { db = ledger; loop = none; events = [] }

abbrev alone : Race
alone db = db

unresolved-Calls_example :
    unresolved
      (trigger alone alone alone 300 "baseline" "down"
        (close_open_incident alone 250 engine).0).0.db
    ≤ 1
unresolved-Calls_example =
    unresolved-Calls
      (then_call (then_call start (closed alone (λ db h. h) 250)) (
        triggered alone alone alone (λ db h. h) (λ db h. h) (λ db. omega arith) 300 "baseline"
          "down"))
      (ground arith)

-- Another process opens an incident, resolves it, and opens another before the plain INSERT.
abbrev opens : Race
opens db = insert_incident 260 "other" "" db

abbrev closes : Race
closes db = (close_open_incident alone 270 (record engine { db = db })).0.db

two_open :
    unresolved
      (trigger opens closes opens 300 "baseline" "down"
        (close_open_incident alone 250 engine).0).0.db
    ≡ 2
unfolding trigger open_or_attach guarded_insert attach_or_insert insert_incident close_open_incident
    resolve close_open_outage_segment update_unresolved open_incident
two_open = refl

abbrev verdict_with : Severity → FaultCode → Verdict
verdict_with severity code = record {
  severity = severity;
  code = code;
  title = "";
  explain = "";
  hint = "";
}

abbrev healthy : Verdict
healthy = verdict_with ok all_clear

abbrev rechecks : List (Option Verdict)
rechecks =
    some healthy
    ∷ none
    ∷ some (verdict_with warn web_broken)
    ∷ some (verdict_with bad wan_down)
    ∷ []

recovers_iff_example : ((recheck (some healthy) (watch none rechecks)).1 ≡ true) ↔ (
    (v : Verdict) × (some healthy ≡ some v)
    × (is_ok v.severity ≡ true)
    × (2 ≤ trailing_ok none (some healthy ∷ rechecks)))
recovers_iff_example = recovers_iff none (some healthy) rechecks

worst-Covers_example : All (Covers (watch none rechecks).worst) rechecks
worst-Covers_example = worst-Covers none rechecks
