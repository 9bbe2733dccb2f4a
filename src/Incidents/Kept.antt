-- ===== src/Incidents/Kept.antt =====
-- An open incident of linkmoth_core.py under any sequence of stored runs, its own and others.
use linkmoth.Prelude.{
  ℕ, suc, ◌≡◌, refl, ap, true, ◌&&◌, none, some, List, [], ◌∷◌, ◌++◌, any, length, arith, ◌==◌,
  if◌then◌else◌,
}
use linkmoth.Diagnosis.Verdict.{Severity}
use linkmoth.Incidents.Data.{Incident, RunRow, IncidentDb}
use linkmoth.Incidents.Store.{
  is_open, is_unresolved, find_incident, close_open_outage_segment, segments_of, runs_of,
  segment_start, open_segment, update_unresolved, mark_failing, mark_recovered, observe_incident,
  record_incident_observation, store_run,
}
use linkmoth.Incidents.Mirror.{View, see}
use linkmoth.Incidents.Accounts.{
  segments_of-end_row, any-segments_of, count-segments_of, segments_of-append, count-runs_of,
  runs_of-append, find_incident-update, find_incident-id,
}

abbrev pub view : ℕ → Incident → IncidentDb → View
view i incident db = record {
  runs = runs_of i db.runs;
  segments = segments_of i db.segments;
  recovered_at = incident.recovered_at;
}

abbrev pub stored : ℕ → ℕ → Severity → RunRow
stored i at severity = record { incident_id = some i; ts = at; severity = severity }

-- The database with the run's row, before the observation.
abbrev pub with_run : ℕ → ℕ → Severity → IncidentDb → IncidentDb
with_run i at severity db = record db { runs = db.runs ++ stored i at severity ∷ [] }

segment_start_lem :
    (incident : Incident) (at : ℕ) (db : IncidentDb)
    → segment_start incident at db ≡ (
        if (length (segments_of incident.id db.segments) == 0)
          && (length (runs_of incident.id db.runs) == 1)
        then incident.started
        else at)
unfolding segment_start
segment_start_lem incident at db =
    rw (count-segments_of incident.id db.segments, count-runs_of incident.id db.runs) refl

segments-open_segment :
    (incident : Incident) (at : ℕ) (db : IncidentDb)
    → segments_of incident.id (open_segment incident at db).segments ≡ (
        if any is_open (segments_of incident.id db.segments)
        then segments_of incident.id db.segments
        else segments_of incident.id db.segments
          ++ record { started = segment_start incident at db; ended = none } ∷ [])
unfolding open_segment
segments-open_segment incident at db = ground (
  arith,
  any-segments_of incident.id db.segments,
  segments_of-append incident.id db.segments (record {
    incident_id = incident.id;
    segment = record { started = segment_start incident at db; ended = none };
  }),
)

length-snoc {ℓ} : {A : Type ℓ} (l : List A) (x : A) → length (l ++ x ∷ []) ≡ suc (length l)
length-snoc [] x = refl
length-snoc (y ∷ l) x = ap suc (length-snoc l x)

segments-observe_incident :
    (incident : Incident) (at : ℕ) (severity : Severity) (db : IncidentDb)
    → segments_of incident.id
        (observe_incident incident at severity (with_run incident.id at severity db)).segments
      ≡ (see incident.started
          (stored incident.id at severity)
          (view incident.id incident db)).segments
unfolding observe_incident update_unresolved close_open_outage_segment see
segments-observe_incident incident at severity db =
    let r = stored incident.id at severity in
    ground (
      arith,
      segments_of-end_row incident.id at db.segments,
      segments-open_segment incident at (with_run incident.id at severity db),
      segment_start_lem incident at (with_run incident.id at severity db),
      runs_of-append incident.id db.runs r,
      length-snoc (runs_of incident.id db.runs) r,
    )

module _ (i at : ℕ) (severity : Severity) (db : IncidentDb) (incident : Incident)
    (found : find_incident i db.incidents ≡ some incident)
    (unresolved : is_unresolved incident ≡ true) where
  pub store_run-found :
      store_run (some i) at severity db
      ≡ observe_incident incident at severity (with_run i at severity db)
  unfolding store_run record_incident_observation
  store_run-found = ground (arith, found, unresolved)

  pub runs-store_run :
      runs_of i (store_run (some i) at severity db).runs
      ≡ runs_of i db.runs ++ stored i at severity ∷ []
  unfolding observe_incident update_unresolved open_segment close_open_outage_segment
  runs-store_run =
      rw store_run-found (ground (arith, runs_of-append i db.runs (stored i at severity)))

  -- A stored run does to an incident's segments what `see` does.
  pub segments-store_run :
      segments_of i (store_run (some i) at severity db).segments
      ≡ (see incident.started (stored i at severity) (view i incident db)).segments
  segments-store_run =
      let same : incident.id ≡ i = find_incident-id i db.incidents incident found in
      rw store_run-found (rw (← same) (segments-observe_incident incident at severity db))

  -- What the run makes of the incident's row.
  abbrev pub observed : Incident
  observed = record incident {
    recovered_at = (see incident.started (stored i at severity) (view i incident db)).recovered_at;
  }

  pub find-store_run : find_incident i (store_run (some i) at severity db).incidents ≡ some observed
  unfolding observe_incident update_unresolved open_segment close_open_outage_segment see
  find-store_run = ground (
    arith,
    store_run-found,
    find_incident-id i db.incidents incident found,
    find_incident-update i mark_failing (λ x. refl) db.incidents incident found unresolved,
    find_incident-update i (mark_recovered at) (λ x. refl) db.incidents incident found unresolved,
  )
