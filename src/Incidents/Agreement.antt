-- ===== src/Incidents/Agreement.antt =====
-- The stored outage segments of an incident and the segments derived from its runs, in
-- linkmoth_core.py: after any sequence of stored runs they are the same.
use linkmoth.Prelude.{
  ℕ, ◌≤◌, ◌≡◌, ◌≢◌, refl, sym, ◌∙◌, ap, true, Option, none, some, List, [], ◌∷◌, ◌++◌, arith,
  Option-cases, inl, inr,
}
use linkmoth.Diagnosis.Verdict.{Severity}
use linkmoth.Incidents.Data.{Incident, RunRow, IncidentDb}
use linkmoth.Incidents.Store.{
  is_unresolved, find_incident, close_open_outage_segment, segments_of, runs_of, segment_start,
  open_segment, update_unresolved, observe_incident, mark_failing, mark_recovered,
  record_incident_observation, store_run,
}
use linkmoth.Incidents.Mirror.{IsTold, told_by}
use linkmoth.Incidents.Told.{append_nil, see-IsTold}
use linkmoth.Incidents.Accounts.{
  others-end_row, segments_of-append, runs_of-append, find_incident-others, find_incident-id,
}
use linkmoth.Incidents.Kept.{
  view, stored, observed, runs-store_run, segments-store_run, find-store_run,
}

-- The incident's row is open, and its segments are those that its runs tell.
pub record IsKept (i started bound : ℕ) (db : IncidentDb) : Type 0 where
  pub incident : Incident
  pub found : find_incident i db.incidents ≡ some incident
  pub unresolved : is_unresolved incident ≡ true
  pub began : incident.started ≡ started
  pub ordered : started ≤ bound
  pub told :
      IsTold bound
        (told_by started (runs_of i db.runs))
        (segments_of i db.segments)
        incident.recovered_at

pub own-IsKept :
    (i started bound at : ℕ) (severity : Severity) (db : IncidentDb)
    → bound ≤ at
    → IsKept i started bound db
    → IsKept i started at (store_run (some i) at severity db)
own-IsKept i started bound at severity db k h =
    let u = h.unresolved in
    record {
      incident = observed i at severity db h.incident h.found u;
      found = find-store_run i at severity db h.incident h.found u;
      unresolved = u;
      began = h.began;
      ordered = omega (arith, h.ordered, k);
      told =
          rw
            (
              runs-store_run i at severity db h.incident h.found u,
              segments-store_run i at severity db h.incident h.found u,
              h.began,
            )
            (see-IsTold started bound (stored i at severity) (view i h.incident db) h.ordered k
              h.told);
    }

-- What concerns an incident is the same in two databases.
abbrev pub Same : ℕ → IncidentDb → IncidentDb → Type 0
Same i a b =
    (segments_of i a.segments ≡ segments_of i b.segments)
    × (runs_of i a.runs ≡ runs_of i b.runs)
    × (find_incident i a.incidents ≡ find_incident i b.incidents)

others-open_segment :
    (i : ℕ) (other : Incident) (at : ℕ) (db : IncidentDb)
    → other.id ≢ i
    → Same i (open_segment other at db) db
unfolding open_segment
others-open_segment i other at db h = ground (
  arith,
  append_nil (segments_of i db.segments),
  segments_of-append i db.segments (record {
    incident_id = other.id;
    segment = record { started = segment_start other at db; ended = none };
  }),
)

others-observe_incident :
    (i : ℕ) (other : Incident) (at : ℕ) (severity : Severity) (db : IncidentDb)
    → other.id ≢ i
    → Same i (observe_incident other at severity db) db
unfolding observe_incident update_unresolved close_open_outage_segment
others-observe_incident i other at severity db h = ground (
  arith,
  others-open_segment i other at db h,
  others-end_row i other.id at db.segments h,
  find_incident-others other.id mark_failing (λ x. refl) i (open_segment other at db).incidents,
  find_incident-others other.id (mark_recovered at) (λ x. refl) i db.incidents,
)

others-record_incident_observation :
    (i : ℕ) (target : Option ℕ) (at : ℕ) (severity : Severity) (db : IncidentDb)
    → target ≢ some i
    → Same i (record_incident_observation target at severity db) db
unfolding record_incident_observation
others-record_incident_observation i none at severity db h = (refl, refl, refl)
others-record_incident_observation i (some j) at severity db h =
    elim (Option-cases (find_incident j db.incidents)) [
      | inl missing ↦ ground (arith, missing)
      | inr (other, found) ↦ ground (
        arith,
        found,
        others-observe_incident i other at severity db
            (λ e. h (ap some (sym (find_incident-id j db.incidents other found) ∙ e))),
      )
    ]

-- One run that was stored: for an incident or for none.
pub record Stored : Type 0 where
  pub target : Option ℕ
  pub at : ℕ
  pub severity : Severity

pub others-store_run :
    (i : ℕ) (r : Stored) (db : IncidentDb)
    → r.target ≢ some i
    → Same i (store_run r.target r.at r.severity db) db
unfolding store_run
others-store_run i r db h =
    let row : RunRow = record { incident_id = r.target; ts = r.at; severity = r.severity } in
    let added : IncidentDb = record db { runs = db.runs ++ row ∷ [] } in
    let (segments, runs, incidents) =
      others-record_incident_observation i r.target r.at r.severity added h in
    (segments, runs ∙ unmoved r.target h, incidents)
  where
    unmoved :
        (target : Option ℕ)
        → target ≢ some i
        → runs_of i
            (db.runs ++ record { incident_id = target; ts = r.at; severity = r.severity } ∷ [])
          ≡ runs_of i db.runs
    unmoved none h' = runs_of-append i db.runs _ ∙ append_nil (runs_of i db.runs)
    unmoved (some j) h' = ground (
      arith,
      runs_of-append i db.runs (record { incident_id = some j; ts = r.at; severity = r.severity }),
      append_nil (runs_of i db.runs),
    )

abbrev pub last_at : ℕ → List Stored → ℕ
last_at bound [] = bound
last_at bound (r ∷ older) = r.at

-- Any runs, newest first: of this incident, of others and of none.
unfoldable pub store_all : List Stored → IncidentDb → IncidentDb
store_all [] db = db
store_all (r ∷ older) db = store_run r.target r.at r.severity (store_all older db)

-- The clock does not go back, and does not stand before the bound.
abbrev pub Ordered : ℕ → List Stored → Type 0
Ordered bound [] = Unit
Ordered bound (r ∷ older) = (last_at bound older ≤ r.at) × Ordered bound older
