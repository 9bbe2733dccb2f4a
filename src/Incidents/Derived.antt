-- ===== src/Incidents/Derived.antt =====
-- `_derive_outage_segments` of linkmoth_core.py against the segments that were stored run by run:
-- while an incident is open, and once it is closed.
use linkmoth.Prelude.{
  ℕ, ◌≤◌, ◌≡◌, ◌≢◌, ◌⊎◌, refl, sym, ◌∙◌, ap, true, false, Option, none, some, List, [], ◌∷◌, ◌++◌,
  any, map, arith, ◌==◌, ==_iff, Bool-cases, inl, inr,
}
use linkmoth.Incidents.Data.{Incident, RunRow, Segment, IncidentDb}
use linkmoth.Incidents.Segments.{derive_loop, last_segment, whole_incident, derive_outage_segments}
use linkmoth.Incidents.Store.{
  is_open, is_unresolved, find_incident, end_if_open, close_open_outage_segment, segments_of,
  runs_of, store_run,
}
use linkmoth.Incidents.Mirror.{IsTold, told_by, opened}
use linkmoth.Incidents.Told.{append_nil, map-closed, map-opened}
use linkmoth.Incidents.Accounts.{segments_of-end_row}
use linkmoth.Incidents.Agreement.{
  IsKept, own-IsKept, others-store_run, Stored, last_at, store_all, Ordered,
}

IsTold-le :
    (a b : ℕ) (told : Option ℕ × List Segment) (segments : List Segment) (recovered_at : Option ℕ)
    → a ≤ b
    → IsTold a told segments recovered_at
    → IsTold b told segments recovered_at
IsTold-le a b told segments recovered_at k h = record {
  written = h.written;
  closed = h.closed;
  bounded = λ s e. (omega (arith, (h.bounded s e).0), (h.bounded s e).1);
}

others-IsKept :
    (i started bound : ℕ) (r : Stored) (db : IncidentDb)
    → r.target ≢ some i
    → bound ≤ r.at
    → IsKept i started bound db
    → IsKept i started r.at (store_run r.target r.at r.severity db)
others-IsKept i started bound r db other k h =
    let (segments, runs, incidents) = others-store_run i r db other in
    record {
      incident = h.incident;
      found = incidents ∙ h.found;
      unresolved = h.unresolved;
      began = h.began;
      ordered = omega (arith, h.ordered, k);
      told = rw (segments, runs) (IsTold-le bound r.at _ _ _ k h.told);
    }

is_own : (target : Option ℕ) (i : ℕ) → (target ≡ some i) ⊎ (target ≢ some i)
is_own none i = inr cc
is_own (some j) i = elim (Bool-cases (j == i)) [
  | inl e ↦ inl (ap some ((==_iff j i).0 e))
  | inr e ↦ inr (ground arith)
]

store_run-IsKept :
    (i started bound : ℕ) (r : Stored) (db : IncidentDb)
    → bound ≤ r.at
    → IsKept i started bound db
    → IsKept i started r.at (store_run r.target r.at r.severity db)
store_run-IsKept i started bound r db k h = elim (is_own r.target i) [
  | inl own ↦ rw own (own-IsKept i started bound r.at r.severity db k h)
  | inr other ↦ others-IsKept i started bound r db other k h
]

store_all-IsKept :
    (i started : ℕ) (db : IncidentDb) (history : List Stored)
    → Ordered started history
    → IsKept i started started db
    → IsKept i started (last_at started history) (store_all history db)
unfolding store_all
store_all-IsKept i started db [] order h = h
store_all-IsKept i started db (r ∷ older) (k, order) h =
    store_run-IsKept i started (last_at started older) r (store_all older db) k
      (store_all-IsKept i started db older order h)

-- An incident that was just opened.
pub record IsFresh (i : ℕ) (incident : Incident) (db : IncidentDb) : Type 0 where
  pub found : find_incident i db.incidents ≡ some incident
  pub unresolved : is_unresolved incident ≡ true
  pub runs : runs_of i db.runs ≡ []
  pub segments : segments_of i db.segments ≡ []

IsTold-nothing :
    (started : ℕ) (recovered_at : Option ℕ) → IsTold started (told_by started []) [] recovered_at
unfolding derive_loop
IsTold-nothing started recovered_at = record { written = refl; closed = refl; bounded = λ s e. cc }

fresh-IsKept :
    (i : ℕ) (incident : Incident) (db : IncidentDb)
    → IsFresh i incident db
    → IsKept i incident.started incident.started db
fresh-IsKept i incident db h = record {
  incident = incident;
  found = h.found;
  unresolved = h.unresolved;
  began = refl;
  ordered = omega arith;
  told = rw (h.runs, h.segments) (IsTold-nothing incident.started incident.recovered_at);
}

whole_incident_lem :
    (incident : Incident) (l : List Segment) (runs : List RunRow)
    → runs ≢ []
    → whole_incident incident l runs ≡ l
unfolding whole_incident
whole_incident_lem incident l [] h = absurd (h refl)
whole_incident_lem incident [] (r ∷ runs) h = refl
whole_incident_lem incident (s ∷ l) (r ∷ runs) h = refl

last_segment-opened :
    (incident : Incident) (o : Option ℕ)
    → is_unresolved incident ≡ true
    → ((s : ℕ) → o ≡ some s → incident.recovered_at ≡ none)
    → last_segment incident o ≡ opened o
unfolding last_segment
last_segment-opened incident none u h = refl
last_segment-opened incident (some s) u h = ground (arith, h s refl, u)

last_segment-closed :
    (at : ℕ) (incident : Incident) (o : Option ℕ)
    → incident.resolved ≡ some at
    → ((s : ℕ) → o ≡ some s → (s ≤ at) × (incident.recovered_at ≡ none))
    → last_segment incident o ≡ map (end_if_open at) (opened o)
unfolding last_segment
last_segment-closed at incident none u h = refl
last_segment-closed at incident (some s) u h = ground (arith, h s refl, u)

map-told :
    (at : ℕ) (o : Option ℕ) (l : List Segment)
    → any is_open l ≡ false
    → map (end_if_open at) (l ++ opened o) ≡ l ++ map (end_if_open at) (opened o)
map-told at none l closed = rw (append_nil l) (map-closed at l closed)
map-told at (some s) l closed = map-opened at s l closed

module _ (i started bound : ℕ) (db : IncidentDb) (h : IsKept i started bound db)
    (some_run : runs_of i db.runs ≢ []) where
  abbrev runs : List RunRow
  runs = runs_of i db.runs

  derived-kept : derive_outage_segments h.incident runs ≡ segments_of i db.segments
  unfolding derive_outage_segments
  derived-kept =
      whole_incident_lem h.incident _ runs some_run
      ∙ ap (λ x. (told_by x runs).1 ++ last_segment h.incident (told_by x runs).0) h.began
      ∙ ap (λ x. (told_by started runs).1 ++ x)
          (last_segment-opened h.incident (told_by started runs).0 h.unresolved
            (λ s e. (h.told.bounded s e).1))
      ∙ sym h.told.written

  derived-closed :
      (at : ℕ)
      → bound ≤ at
      → derive_outage_segments (record h.incident { resolved = some at }) runs
        ≡ segments_of i (close_open_outage_segment i at db).segments
  unfolding derive_outage_segments close_open_outage_segment
  derived-closed at k =
      let ended : Incident = record h.incident { resolved = some at } in
      whole_incident_lem ended _ runs some_run
      ∙ ap (λ x. (told_by x runs).1 ++ last_segment ended (told_by x runs).0) h.began
      ∙ ap (λ x. (told_by started runs).1 ++ x)
          (last_segment-closed at ended (told_by started runs).0 refl
            (λ s e. (omega (arith, k, (h.told.bounded s e).0), (h.told.bounded s e).1)))
      ∙ sym (map-told at (told_by started runs).0 (told_by started runs).1 h.told.closed)
      ∙ ap (map (end_if_open at)) (sym h.told.written)
      ∙ sym (segments_of-end_row i at db.segments)

module _ (i : ℕ) (opened_as : Incident) (db : IncidentDb) (fresh : IsFresh i opened_as db)
    (history : List Stored) (order : Ordered opened_as.started history) (row : Incident)
    (found : find_incident i (store_all history db).incidents ≡ some row)
    (some_run : runs_of i (store_all history db).runs ≢ []) where
  kept : IsKept i opened_as.started (last_at opened_as.started history) (store_all history db)
  kept = store_all-IsKept i opened_as.started db history order (fresh-IsKept i opened_as db fresh)

  same_row : kept.incident ≡ row
  same_row = cc (kept.found, found)

  -- After any runs, of this incident and of others in any order, the intervals that are derived
  -- from the stored runs of an open incident are the segments that were written as they came,
  -- provided the clock did not go back and the incident has a run.
  pub derive-store_all :
      derive_outage_segments row (runs_of i (store_all history db).runs)
      ≡ segments_of i (store_all history db).segments
  derive-store_all =
      rw (← same_row) (derived-kept i opened_as.started _ (store_all history db) kept some_run)

  -- For an incident that has a run and is closed not before its last stored run, under a clock that
  -- did not go back, the intervals derived from its stored runs are the segments that were written
  -- as the runs came, the last of them ended by the close; runs of other incidents may lie between.
  pub derive-close :
      (at : ℕ)
      → last_at opened_as.started history ≤ at
      → derive_outage_segments
          (record row { resolved = some at })
          (runs_of i (store_all history db).runs)
        ≡ segments_of i (close_open_outage_segment i at (store_all history db)).segments
  derive-close at k =
      rw (← same_row)
        (derived-closed i opened_as.started _ (store_all history db) kept some_run at k)
