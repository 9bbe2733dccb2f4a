-- ===== src/Incidents/Accounts.antt =====
-- The two accounts of an incident's outages agree in the database: `diagnose_once` and
-- `_record_incident_observation` on the one side, `_derive_outage_segments` on the other.
use linkmoth.Prelude.{
  ℕ, ◌≡◌, ◌≢◌, refl, true, ◌&&◌, some, List, [], ◌∷◌, ◌++◌, any, count, map, update, length, arith,
  ◌==◌, if◌then◌else◌,
}
use linkmoth.Incidents.Data.{Incident, RunRow, SegmentRow}
use linkmoth.Incidents.Store.{
  is_open, is_unresolved, find_incident, end_row, end_if_open, segments_of, of_incident, runs_of,
}

pub segments_of-end_row :
    (i at : ℕ) (rows : List SegmentRow)
    → segments_of i (map (end_row i at) rows) ≡ map (end_if_open at) (segments_of i rows)
unfolding segments_of
segments_of-end_row i at [] = refl
segments_of-end_row i at (row ∷ rows) = ground (arith, segments_of-end_row i at rows)

pub others-end_row :
    (i j at : ℕ) (rows : List SegmentRow)
    → j ≢ i
    → segments_of i (map (end_row j at) rows) ≡ segments_of i rows
unfolding segments_of
others-end_row i j at [] h = refl
others-end_row i j at (row ∷ rows) h = ground (arith, others-end_row i j at rows h)

pub any-segments_of :
    (i : ℕ) (rows : List SegmentRow)
    → any (λ (row : SegmentRow). (row.incident_id == i) && is_open row.segment) rows
      ≡ any is_open (segments_of i rows)
unfolding segments_of
any-segments_of i [] = refl
any-segments_of i (row ∷ rows) = ground (arith, any-segments_of i rows)

pub count-segments_of :
    (i : ℕ) (rows : List SegmentRow)
    → count (λ (row : SegmentRow). row.incident_id == i) rows ≡ length (segments_of i rows)
unfolding segments_of
count-segments_of i [] = refl
count-segments_of i (row ∷ rows) = ground (arith, count-segments_of i rows)

pub segments_of-append :
    (i : ℕ) (rows : List SegmentRow) (row : SegmentRow)
    → segments_of i (rows ++ row ∷ [])
      ≡ segments_of i rows ++ (if row.incident_id == i then row.segment ∷ [] else [])
unfolding segments_of
segments_of-append i [] row = ground arith
segments_of-append i (x ∷ rows) row = ground (arith, segments_of-append i rows row)

pub count-runs_of :
    (i : ℕ) (runs : List RunRow) → count (of_incident i) runs ≡ length (runs_of i runs)
unfolding runs_of
count-runs_of i [] = refl
count-runs_of i (r ∷ runs) = ground (arith, count-runs_of i runs)

pub runs_of-append :
    (i : ℕ) (runs : List RunRow) (r : RunRow)
    → runs_of i (runs ++ r ∷ []) ≡ runs_of i runs ++ (if of_incident i r then r ∷ [] else [])
unfolding runs_of
runs_of-append i [] r = ground arith
runs_of-append i (x ∷ runs) r = ground (arith, runs_of-append i runs r)

module _ (i : ℕ) (f : Incident → Incident) (same_id : (x : Incident) → (f x).id ≡ x.id) where
  pub find_incident-update :
      (l : List Incident) (incident : Incident)
      → find_incident i l ≡ some incident
      → is_unresolved incident ≡ true
      → find_incident i (update (λ x. (x.id == i) && is_unresolved x) f l) ≡ some (f incident)
  unfolding find_incident
  find_incident-update [] incident found unresolved = cc found
  find_incident-update (x ∷ l) incident found unresolved =
      ground (arith, same_id x, find_incident-update l incident)

  pub find_incident-others :
      (j : ℕ) (l : List Incident)
      → j ≢ i
      → find_incident j (update (λ x. (x.id == i) && is_unresolved x) f l) ≡ find_incident j l
  unfolding find_incident
  find_incident-others j [] h = refl
  find_incident-others j (x ∷ l) h = ground (arith, same_id x, find_incident-others j l h)

pub find_incident-id :
    (i : ℕ) (l : List Incident) (incident : Incident)
    → find_incident i l ≡ some incident
    → incident.id ≡ i
unfolding find_incident
find_incident-id i [] incident found = cc found
find_incident-id i (x ∷ l) incident found = ground (arith, find_incident-id i l incident)
