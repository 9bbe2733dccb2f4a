-- ===== src/Incidents/Segments.antt =====
-- `_derive_outage_segments` and `_outage_seconds` of linkmoth_core.py, over whole seconds.
use linkmoth.Prelude.{
  ℕ, ◌+◌, ◌-◌, min, max, Bool, true, false, not, ◌&&◌, ◌||◌, Option, none, some, List, [], ◌∷◌,
  ◌++◌, ltb, leb, ◌==◌, if◌then◌else◌,
}
use linkmoth.Diagnosis.Verdict.{Severity, ok, FaultCode, all_clear}
use linkmoth.Incidents.Data.{Incident, RunRow, Segment}

abbrev pub is_ok : Severity → Bool
is_ok ok = true
is_ok _ = false

abbrev or_else : Option ℕ → Option ℕ → Option ℕ
or_else none b = b
or_else (some a) b = some a

abbrev pub end_of : Incident → Option ℕ
end_of incident = or_else incident.recovered_at incident.resolved

abbrev closed_at : ℕ → Option ℕ → Option ℕ
closed_at started none = none
closed_at started (some ended) = some (max started ended)

-- The loop over the runs; `first` says that no run was read yet.
unfoldable pub derive_loop :
    ℕ → Bool → Option ℕ → List Segment → List RunRow → Option ℕ × List Segment
derive_loop started first open_started segments [] = (open_started, segments)
derive_loop started first open_started segments (run ∷ runs) =
    let observed_at = max started run.ts in
    if is_ok run.severity
    then elim open_started [
      | none ↦ derive_loop started false none segments runs
      | some s ↦
          derive_loop started false none
            (segments ++ record { started = s; ended = some (max s observed_at) } ∷ []) runs
    ]
    else elim open_started [
      | none ↦
          derive_loop started false (some (if first then started else observed_at)) segments runs
      | some s ↦ derive_loop started false (some s) segments runs
    ]

blames : Option FaultCode → Bool
blames none = false
blames (some all_clear) = false
blames (some _) = true

or_code : Option FaultCode → Option FaultCode → Option FaultCode
or_code none b = b
or_code (some a) b = some a

unfoldable pub last_segment : Incident → Option ℕ → List Segment
last_segment incident none = []
last_segment incident (some s) = record { started = s; ended = closed_at s (end_of incident) } ∷ []

-- An incident with no run left that blames something was down all the time.
unfoldable pub whole_incident : Incident → List Segment → List RunRow → List Segment
unfolding blames or_code
whole_incident incident [] [] =
    if not incident.false_alarm && blames (or_code incident.diagnosis_code incident.verdict_code)
    then record { started = incident.started; ended = closed_at incident.started (end_of incident) }
      ∷ []
    else []
whole_incident incident segments runs = segments

unfoldable pub derive_outage_segments : Incident → List RunRow → List Segment
unfolding derive_loop last_segment whole_incident
derive_outage_segments incident runs =
    let (open_started, segments) = derive_loop incident.started true none [] runs in
    whole_incident incident (segments ++ last_segment incident open_started) runs

-- An interval of seconds, its end excluded.
abbrev pub Span : Type 0
Span = ℕ × ℕ

abbrev pub ended_or : ℕ → Option ℕ → ℕ
ended_or now none = now
ended_or now (some ended) = ended

abbrev pub from_start : Option ℕ → ℕ → ℕ
from_start none started = started
from_start (some limit) started = max started limit

abbrev pub to_end : ℕ → Option ℕ → ℕ
to_end now none = now
to_end now (some limit) = limit

unfoldable pub clip : Option ℕ → ℕ → ℕ → List Segment → List Span
clip start_limit end_limit now [] = []
clip start_limit end_limit now (s ∷ rest) =
    let started = from_start start_limit s.started in
    let ended = min (ended_or now s.ended) end_limit in
    let later = clip start_limit end_limit now rest in
    if ltb started ended then (started, ended) ∷ later else later

-- `sorted(clipped)`: by start, then by end.
unfoldable pub before : Span → Span → Bool
before (a, b) (c, d) = ltb a c || (a == c && leb b d)

unfoldable pub insert_span : Span → List Span → List Span
insert_span x [] = x ∷ []
insert_span x (y ∷ rest) =
    let later = insert_span x rest in if before x y then x ∷ y ∷ rest else y ∷ later

unfoldable pub sort_spans : List Span → List Span
sort_spans [] = []
sort_spans (x ∷ rest) = insert_span x (sort_spans rest)

-- The loop of `_outage_seconds`, with the span that is open; before the first there is none.
unfoldable pub merge_loop : ℕ → Span → List Span → ℕ
merge_loop total (open_start, open_end) [] = total + (open_end - open_start)
merge_loop total (open_start, open_end) ((started, ended) ∷ rest) =
    if ltb open_end started
    then merge_loop (total + (open_end - open_start)) (started, ended) rest
    else merge_loop total (open_start, max open_end ended) rest

unfoldable pub merge : List Span → ℕ
merge [] = 0
merge (x ∷ rest) = merge_loop 0 x rest

unfoldable pub outage_seconds : List Segment → Option ℕ → Option ℕ → ℕ → ℕ
outage_seconds segments window_start window_end now =
    merge (sort_spans (clip window_start (to_end now window_end) now segments))
