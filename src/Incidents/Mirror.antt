-- ===== src/Incidents/Mirror.antt =====
-- The two accounts of an incident's outages in linkmoth_core.py agree: the segments that
-- `_record_incident_observation` writes run by run, and those that `_derive_outage_segments` reads
-- from the stored runs afterwards. Here, one incident by itself.
use linkmoth.Prelude.{
  ℕ, ◌≤◌, ◌≡◌, refl, sym, ap, Bool, true, false, ◌&&◌, Option, none, some, List, [], ◌∷◌, ◌++◌, any,
  max, map, length, arith, ◌==◌, if◌then◌else◌,
}
use linkmoth.Incidents.Data.{RunRow, Segment}
use linkmoth.Incidents.Segments.{is_ok, derive_loop}
use linkmoth.Incidents.Store.{is_open, end_if_open, coalesce}

abbrev pub is_nil : List RunRow → Bool
is_nil [] = true
is_nil (r ∷ rs) = false

and_true : (b : Bool) → (b && true) ≡ b
and_true true = refl
and_true false = refl

pub derive_loop-append :
    (started : ℕ) (first : Bool) (o : Option ℕ) (segments : List Segment) (xs : List RunRow)
    (r : RunRow)
    → derive_loop started first o segments (xs ++ r ∷ [])
      ≡ derive_loop started
          (first && is_nil xs)
          (derive_loop started first o segments xs).0
          (derive_loop started first o segments xs).1
          (r ∷ [])
unfolding derive_loop
derive_loop-append started first o segments [] r =
    sym (ap (λ b. derive_loop started b o segments (r ∷ [])) (and_true first))
derive_loop-append started first none segments (x ∷ xs) r = ground (
  arith,
  derive_loop-append started false none segments xs r,
  derive_loop-append started false (some (if first then started else max started x.ts)) segments xs
      r,
)
derive_loop-append started first (some s) segments (x ∷ xs) r = ground (
  arith,
  derive_loop-append started false (some s) segments xs r,
  derive_loop-append started false none
      (segments ++ record { started = s; ended = some (max s (max started x.ts)) } ∷ []) xs r,
)

-- What one incident has seen: its runs, its segments, and its `recovered_at`.
pub record View : Type 0 where
  pub runs : List RunRow
  pub segments : List Segment
  pub recovered_at : Option ℕ

abbrev pub opened : Option ℕ → List Segment
opened none = []
opened (some s) = record { started = s; ended = none } ∷ []

unfoldable pub with_open : ℕ → ℕ → View → List Segment
with_open started at v =
    if any is_open v.segments
    then v.segments
    else v.segments
      ++ record {
        started = if (length v.segments == 0) && (length v.runs == 0) then started else at;
        ended = none;
      }
        ∷ []

-- One run stored for an incident that began at `started`.
unfoldable pub see : ℕ → RunRow → View → View
unfolding with_open
see started r v =
    if is_ok r.severity
    then record {
      runs = v.runs ++ r ∷ [];
      segments = map (end_if_open r.ts) v.segments;
      recovered_at = coalesce v.recovered_at r.ts;
    }
    else record {
      runs = v.runs ++ r ∷ [];
      segments = with_open started r.ts v;
      recovered_at = none;
    }

-- The segments written are the closed ones and the open one that the runs tell; while one is open
-- the incident is not called recovered.
pub record IsTold (bound : ℕ) (told : Option ℕ × List Segment) (segments : List Segment)
    (recovered_at : Option ℕ) : Type 0 where
  pub written : segments ≡ told.1 ++ opened told.0
  pub closed : any is_open told.1 ≡ false
  pub bounded : (s : ℕ) → told.0 ≡ some s → (s ≤ bound) × (recovered_at ≡ none)

abbrev pub told_by : ℕ → List RunRow → Option ℕ × List Segment
told_by started runs = derive_loop started true none [] runs
