-- ===== src/Outage/Recovery.antt =====
-- When `OutageTracker` of linkmoth_outage.py announces a recovery, and what it clears.
use linkmoth.Prelude.{
  ℕ, suc, ◌≤◌, ◌≡◌, ◌≢◌, refl, Bool, false, Option, none, some, List, [], ◌∷◌, arith, Option-cases,
  inl, inr, if◌then◌else◌,
}
use linkmoth.Diagnosis.Check.{Check}
use linkmoth.Diagnosis.Verdict.{Verdict}
use linkmoth.Diagnosis.Global.{judge, is_effective_global_outage}
use linkmoth.Outage.Store.{OutageRow}
use linkmoth.Outage.Tracker.{Callback, Tracker, load, recover, observe_clear, observe}

pub record Observation : Type 0 where
  pub now : ℕ
  pub verdict : Option Verdict
  pub checks : List Check

abbrev pub is_global : Observation → Bool
is_global o = elim o.verdict [
  | none ↦ false
  | some v ↦ is_effective_global_outage (some (judge v)) o.checks
]

abbrev pub step : Callback → Observation → Tracker → Tracker
step cb o t = (observe cb o.now o.verdict o.checks t).0

-- The tracker after a history of observations, newest first; an escaped exception ends only its own
-- call.
unfoldable pub run : Callback → Tracker → List Observation → Tracker
run cb t [] = t
run cb t (o ∷ older) = step cb o (run cb t older)

-- How many of the newest observations with a verdict are clear.
unfoldable pub trailing_clear : List Observation → ℕ
trailing_clear [] = 0
trailing_clear (o ∷ older) =
    let before = trailing_clear older in
    elim o.verdict [ none ↦ before | some v ↦ if is_global o then 0 else suc before ]

consecutive-recover :
    (cb : Callback) (now : ℕ) (row : OutageRow) (v : Verdict) (checks : List Check) (t : Tracker)
    → (recover cb now row v checks t).0.consecutive_clear ≡ t.consecutive_clear
unfolding recover
consecutive-recover cb now row v checks t = ground arith

module _ (cb : Callback) (now : ℕ) (row : OutageRow) (v : Verdict) (checks : List Check)
    (t : Tracker) where
  consecutive-observe_clear :
      (observe_clear cb now row v checks t).0.consecutive_clear ≤ suc t.consecutive_clear
  unfolding observe_clear
  consecutive-observe_clear = ground (
    arith,
    consecutive-recover cb now row v checks
        (record t { consecutive_clear = suc t.consecutive_clear }),
  )

  -- A notice is written by the second clear observation at the earliest.
  notices-observe_clear :
      t.consecutive_clear ≡ 0 → (observe_clear cb now row v checks t).0.notices ≡ t.notices
  unfolding observe_clear
  notices-observe_clear h = ground arith

consecutive-observe :
    (cb : Callback) (now : ℕ) (v : Verdict) (checks : List Check) (n : ℕ) (t : Tracker)
    → t.consecutive_clear ≤ n
    → (observe cb now (some v) checks t).0.consecutive_clear
      ≤ (if is_effective_global_outage (some (judge v)) checks then 0 else suc n)
unfolding observe
consecutive-observe cb now v checks n t h = elim (Option-cases (load t.db)) [
  | inl idle ↦ ground arith
  | inr (row, busy) ↦ ground (arith, consecutive-observe_clear cb now row v checks t)
]

consecutive-step :
    (cb : Callback) (o : Observation) (older : List Observation) (t : Tracker)
    → t.consecutive_clear ≤ trailing_clear older
    → (step cb o t).consecutive_clear ≤ trailing_clear (o ∷ older)
unfolding trailing_clear
consecutive-step cb o older t h = by_verdict o.verdict
  where
    by_verdict :
        (found : Option Verdict)
        → (observe cb o.now found o.checks t).0.consecutive_clear
          ≤ trailing_clear (record o { verdict = found } ∷ older)
    by_verdict none = unfold observe in h
    by_verdict (some v) = consecutive-observe cb o.now v o.checks (trailing_clear older) t h

notices-observe :
    (cb : Callback) (now : ℕ) (v : Verdict) (checks : List Check) (t : Tracker)
    → (observe cb now (some v) checks t).0.notices ≢ t.notices
    → (is_effective_global_outage (some (judge v)) checks ≡ false) × (t.consecutive_clear ≢ 0)
unfolding observe
notices-observe cb now v checks t h = elim (Option-cases (load t.db)) [
  | inl idle ↦ ground arith
  | inr (row, busy) ↦ ground (arith, notices-observe_clear cb now row v checks t)
]

-- The count never passes the clear observations that end the history.
consecutive-run :
    (cb : Callback) (t : Tracker) (history : List Observation)
    → t.consecutive_clear ≡ 0
    → (run cb t history).consecutive_clear ≤ trailing_clear history
unfolding run trailing_clear
consecutive-run cb t [] h = omega arith
consecutive-run cb t (o ∷ older) h =
    consecutive-step cb o older (run cb t older) (consecutive-run cb t older h)

-- From a tracker that has counted no clear observation, whatever the history and the callback, a
-- recovery is announced only when the two newest observations with a verdict are both clear.
pub recovery_needs_two_clear :
    (cb : Callback) (t : Tracker) (o : Observation) (older : List Observation)
    → t.consecutive_clear ≡ 0
    → (run cb t (o ∷ older)).notices ≢ (run cb t older).notices
    → 2 ≤ trailing_clear (o ∷ older)
unfolding run trailing_clear
recovery_needs_two_clear cb t o older start announced = by_verdict o.verdict announced
  where
    by_verdict :
        (found : Option Verdict)
        → (observe cb o.now found o.checks (run cb t older)).0.notices ≢ (run cb t older).notices
        → 2 ≤ trailing_clear (record o { verdict = found } ∷ older)
    by_verdict none h = absurd (h (unfold observe in refl))
    by_verdict (some v) h = ground (
      arith,
      notices-observe cb o.now v o.checks (run cb t older) h,
      consecutive-run cb t older start,
    )
