-- ===== src/Incidents/Rechecks.antt =====
-- What the recheck loop of linkmoth_engine.py announces and remembers, over any rechecks.
use linkmoth.Prelude.{
  ℕ, suc, ◌≤◌, ◌≡◌, refl, ◌↔◌, ◌⊎◌, inl, inr, true, false, Option, none, some, List, [], ◌∷◌, arith,
  if◌then◌else◌, Bool-cases, All, sym, subst,
}
use linkmoth.Diagnosis.Verdict.{Verdict}
use linkmoth.Incidents.Segments.{is_ok}
use linkmoth.Incidents.Loop.{Watch, begin_watch, rank, worse_of, announce, recheck}

-- The loop's memory after its rechecks, newest first.
pub watch : Option ℕ → List (Option Verdict) → Watch
watch recovered_at [] = begin_watch recovered_at
watch recovered_at (o ∷ older) = (recheck o (watch recovered_at older)).0

-- How many of the newest verdicts are healthy; a recovery from before the loop counts as one.
unfoldable pub trailing_ok : Option ℕ → List (Option Verdict) → ℕ
trailing_ok none [] = 0
trailing_ok (some t) [] = 1
trailing_ok recovered_at (none ∷ older) = trailing_ok recovered_at older
trailing_ok recovered_at (some v ∷ older) =
    let before = trailing_ok recovered_at older in if is_ok v.severity then suc before else 0

consecutive-announce :
    (v : Verdict) (w : Watch)
    → ((announce v w).consecutive_ok ≡ w.consecutive_ok) × ((announce v w).worst ≡ w.worst)
unfolding announce
consecutive-announce v w = ground arith

consecutive-watch :
    (recovered_at : Option ℕ) (history : List (Option Verdict))
    → (watch recovered_at history).consecutive_ok ≡ trailing_ok recovered_at history
unfolding watch trailing_ok recheck begin_watch
consecutive-watch none [] = refl
consecutive-watch (some t) [] = refl
consecutive-watch recovered_at (none ∷ older) = consecutive-watch recovered_at older
consecutive-watch recovered_at (some v ∷ older) =
    let w = watch recovered_at older in
    ground (
      arith,
      consecutive-watch recovered_at older,
      consecutive-announce v (record w { consecutive_ok = 0; worst = some (worse_of w.worst v) }),
    )

-- The loop announces the recovery and ends exactly at a healthy verdict that is the second in a row,
-- a recovery seen before the loop began counting as one; blocked diagnoses in between do not matter.
pub recovers_iff :
    (recovered_at : Option ℕ) (o : Option Verdict) (older : List (Option Verdict))
    → ((recheck o (watch recovered_at older)).1 ≡ true) ↔ (
        (v : Verdict) × (o ≡ some v)
        × (is_ok v.severity ≡ true)
        × (2 ≤ trailing_ok recovered_at (o ∷ older)))
unfolding recheck trailing_ok
recovers_iff recovered_at none older = ((λ h. cc h), λ h. cc h.1)
recovers_iff recovered_at (some v) older = (
  (λ h. (
    v,
    refl,
    ground (arith, h, consecutive-watch recovered_at older),
    ground (arith, h, consecutive-watch recovered_at older),
  )),
  λ (u, same, healthy, twice).
      ground (arith, same, healthy, twice, consecutive-watch recovered_at older),
)

-- The severity of `worst` covers a recheck.
abbrev pub Covers : Option Verdict → Option Verdict → Type 0
Covers worst none = Unit
Covers none (some v) = is_ok v.severity ≡ true
Covers (some w) (some v) = (is_ok v.severity ≡ true) ⊎ (rank v.severity ≤ rank w.severity)

Covers-worse_of :
    (worst : Option Verdict) (v : Verdict) (o : Option Verdict)
    → Covers worst o
    → Covers (some (worse_of worst v)) o
unfolding worse_of
Covers-worse_of worst v none h = tt
Covers-worse_of none v (some u) h = inl h
Covers-worse_of (some w) v (some u) h = ground (arith, h)

Covers-self : (worst : Option Verdict) (v : Verdict) → Covers (some (worse_of worst v)) (some v)
unfolding worse_of
Covers-self none v = inr (omega arith)
Covers-self (some w) v = ground arith

All-Covers :
    (worst : Option Verdict) (v : Verdict) (history : List (Option Verdict))
    → All (Covers worst) history
    → All (Covers (some (worse_of worst v))) history
All-Covers worst v [] h = tt
All-Covers worst v (o ∷ history) h = (Covers-worse_of worst v o h.0, All-Covers worst v history h.1)

worst-recheck-none : (w : Watch) → (recheck none w).0.worst ≡ w.worst
unfolding recheck
worst-recheck-none w = refl

worst-recheck_ok :
    (v : Verdict) (w : Watch) → is_ok v.severity ≡ true → (recheck (some v) w).0.worst ≡ w.worst
unfolding recheck
worst-recheck_ok v w h = ground (arith, h)

worst-recheck_failing :
    (v : Verdict) (w : Watch)
    → is_ok v.severity ≡ false
    → (recheck (some v) w).0.worst ≡ some (worse_of w.worst v)
unfolding recheck
worst-recheck_failing v w h = ground (
  arith,
  h,
  consecutive-announce v (record w { consecutive_ok = 0; worst = some (worse_of w.worst v) }),
)

Covers-ok : (worst : Option Verdict) (v : Verdict) → is_ok v.severity ≡ true → Covers worst (some v)
Covers-ok none v h = h
Covers-ok (some w) v h = inl h

All-Covers_same :
    (a b : Option Verdict) (l : List (Option Verdict)) → a ≡ b → All (Covers b) l → All (Covers a) l
All-Covers_same a b l e h = subst (λ x. All (Covers x) l) (sym e) h

-- The verdict that the loop keeps for the incident's record is at least as severe as every failing verdict of
-- its rechecks, and missing only when none failed: a milder one later does not replace it.
pub worst-Covers :
    (recovered_at : Option ℕ) (history : List (Option Verdict))
    → All (Covers (watch recovered_at history).worst) history
unfolding watch
worst-Covers recovered_at [] = tt
worst-Covers recovered_at (none ∷ older) =
    All-Covers_same _ (watch recovered_at older).worst (none ∷ older)
      (worst-recheck-none (watch recovered_at older)) (tt, worst-Covers recovered_at older)
worst-Covers recovered_at (some v ∷ older) =
    let w = watch recovered_at older in
    elim (Bool-cases (is_ok v.severity)) [
      | inl healthy ↦
          All-Covers_same _ w.worst (some v ∷ older) (worst-recheck_ok v w healthy)
            (Covers-ok w.worst v healthy, worst-Covers recovered_at older)
      | inr failing ↦
          All-Covers_same _ (some (worse_of w.worst v)) (some v ∷ older)
            (worst-recheck_failing v w failing)
            (Covers-self w.worst v, All-Covers w.worst v older (worst-Covers recovered_at older))
    ]
