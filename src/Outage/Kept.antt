-- ===== src/Outage/Kept.antt =====
-- What a recovery of linkmoth_outage.py leaves of the alerts that are held back.
use linkmoth.Prelude.{
  ℕ, ◌≡◌, refl, ◌∙◌, true, false, not, List, [], ◌∷◌, ◌++◌, keep, drop, All, All-drop, All-imply,
  if◌then◌else◌, arith,
}
use linkmoth.Diagnosis.Check.{Check}
use linkmoth.Diagnosis.Verdict.{Verdict}
use linkmoth.Outage.Store.{Suppressed, OutageRow, has_id}
use linkmoth.Outage.Tracker.{Callback, Tracker, recover}
use linkmoth.Outage.Cleared.{ids, after_callback, keep-recover}

abbrev without_held : List ℕ → List Suppressed → List Suppressed
without_held chosen rows = keep (λ r. not (has_id chosen r.id)) rows

-- Alerts with other ids.
abbrev pub AreNew : List ℕ → List Suppressed → Type 0
AreNew chosen rows = All (λ (r : Suppressed). has_id chosen r.id ≡ false) rows

without_held-new :
    (chosen : List ℕ) (rows : List Suppressed)
    → AreNew chosen rows
    → without_held chosen rows ≡ rows
without_held-new chosen [] h = refl
without_held-new chosen (r ∷ rows) h = ground (arith, h.0, without_held-new chosen rows h.1)

without_held-old :
    (chosen : List ℕ) (old new : List Suppressed)
    → All (λ (r : Suppressed). has_id chosen r.id ≡ true) old
    → without_held chosen (old ++ new) ≡ without_held chosen new
without_held-old chosen [] new h = refl
without_held-old chosen (r ∷ old) new h = ground (arith, h.0, without_held-old chosen old new h.1)

own_ids : (rows : List Suppressed) → All (λ (r : Suppressed). has_id (ids rows) r.id ≡ true) rows
own_ids [] = tt
own_ids (r ∷ rows) = (ground arith, All-imply _ _ rows (λ x h. ground (arith, h)) (own_ids rows))

-- While the recovery notice is made, other threads may hold back new alerts, whose ids are not among those
-- held at the time of the summary, and the cap may drop the oldest of the old ones. When the callback
-- returns, exactly the new alerts are left; when it raises, nothing is cleared.
pub suppressed-recover :
    (cb : Callback) (now : ℕ) (row : OutageRow) (v : Verdict) (checks : List Check) (t : Tracker)
    (k : ℕ) (new : List Suppressed)
    → (after_callback cb now row v checks t).0.suppressed ≡ drop k t.db.suppressed ++ new
    → AreNew (ids t.db.suppressed) new
    → (recover cb now row v checks t).0.db.suppressed
      ≡ (if (after_callback cb now row v checks t).1 then new else drop k t.db.suppressed ++ new)
suppressed-recover cb now row v checks t k new h fresh =
    let old = t.db.suppressed in
    let left : without_held (ids old) (drop k old ++ new) ≡ new =
      without_held-old (ids old) (drop k old) new
        (All-drop (λ (r : Suppressed). has_id (ids old) r.id ≡ true) k old (own_ids old))
      ∙ without_held-new (ids old) new fresh in
    ground (arith, keep-recover cb now row v checks t, h, left)
