-- ===== src/Outage/Liveness.antt =====
-- That `OutageTracker` of linkmoth_outage.py does announce a recovery, and when it is called over.
use linkmoth.Prelude.{ℕ, if◌then◌else◌, ◌≡◌, refl, ◌∙◌, ap, false, none, some, List, ◌∷◌, arith}
use linkmoth.Diagnosis.Check.{Check}
use linkmoth.Diagnosis.Verdict.{Verdict}
use linkmoth.Diagnosis.Global.{judge, is_effective_global_outage}
use linkmoth.Outage.Store.{OutageRow}
use linkmoth.Outage.Digest.{pending_suppression_digest}
use linkmoth.Outage.Tracker.{
  Callback, Tracker, load, notice, close_row, recover, observe_clear, observe, returned,
}
use linkmoth.Outage.Cleared.{after_callback}

-- A clear verdict.
abbrev pub IsClear : Verdict → List Check → Type 0
IsClear v checks = is_effective_global_outage (some (judge v)) checks ≡ false

module _ (cb : Callback) (now : ℕ) (v : Verdict) (checks : List Check) (t : Tracker)
    (row : OutageRow) where
  first_clear :
      t.consecutive_clear ≡ 0
      → load t.db ≡ some row
      → IsClear v checks
      → observe cb now (some v) checks t ≡ (record t { consecutive_clear = 1 }, returned)
  unfolding observe observe_clear
  first_clear zero_yet active clear = ground (arith, zero_yet, active, clear)

  second_clear :
      t.consecutive_clear ≡ 1
      → load t.db ≡ some row
      → IsClear v checks
      → ((observe cb now (some v) checks t).0.notices
          ≡ notice now row v checks (pending_suppression_digest t.db now).0 ∷ t.notices)
        × ((observe cb now (some v) checks t).0.consecutive_clear
            ≡ (if (after_callback cb now row v checks t).1 then 0 else 2))
  unfolding observe observe_clear recover
  second_clear one active clear =
      (ground (arith, one, active, clear), ground (arith, one, active, clear))

  over : load t.db ≡ some row → load (close_row now t.db) ≡ none
  unfolding load close_row
  over active = ground (arith, active)

module _ (cb : Callback) (now now' : ℕ) (v v' : Verdict) (checks checks' : List Check) (t : Tracker)
    (row : OutageRow) (zero_yet : t.consecutive_clear ≡ 0) (active : load t.db ≡ some row)
    (clear : IsClear v checks) (clear' : IsClear v' checks') where
  -- During an outage with no clear observation counted, two clear ones in a row announce the recovery
  -- exactly once, with the fault that the row holds and the alerts that are held back; the callback
  -- is given a database in which the outage is over; the count starts anew when the callback returns,
  -- and stays at two when it raises.
  pub two_clear_recover :
      ((observe cb now' (some v') checks' (observe cb now (some v) checks t).0).0.notices
        ≡ notice now' row v' checks' (pending_suppression_digest t.db now').0 ∷ t.notices)
      × (load (close_row now' t.db) ≡ none)
      × ((observe cb now'
            (some v')
            checks'
            (observe cb now (some v) checks t).0).0.consecutive_clear
          ≡ (if (after_callback cb now' row v' checks' t).1 then 0 else 2))
  two_clear_recover =
      let once : Tracker = record t { consecutive_clear = 1 } in
      let first = ap (λ x. x.0) (first_clear cb now v checks t row zero_yet active clear) in
      let second = second_clear cb now' v' checks' once row refl active clear' in
      (
        ap (λ x. (observe cb now' (some v') checks' x).0.notices) first ∙ second.0,
        over cb now' v' checks' t row active,
        ap (λ x. (observe cb now' (some v') checks' x).0.consecutive_clear) first ∙ second.1,
      )
