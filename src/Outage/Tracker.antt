-- ===== src/Outage/Tracker.antt =====
-- `OutageTracker` of linkmoth_outage.py. Time is an argument of each call; the recovery callback is
-- a parameter that may write to the database and may raise.
use linkmoth.Prelude.{
  ℕ, suc, ◌-◌, String, Bool, true, false, Option, none, some, List, ◌∷◌, leb, ◌==◌, if◌then◌else◌,
}
use linkmoth.Text.{is_empty}
use linkmoth.Diagnosis.Check.{Check}
use linkmoth.Diagnosis.Verdict.{FaultCode, Verdict, code_text, ◌<>◌}
use linkmoth.Diagnosis.Global.{judge, is_effective_global_outage}
use linkmoth.Outage.Store.{OutageRow, Db, record_suppressed, clear_suppressed_alerts}
use linkmoth.Outage.Digest.{Line, pending_suppression_digest}

abbrev pub recovery_clear_runs : ℕ
recovery_clear_runs = 2

-- What `notify_recovery` is called with.
pub record Notice : Type 0 where
  pub prior_code : FaultCode
  pub prior_title : String
  pub prior_explain : String
  pub prior_started : ℕ
  pub recovery_verdict : Verdict
  pub checks : List Check
  pub fault_checks : List Check
  pub digest : List Line
  pub duration_s : ℕ

-- The callback's effect on the database, and whether it returned.
abbrev pub Callback : Type 0
Callback = Notice → Db → Db × Bool

pub record Tracker : Type 0 where
  pub consecutive_clear : ℕ
  pub db : Db
  pub notices : List Notice

-- A call returns, or its exception escapes; what was written before stays written.
pub data Ended : Type 0 where
  returned raised : Ended

-- `_load`: the row, if it is active.
unfoldable pub load : Db → Option OutageRow
load db = elim db.outage [ none ↦ none | some row ↦ if row.active then some row else none ]

title_or_code : Verdict → String
title_or_code v = if is_empty v.title then code_text v.code else v.title

unfoldable pub enter : ℕ → Verdict → List Check → Db → Db
unfolding title_or_code
enter now verdict checks db =
    record_suppressed now none ("Linkmoth detected: " <> title_or_code verdict) (some verdict)
      (record {
        source = "linkmoth";
        monitor = "";
        verdict = some (code_text verdict.code, verdict.title);
      })
      "global outage detected by Linkmoth – alerts deferred until recovery"
      (record db {
        outage = some (record {
          active = true;
          code = verdict.code;
          title = verdict.title;
          explain = verdict.explain;
          started = now;
          updated = now;
          checks = checks;
        });
      })

unfoldable pub touch : ℕ → Verdict → List Check → Db → Db
touch now verdict checks db = elim db.outage [
  | none ↦ db
  | some row ↦ record db {
    outage = some (record row {
      updated = now;
      code = verdict.code;
      title = verdict.title;
      explain = verdict.explain;
      checks = checks;
    });
  }
]

unfoldable pub close_row : ℕ → Db → Db
close_row now db = elim db.outage [
  | none ↦ db
  | some row ↦ record db { outage = some (record row { active = false; updated = now }) }
]

unfoldable pub notice : ℕ → OutageRow → Verdict → List Check → List Line → Notice
notice now active verdict checks digest = record {
  prior_code = active.code;
  prior_title = active.title;
  prior_explain = active.explain;
  prior_started = active.started;
  recovery_verdict = verdict;
  checks = checks;
  fault_checks = active.checks;
  digest = digest;
  duration_s = if active.started == 0 then 0 else now - active.started;
}

unfoldable pub recover : Callback → ℕ → OutageRow → Verdict → List Check → Tracker → Tracker × Ended
recover notify_recovery now active verdict checks t =
    let (digest, digest_ids) = pending_suppression_digest t.db now in
    let n = notice now active verdict checks digest in
    let (db', delivered) = notify_recovery n (close_row now t.db) in
    let t' : Tracker = record t { db = db'; notices = n ∷ t.notices } in
    if delivered
    then (record t' { db = clear_suppressed_alerts (some digest_ids) db' }, returned)
    else (t', raised)

reset_if_returned : Ended → Tracker → Tracker
reset_if_returned returned t = record t { consecutive_clear = 0 }
reset_if_returned raised t = t

-- A clear observation while an outage is active.
unfoldable pub observe_clear :
    Callback → ℕ → OutageRow → Verdict → List Check → Tracker → Tracker × Ended
unfolding reset_if_returned
observe_clear notify_recovery now active verdict checks t =
    let t' : Tracker = record t { consecutive_clear = suc t.consecutive_clear } in
    if leb recovery_clear_runs t'.consecutive_clear
    then (let (after, ended) = recover notify_recovery now active verdict checks t' in
        (reset_if_returned ended after, ended))
    else (t', returned)

unfoldable pub observe : Callback → ℕ → Option Verdict → List Check → Tracker → Tracker × Ended
observe notify_recovery now none checks t = (t, returned)
observe notify_recovery now (some verdict) checks t =
    let active = load t.db in
    if is_effective_global_outage (some (judge verdict)) checks
    then elim active [
      | none ↦ (record t { consecutive_clear = 0; db = enter now verdict checks t.db }, returned)
      | some row ↦
          (record t { consecutive_clear = 0; db = touch now verdict checks t.db }, returned)
    ]
    else elim active [
      | none ↦ (record t { consecutive_clear = 0 }, returned)
      | some row ↦ observe_clear notify_recovery now row verdict checks t
    ]

unfoldable pub is_active : Db → Bool
is_active db = elim (load db) [ none ↦ false | some row ↦ true ]

unfoldable pub active_code : Db → Option FaultCode
active_code db = elim (load db) [ none ↦ none | some row ↦ some row.code ]
