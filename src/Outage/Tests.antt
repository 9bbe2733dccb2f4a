-- ===== src/Outage/Tests.antt =====
-- An outage of the model, and the theorems at concrete inputs.
use linkmoth.Prelude.{ℕ, ◌≤◌, ◌≡◌, ◌≢◌, true, none, some, [], ◌∷◌, ◌++◌, arith, refl, if◌then◌else◌}
use linkmoth.Diagnosis.Verdict.{Verdict, ok, bad, wan_down, all_clear}
use linkmoth.Diagnosis.Global.{judge, is_effective_global_outage}
use linkmoth.Outage.Store.{Payload, OutageRow, Db, Suppressed, next_alert_id, record_suppressed}
use linkmoth.Outage.Tracker.{
  Callback, Tracker, load, recover, observe_clear, observe, notice, close_row,
}
use linkmoth.Outage.Digest.{pending_suppression_digest}
use linkmoth.Outage.Liveness.{IsClear, two_clear_recover}
use linkmoth.Outage.Recovery.{Observation, run, trailing_clear, recovery_needs_two_clear}
use linkmoth.Outage.Cleared.{
  IsStore, after_callback, started_or, load-observe_global, record_suppressed-IsStore,
}
use linkmoth.Outage.Kept.{suppressed-recover}

abbrev sent : Callback
sent n db = (db, true)

abbrev down_now : Verdict
down_now = record {
  severity = bad;
  code = wan_down;
  title = "Internet down";
  explain = "";
  hint = "";
}

abbrev fine : Verdict
fine = record { severity = ok; code = all_clear; title = "All clear"; explain = ""; hint = "" }

abbrev held : Suppressed
held = record {
  id = 0;
  ts = 50;
  kuma_status = some 0;
  monitor_detail = "NAS: down";
  verdict_code = some wan_down;
  verdict_title = some "Internet down";
  payload = record { source = "kuma"; monitor = "NAS"; verdict = none };
  reason = "";
}

abbrev lasting : OutageRow
lasting = record {
  active = true;
  code = wan_down;
  title = "Internet down";
  explain = "";
  started = 40;
  updated = 60;
  checks = [];
}

abbrev db : Db
db = record { suppressed = held ∷ []; outage = some lasting }

abbrev tracker : Tracker
tracker = record { consecutive_clear = 0; db = db; notices = [] }

abbrev clear_at : ℕ → Observation
clear_at now = record { now = now; verdict = some fine; checks = [] }

-- The first clear observation announces nothing, the second does.
two_announce :
    (run sent tracker (clear_at 80 ∷ clear_at 70 ∷ [])).notices
    ≢ (run sent tracker (clear_at 70 ∷ [])).notices
unfolding run observe observe_clear recover load is_effective_global_outage
two_announce = ground arith

recovery_needs_two_clear_example : 2 ≤ trailing_clear (clear_at 80 ∷ clear_at 70 ∷ [])
recovery_needs_two_clear_example =
    recovery_needs_two_clear sent tracker (clear_at 80) (clear_at 70 ∷ []) refl two_announce

-- One more alert is held back while the notice is made.
abbrev late : Suppressed
late = record held { id = 1 }

abbrev sent_late : Callback
sent_late n db = (record db { suppressed = db.suppressed ++ late ∷ [] }, true)

suppressed-recover_example : (recover sent_late 80 lasting fine [] tracker).0.db.suppressed ≡ (
    if (after_callback sent_late 80 lasting fine [] tracker).1 then late ∷ [] else held ∷ late ∷ [])
unfolding close_row
suppressed-recover_example =
    suppressed-recover sent_late 80 lasting fine [] tracker 0 (late ∷ []) refl (refl, tt)

down_is_global : is_effective_global_outage (some (judge down_now)) [] ≡ true
unfolding is_effective_global_outage
down_is_global = refl

load-observe_global_example :
    (row : OutageRow) × (load (observe sent 90 (some down_now) [] tracker).0.db ≡ some row)
    × (row.code ≡ wan_down)
    × (row.checks ≡ [])
    × (row.updated ≡ 90)
    × (row.started ≡ started_or 90 (load db))
    × ((observe sent 90 (some down_now) [] tracker).0.consecutive_clear ≡ 0)
load-observe_global_example = load-observe_global sent 90 down_now [] tracker down_is_global

db-IsStore : IsStore db
unfolding next_alert_id
db-IsStore = record {
  ordered = (omega arith, tt);
  fresh = (omega arith, tt);
  capped = ground arith;
}

abbrev alert : Payload
alert = record { source = "kuma"; monitor = "Router"; verdict = none }

record_suppressed-IsStore_example :
    IsStore (record_suppressed 95 (some 0) "Router: down" (some down_now) alert "held" db)
record_suppressed-IsStore_example =
    record_suppressed-IsStore 95 (some 0) "Router: down" (some down_now) alert "held" db db-IsStore

still_active : load db ≡ some lasting
unfolding load
still_active = refl

fine-IsClear : IsClear fine []
unfolding is_effective_global_outage
fine-IsClear = refl

two_clear_recover_example :
    ((observe sent 80 (some fine) [] (observe sent 70 (some fine) [] tracker).0).0.notices
      ≡ notice 80 lasting fine [] (pending_suppression_digest db 80).0 ∷ [])
    × (load (close_row 80 db) ≡ none)
    × ((observe sent 80
          (some fine)
          []
          (observe sent 70 (some fine) [] tracker).0).0.consecutive_clear
        ≡ (if (after_callback sent 80 lasting fine [] tracker).1 then 0 else 2))
two_clear_recover_example =
    two_clear_recover sent 70 80 fine fine [] [] tracker lasting refl still_active fine-IsClear
      fine-IsClear
