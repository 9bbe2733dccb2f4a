-- ===== src/Incidents/Loop.antt =====
-- `_loop` of linkmoth_engine.py: the rechecks of an open incident. A diagnosis that another one
-- blocks, or that raises, is `none`; the waiting between the rechecks is not modelled.
use linkmoth.Prelude.{
  ℕ, suc, Bool, true, false, not, ◌&&◌, Option, none, some, List, [], ◌∷◌, any, leb, ◌==◌, str_eq,
  if◌then◌else◌,
}
use linkmoth.Diagnosis.Verdict.{Severity, ok, warn, bad, FaultCode, all_clear, code_text, Verdict}
use linkmoth.Incidents.Data.{Incident}
use linkmoth.Incidents.Segments.{is_ok}
use linkmoth.Incidents.Store.{is_unresolved, close_open_outage_segment, update_unresolved, coalesce}
use linkmoth.Incidents.Engine.{
  WebhookEvent, fault_opened, degradation_detected, fault_updated, fault_recovered, fault_closed,
  Engine,
}

-- What the loop keeps; `events` are the webhook events that it handed over, newest first.
pub record Watch : Type 0 where
  pub consecutive_ok : ℕ
  pub worst : Option Verdict
  pub fault_notified : Bool
  pub last_emitted : Option (FaultCode × Severity)
  pub events : List WebhookEvent

-- The loop begins with one healthy observation when the incident was already called recovered.
unfoldable pub begin_watch : Option ℕ → Watch
begin_watch recovered_at = record {
  consecutive_ok = elim recovered_at [ none ↦ 0 | some t ↦ 1 ];
  worst = none;
  fault_notified = false;
  last_emitted = none;
  events = [];
}

abbrev pub rank : Severity → ℕ
rank ok = 0
rank warn = 1
rank bad = 2

-- `worst` after a failing verdict: the later one wins a tie.
unfoldable pub worse_of : Option Verdict → Verdict → Verdict
worse_of none v = v
worse_of (some w) v = if leb (rank w.severity) (rank v.severity) then v else w

opening : Severity → WebhookEvent
opening warn = degradation_detected
opening _ = fault_opened

was_emitted : Option (FaultCode × Severity) → Verdict → Bool
was_emitted none v = false
was_emitted (some (code, severity)) v =
    str_eq (code_text code) (code_text v.code) && (rank severity == rank v.severity)

unfoldable pub announce : Verdict → Watch → Watch
unfolding opening was_emitted
announce v w =
    if not w.fault_notified
    then record w {
      fault_notified = true;
      last_emitted = some (v.code, v.severity);
      events = opening v.severity ∷ w.events;
    }
    else if was_emitted w.last_emitted v
    then w
    else record w { last_emitted = some (v.code, v.severity); events = fault_updated ∷ w.events }

-- One recheck; the Boolean says that the loop breaks, with the recovery announced.
unfoldable pub recheck : Option Verdict → Watch → Watch × Bool
recheck none w = (w, false)
recheck (some v) w =
    if is_ok v.severity
    then (let w' : Watch = record w { consecutive_ok = suc w.consecutive_ok } in
        if leb 2 w'.consecutive_ok
        then (record w' { events = fault_recovered ∷ w'.events }, true)
        else (w', false))
    else (announce v (record w { consecutive_ok = 0; worst = some (worse_of w.worst v) }), false)

abbrev final_verdict : Option Verdict → Verdict
final_verdict none = record {
  severity = ok;
  code = all_clear;
  title = "Nothing wrong seen from the network side";
  explain = "";
  hint = "";
}
final_verdict (some v) = v

-- The update that ends the loop, for an incident that nobody else has closed.
unfoldable pub finish : ℕ → ℕ → Watch → Engine → Engine
finish i now w e =
    let final = final_verdict w.worst in
    let met = any (λ (x : Incident). (x.id == i) && is_unresolved x) e.db.incidents in
    record e {
      db =
          update_unresolved i
            (λ x. record x {
              resolved = some now;
              recovered_at =
                  if leb 2 w.consecutive_ok then coalesce x.recovered_at now else x.recovered_at;
              verdict_code = some final.code;
              verdict_title = some final.title;
              diagnosis_code = some final.code;
              diagnosis_title = some final.title;
            })
            (close_open_outage_segment i now e.db);
      loop = none;
      events = if met then (i, fault_closed) ∷ e.events else e.events;
    }
