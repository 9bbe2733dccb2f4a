-- ===== src/Incidents/Calls.antt =====
-- Any sequence of the engine's calls in linkmoth_engine.py that open, close or observe an incident.
use linkmoth.Prelude.{ℕ, ◌≤◌, String, Option, arith}
use linkmoth.Diagnosis.Verdict.{Severity}
use linkmoth.Incidents.Store.{store_run}
use linkmoth.Incidents.Engine.{Race, Engine, trigger, close_open_incident, mark_false_alarm}
use linkmoth.Incidents.Single.{
  unresolved, IsTame, OpensNone, unresolved-trigger, unresolved-close, unresolved-mark,
  unresolved-store_run,
}

-- One call of the engine, with what other writers do between its reads and its writes.
pub data Call (e : Engine) : Engine → Type 0 where
  triggered :
      (race race' race'' : Race)
      → IsTame race
      → IsTame race'
      → OpensNone race''
      → (now : ℕ) (source detail : String)
      → Call e (trigger race race' race'' now source detail e).0
  closed : (race : Race) → IsTame race → (now : ℕ) → Call e (close_open_incident race now e).0
  marked :
      (race : Race)
      → IsTame race
      → (now : ℕ) (ref : Option ℕ) → Call e (mark_false_alarm race now ref e).0
  diagnosed :
      (target : Option ℕ) (at : ℕ) (severity : Severity)
      → Call e (record e { db = store_run target at severity e.db })

pub data Calls (e : Engine) : Engine → Type 0 where
  start : Calls e e
  then_call : {f g : Engine} → Calls e f → Call f g → Calls e g

unresolved-Call : {e f : Engine} → Call e f → unresolved e.db ≤ 1 → unresolved f.db ≤ 1
unresolved-Call {e} (triggered race race' race'' tame tame' quiet now source detail) h =
    unresolved-trigger race race' race'' tame tame' quiet now source detail e h
unresolved-Call {e} (closed race tame now) h = unresolved-close race now e tame h
unresolved-Call {e} (marked race tame now ref) h = unresolved-mark race now ref e tame h
unresolved-Call {e} (diagnosed target at severity) h =
    omega (arith, h, unresolved-store_run target at severity e.db)

-- From a database with at most one open incident, any sequence of triggers, closes, false alarms and
-- stored runs leaves at most one open. Other writers may act between a call's reads and writes, as long
-- as they leave at most one open, and as long as none opens an incident between a trigger's second read,
-- which follows a guarded insert that met an open incident, and the write after it.
pub unresolved-Calls : {e f : Engine} → Calls e f → unresolved e.db ≤ 1 → unresolved f.db ≤ 1
unresolved-Calls start h = h
unresolved-Calls (then_call calls call) h = unresolved-Call call (unresolved-Calls calls h)
