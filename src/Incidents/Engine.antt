-- ===== src/Incidents/Engine.antt =====
-- The methods of `Engine` in linkmoth_engine.py that open and close incidents. Between a read and
-- the write that rests on it another thread or process may write: `Race` is what it does. Time is an
-- argument, and a reference is the id that it is made of.
use linkmoth.Prelude.{
  ℕ, suc, String, Bool, true, false, ◌&&◌, Option, none, some, List, [], ◌∷◌, ◌++◌, any, update,
  ◌==◌, if◌then◌else◌,
}
use linkmoth.Text.{truncate}
use linkmoth.Diagnosis.Verdict.{all_clear, ◌<>◌}
use linkmoth.Incidents.Data.{Incident, IncidentDb}
use linkmoth.Incidents.Store.{
  is_unresolved, find_incident, open_incident, close_open_outage_segment, update_unresolved,
}

abbrev pub Race : Type 0
Race = IncidentDb → IncidentDb

pub data WebhookEvent : Type 0 where
  fault_opened degradation_detected fault_updated fault_recovered : WebhookEvent
  fault_closed false_alarm_marked : WebhookEvent

-- `loop` is the incident of the recheck thread, while one is alive; `events` are the webhook events
-- that were handed over, newest first.
pub record Engine : Type 0 where
  pub db : IncidentDb
  pub loop : Option ℕ
  pub events : List (ℕ × WebhookEvent)

unfoldable pub new_incident : ℕ → ℕ → String → String → Incident
new_incident id now source detail = record {
  id = id;
  started = now;
  source = source;
  detail = detail;
  resolved = none;
  recovered_at = none;
  verdict_code = none;
  verdict_title = none;
  diagnosis_code = none;
  diagnosis_title = none;
  false_alarm = false;
}

unfoldable pub insert_incident : ℕ → String → String → IncidentDb → IncidentDb
unfolding new_incident
insert_incident now source detail db = record db {
  incidents = db.incidents ++ new_incident db.next_id now source detail ∷ [];
  next_id = suc db.next_id;
}

unfoldable pub append_detail : ℕ → String → String → IncidentDb → IncidentDb
append_detail i source detail db = record db {
  incidents =
      update (λ x. x.id == i)
        (λ x. record x { detail = x.detail <> " | " <> truncate 300 (source <> ": " <> detail) })
        db.incidents;
}

-- The guarded insert lost: attach to the incident that is open, or insert without the guard. `race` comes
-- before the second read, `race'` between it and the write.
unfoldable pub attach_or_insert : Race → Race → ℕ → String → String → IncidentDb → IncidentDb × ℕ
attach_or_insert race race' now source detail db =
    let read = race db in
    let db' = race' read in
    elim (open_incident read.incidents) [
      | none ↦ (insert_incident now source detail db', db'.next_id)
      | some incident ↦ (append_detail incident.id source detail db', incident.id)
    ]

-- `INSERT … WHERE NOT EXISTS (an open incident)`, and what follows it.
unfoldable pub guarded_insert : Race → Race → ℕ → String → String → IncidentDb → IncidentDb × ℕ
guarded_insert race race' now source detail db =
    if any is_unresolved db.incidents
    then attach_or_insert race race' now source detail db
    else (insert_incident now source detail db, db.next_id)

unfoldable pub open_or_attach :
    Race → Race → Race → ℕ → String → String → IncidentDb → IncidentDb × ℕ
open_or_attach race race' race'' now source detail db = elim (open_incident db.incidents) [
  | none ↦ guarded_insert race' race'' now source detail (race db)
  | some incident ↦ (append_detail incident.id source detail (race db), incident.id)
]

abbrev or_start : Option ℕ → ℕ → Option ℕ
or_start none i = some i
or_start (some j) i = some j

-- The other writers: between the first read and the write after it, before the second read, and between
-- the second read and the write after it.
unfoldable pub trigger : Race → Race → Race → ℕ → String → String → Engine → Engine × ℕ
trigger race race' race'' now source detail e =
    let (db, i) = open_or_attach race race' race'' now source detail e.db in
    (record e { db = db; loop = or_start e.loop i }, i)

-- `UPDATE incidents SET resolved=? WHERE id=? AND resolved IS NULL`, and whether it met a row.
unfoldable pub resolve : ℕ → ℕ → IncidentDb → IncidentDb × Bool
resolve i now db = (
  update_unresolved i (λ x. record x { resolved = some now }) db,
  any (λ (x : Incident). (x.id == i) && is_unresolved x) db.incidents,
)

emit_if : Bool → ℕ → WebhookEvent → List (ℕ × WebhookEvent) → List (ℕ × WebhookEvent)
emit_if true i event events = (i, event) ∷ events
emit_if false i event events = events

unfoldable pub close_open_incident : Race → ℕ → Engine → Engine × Option Incident
unfolding emit_if
close_open_incident race now e = elim (open_incident e.db.incidents) [
  | none ↦ (e, none)
  | some incident ↦
      let (db, met) =
        resolve incident.id now (close_open_outage_segment incident.id now (race e.db)) in
      (record e { db = db; events = emit_if met incident.id fault_closed e.events }, some incident)
]

unfoldable pub flag_false_alarm : ℕ → IncidentDb → IncidentDb
flag_false_alarm i db = record db {
  incidents =
      update (λ x. x.id == i)
        (λ x. record x {
          false_alarm = true;
          verdict_code = some all_clear;
          verdict_title = some "Marked as false alarm";
        })
        db.incidents;
}

abbrev pub chosen : Option ℕ → IncidentDb → Option Incident
chosen none db = open_incident db.incidents
chosen (some i) db = find_incident i db.incidents

unfoldable pub mark_false_alarm : Race → ℕ → Option ℕ → Engine → Engine × Option Incident
unfolding emit_if
mark_false_alarm race now ref e = elim (chosen ref e.db) [
  | none ↦ (e, none)
  | some incident ↦
      let i = incident.id in
      let (db, met) =
        resolve i now (close_open_outage_segment i now (flag_false_alarm i (race e.db))) in
      (
        record e {
          db = db;
          events = emit_if met i fault_closed ((i, false_alarm_marked) ∷ e.events);
        },
        some incident,
      )
]
