-- ===== src/Incidents/Single.antt =====
-- How many incidents are open: the methods of linkmoth_engine.py, with other writers between their
-- reads and their writes.
use linkmoth.Prelude.{
  ℕ, suc, ◌+◌, ◌≤◌, ◌≡◌, ◌≢◌, refl, String, Bool, true, false, ◌&&◌, Option, none, some, List, [],
  ◌∷◌, ◌++◌, any, count, update, arith, ◌==◌, ◌⊎◌, Option-cases, Bool-cases, inl, inr,
  if◌then◌else◌,
}
use linkmoth.Text.{truncate}
use linkmoth.Diagnosis.Verdict.{Severity, all_clear, ◌<>◌}
use linkmoth.Incidents.Data.{Incident, IncidentDb}
use linkmoth.Incidents.Store.{
  is_unresolved, find_incident, open_incident, last_open, close_open_outage_segment,
  update_unresolved, open_segment, observe_incident, record_incident_observation, mark_recovered,
  mark_failing, store_run,
}
use linkmoth.Incidents.Engine.{
  Race, Engine, new_incident, insert_incident, append_detail, attach_or_insert, guarded_insert,
  open_or_attach, trigger, resolve, close_open_incident, flag_false_alarm, chosen, mark_false_alarm,
}

-- How many incidents are open.
abbrev pub unresolved : IncidentDb → ℕ
unresolved db = count is_unresolved db.incidents

count-append :
    (l : List Incident) (x : Incident)
    → count is_unresolved (l ++ x ∷ []) ≡ count is_unresolved l + (if is_unresolved x then 1 else 0)
count-append [] x = ground arith
count-append (y ∷ l) x = ground (arith, count-append l x)

count-any : (l : List Incident) → any is_unresolved l ≡ false → count is_unresolved l ≡ 0
count-any [] h = refl
count-any (x ∷ l) h = ground (arith, count-any l)

last_open-some : (x : Incident) (l : List Incident) → last_open (some x) l ≢ none
last_open-some x [] h = cc h
last_open-some x (y ∷ l) h = ground (arith, last_open-some x l, last_open-some y l)

count-open_none : (l : List Incident) → open_incident l ≡ none → count is_unresolved l ≡ 0
unfolding open_incident
count-open_none [] h = refl
count-open_none (x ∷ l) h = ground (arith, last_open-some x l, count-open_none l)

-- An update that reopens nothing opens nothing.
count-update-le :
    (p : Incident → Bool) (f : Incident → Incident)
    → ((x : Incident) → is_unresolved (f x) ≡ true → is_unresolved x ≡ true)
    → (l : List Incident) → count is_unresolved (update p f l) ≤ count is_unresolved l
count-update-le p f h [] = omega arith
count-update-le p f h (x ∷ l) = ground (arith, h x, count-update-le p f h l)

-- A writer that never leaves a second incident open.
abbrev pub IsTame : Race → Type 0
IsTame race = (db : IncidentDb) → unresolved db ≤ 1 → unresolved (race db) ≤ 1

unresolved-insert :
    (now : ℕ) (source detail : String) (db : IncidentDb)
    → unresolved db ≡ 0
    → unresolved (insert_incident now source detail db) ≤ 1
unfolding insert_incident new_incident
unresolved-insert now source detail db h =
    ground (arith, count-append db.incidents (new_incident db.next_id now source detail))

unresolved-append_detail :
    (i : ℕ) (source detail : String) (db : IncidentDb)
    → unresolved (append_detail i source detail db) ≤ unresolved db
unfolding append_detail
unresolved-append_detail i source detail db =
    count-update-le (λ x. x.id == i)
      (λ x. record x { detail = x.detail <> " | " <> truncate 300 (source <> ": " <> detail) })
      (λ x h. h) db.incidents

-- A writer that leaves no more incidents open than there were.
abbrev pub OpensNone : Race → Type 0
OpensNone race = (db : IncidentDb) → unresolved (race db) ≤ unresolved db

unresolved-attach :
    (race race' : Race) (now : ℕ) (source detail : String) (db : IncidentDb)
    → IsTame race
    → OpensNone race'
    → unresolved db ≤ 1
    → unresolved (attach_or_insert race race' now source detail db).0 ≤ 1
unfolding attach_or_insert
unresolved-attach race race' now source detail db tame quiet h =
    let db' = race' (race db) in
    elim (Option-cases (open_incident (race db).incidents)) [
      | inl idle ↦
          let none_open : unresolved db' ≡ 0 =
            omega (arith, quiet (race db), count-open_none (race db).incidents idle) in
          ground (arith, idle, unresolved-insert now source detail db' none_open)
      | inr (x, busy) ↦
          ground (
            arith,
            busy,
            unresolved-append_detail x.id source detail db',
            quiet (race db),
            tame db h,
          )
    ]

unresolved-guarded :
    (race race' : Race) (now : ℕ) (source detail : String) (db : IncidentDb)
    → IsTame race
    → OpensNone race'
    → unresolved db ≤ 1
    → unresolved (guarded_insert race race' now source detail db).0 ≤ 1
unfolding guarded_insert
unresolved-guarded race race' now source detail db tame quiet h =
    elim (Bool-cases (any is_unresolved db.incidents)) [
      | inl busy ↦
          ground (arith, busy, unresolved-attach race race' now source detail db tame quiet h)
      | inr idle ↦
          ground (arith, idle, unresolved-insert now source detail db (count-any db.incidents idle))
    ]

module _ (race race' race'' : Race) (tame : IsTame race) (tame' : IsTame race')
    (quiet : OpensNone race'') (now : ℕ) where
  pub unresolved-trigger :
      (source detail : String) (e : Engine)
      → unresolved e.db ≤ 1
      → unresolved (trigger race race' race'' now source detail e).0.db ≤ 1
  unfolding trigger open_or_attach
  unresolved-trigger source detail e h = elim (Option-cases (open_incident e.db.incidents)) [
    | inl idle ↦ ground (
      arith,
      idle,
      unresolved-guarded race' race'' now source detail (race e.db) tame' quiet (tame e.db h),
    )
    | inr (x, busy) ↦
        ground (arith, busy, unresolved-append_detail x.id source detail (race e.db), tame e.db h)
  ]

-- `resolved=?` on one incident.
abbrev resolve_row : ℕ → ℕ → List Incident → List Incident
resolve_row i now l =
    update (λ y. (y.id == i) && is_unresolved y) (λ y. record y { resolved = some now }) l

count-resolve_row-le :
    (i now : ℕ) (l : List Incident)
    → count is_unresolved (resolve_row i now l) ≤ count is_unresolved l
count-resolve_row-le i now l =
    count-update-le (λ x. (x.id == i) && is_unresolved x) (λ x. record x { resolved = some now })
      (λ x h. cc h) l

-- Resolving the open incident leaves one fewer.
count-resolve_last :
    (acc : Option Incident) (l : List Incident) (x : Incident) (now : ℕ)
    → last_open acc l ≡ some x
    → (acc ≡ some x) ⊎ (suc (count is_unresolved (resolve_row x.id now l)) ≤ count is_unresolved l)
count-resolve_last acc [] x now h = inl h
count-resolve_last acc (y ∷ l) x now h = elim (Bool-cases (is_unresolved y)) [
  | inl fresh ↦
      ground (arith, h, count-resolve_last (some y) l x now, count-resolve_row-le x.id now l, fresh)
  | inr done ↦ ground (arith, h, count-resolve_last acc l x now, done)
]

unresolved-resolve-le :
    (i now : ℕ) (db : IncidentDb)
    → unresolved (resolve i now (close_open_outage_segment i now db)).0 ≤ unresolved db
unfolding resolve update_unresolved close_open_outage_segment
unresolved-resolve-le i now db = count-resolve_row-le i now db.incidents

unresolved-flag_false_alarm :
    (i : ℕ) (db : IncidentDb) → unresolved (flag_false_alarm i db) ≤ unresolved db
unfolding flag_false_alarm
unresolved-flag_false_alarm i db =
    count-update-le (λ x. x.id == i)
      (λ x. record x {
        false_alarm = true;
        verdict_code = some all_clear;
        verdict_title = some "Marked as false alarm";
      })
      (λ x h. h) db.incidents

pub unresolved-close :
    (race : Race) (now : ℕ) (e : Engine)
    → IsTame race
    → unresolved e.db ≤ 1
    → unresolved (close_open_incident race now e).0.db ≤ 1
unfolding close_open_incident
unresolved-close race now e tame h = elim (Option-cases (open_incident e.db.incidents)) [
  | inl idle ↦ ground (arith, idle)
  | inr (x, busy) ↦ ground (arith, busy, unresolved-resolve-le x.id now (race e.db), tame e.db h)
]

close_last :
    (now : ℕ) (l : List Incident) (x : Incident)
    → open_incident l ≡ some x
    → suc (count is_unresolved (resolve_row x.id now l)) ≤ count is_unresolved l
unfolding open_incident
close_last now l x busy = elim (count-resolve_last none l x now busy) [
  | inl missing ↦ cc missing
  | inr fewer ↦ fewer
]

-- With at most one incident open and no other writer between, none is open after the dashboard's
-- close.
pub close-unresolved :
    (now : ℕ) (e : Engine)
    → unresolved e.db ≤ 1
    → unresolved (close_open_incident (λ db. db) now e).0.db ≡ 0
unfolding close_open_incident resolve update_unresolved close_open_outage_segment
close-unresolved now e h = elim (Option-cases (open_incident e.db.incidents)) [
  | inl idle ↦ ground (arith, idle, count-open_none e.db.incidents idle)
  | inr (x, busy) ↦ ground (arith, busy, close_last now e.db.incidents x busy)
]

pub unresolved-mark :
    (race : Race) (now : ℕ) (ref : Option ℕ) (e : Engine)
    → IsTame race
    → unresolved e.db ≤ 1
    → unresolved (mark_false_alarm race now ref e).0.db ≤ 1
unfolding mark_false_alarm
unresolved-mark race now ref e tame h = elim (Option-cases (chosen ref e.db)) [
  | inl missing ↦ ground (arith, missing)
  | inr (x, found) ↦ ground (
    arith,
    found,
    unresolved-resolve-le x.id now (flag_false_alarm x.id (race e.db)),
    unresolved-flag_false_alarm x.id (race e.db),
    tame e.db h,
  )
]

unresolved-observe_incident :
    (x : Incident) (at : ℕ) (severity : Severity) (db : IncidentDb)
    → unresolved (observe_incident x at severity db) ≤ unresolved db
unfolding observe_incident update_unresolved open_segment close_open_outage_segment
unresolved-observe_incident x at severity db = ground (
  arith,
  count-update-le (λ y. (y.id == x.id) && is_unresolved y) (mark_recovered at) (λ y h. h)
      db.incidents,
  count-update-le (λ y. (y.id == x.id) && is_unresolved y) mark_failing (λ y h. h) db.incidents,
)

pub unresolved-store_run :
    (target : Option ℕ) (at : ℕ) (severity : Severity) (db : IncidentDb)
    → unresolved (store_run target at severity db) ≤ unresolved db
unfolding store_run record_incident_observation
unresolved-store_run none at severity db = omega arith
unresolved-store_run (some i) at severity db = elim (Option-cases (find_incident i db.incidents)) [
  | inl missing ↦ ground (arith, missing)
  | inr (x, found) ↦ ground (
    arith,
    found,
    unresolved-observe_incident x at severity (record db {
      runs = db.runs ++ record { incident_id = some i; ts = at; severity = severity } ∷ [];
    }),
  )
]
