-- ===== src/Outage/Cleared.antt =====
-- What a recovery of linkmoth_outage.py clears, what an outage keeps, and the bound on the alerts
-- that are held back.
use linkmoth.Prelude.{
  newest, ℕ, zero, suc, ◌-◌, ◌≤◌, ◌<◌, String, ◌≡◌, refl, ◌∙◌, ap, Bool, true, false, not, ◌||◌,
  Option, none, some, List, [], ◌∷◌, ◌++◌, map, keep, length, arith, drop, All, length-newest-le,
  length-keep-le, ◌==◌, if◌then◌else◌,
}
use linkmoth.Diagnosis.Check.{Check}
use linkmoth.Diagnosis.Verdict.{Verdict}
use linkmoth.Diagnosis.Global.{judge, is_effective_global_outage}
use linkmoth.Outage.Store.{
  Payload, Suppressed, OutageRow, Db, max_suppressed_alerts, suppressed_row, next_alert_id,
  record_suppressed, has_id, clear_suppressed_alerts,
}
use linkmoth.Outage.Digest.{insert_by_ts, fetch_suppressed_alerts, pending_suppression_digest}
use linkmoth.Outage.Tracker.{
  Callback, Tracker, load, enter, touch, notice, close_row, recover, observe,
}

abbrev pub ids : List Suppressed → List ℕ
ids = map (λ row. row.id)

has_id-insert :
    (i : ℕ) (row : Suppressed) (rows : List Suppressed)
    → has_id (ids (insert_by_ts row rows)) i ≡ has_id (ids (row ∷ rows)) i
unfolding insert_by_ts
has_id-insert i row [] = refl
has_id-insert i row (other ∷ rest) = ground (arith, has_id-insert i row rest)

-- Sorting by time changes no id.
has_id-fetch :
    (i : ℕ) (rows : List Suppressed)
    → has_id (ids (fetch_suppressed_alerts rows)) i ≡ has_id (ids rows) i
unfolding fetch_suppressed_alerts
has_id-fetch i [] = refl
has_id-fetch i (row ∷ rows) =
    has_id-insert i row (fetch_suppressed_alerts rows)
    ∙ ap (λ b. (i == row.id) || b) (has_id-fetch i rows)

keep_ext :
    (p q : Suppressed → Bool)
    → ((row : Suppressed) → p row ≡ q row)
    → (rows : List Suppressed) → keep p rows ≡ keep q rows
keep_ext p q h [] = refl
keep_ext p q h (row ∷ rows) = ground (arith, h row, keep_ext p q h rows)

-- The database that the callback leaves when the recovery at `now` calls it.
abbrev pub after_callback : Callback → ℕ → OutageRow → Verdict → List Check → Tracker → Db × Bool
after_callback cb now row v checks t =
    cb (notice now row v checks (pending_suppression_digest t.db now).0) (close_row now t.db)

abbrev pub started_or : ℕ → Option OutageRow → ℕ
started_or now none = now
started_or now (some row) = row.started

found_row : ℕ → Verdict → List Check → Option OutageRow → OutageRow
found_row now v checks active = record {
  active = true;
  code = v.code;
  title = v.title;
  explain = v.explain;
  started = started_or now active;
  updated = now;
  checks = checks;
}

module _ (cb : Callback) (now : ℕ) (row : OutageRow) (v : Verdict) (checks : List Check)
    (t : Tracker) where
  pub keep-recover : (recover cb now row v checks t).0.db.suppressed ≡ (
      if (after_callback cb now row v checks t).1
      then keep
          (λ r. not (has_id (ids t.db.suppressed) r.id))
          (after_callback cb now row v checks t).0.suppressed
      else (after_callback cb now row v checks t).0.suppressed)
  unfolding recover clear_suppressed_alerts pending_suppression_digest
  keep-recover = ground (
    arith,
    keep_ext (λ r. not (has_id (ids (fetch_suppressed_alerts t.db.suppressed)) r.id))
        (λ r. not (has_id (ids t.db.suppressed) r.id))
        (λ r. ap not (has_id-fetch r.id t.db.suppressed))
        (after_callback cb now row v checks t).0.suppressed,
  )

-- A global observation leaves an active row with the fault just seen; the outage's beginning is
-- kept while it lasts, and is the observation's time when it is the first.
pub load-observe_global :
    (cb : Callback) (now : ℕ) (v : Verdict) (checks : List Check) (t : Tracker)
    → is_effective_global_outage (some (judge v)) checks ≡ true
    → (row : OutageRow) × (load (observe cb now (some v) checks t).0.db ≡ some row)
      × (row.code ≡ v.code)
      × (row.checks ≡ checks)
      × (row.updated ≡ now)
      × (row.started ≡ started_or now (load t.db))
      × ((observe cb now (some v) checks t).0.consecutive_clear ≡ 0)
unfolding observe load enter touch record_suppressed found_row
load-observe_global cb now v checks t global =
    (found_row now v checks (load t.db), ground arith, refl, refl, refl, ground arith, ground arith)

-- The rows' ids ascend and are below the next one, and there are at most 500 rows.
abbrev pub Ascending : ℕ → List Suppressed → Type 0
Ascending bound [] = Unit
Ascending bound (row ∷ rows) = (bound ≤ row.id) × Ascending (suc row.id) rows

pub record IsStore (db : Db) : Type 0 where
  pub ordered : Ascending 0 db.suppressed
  pub fresh : All (λ row. row.id < next_alert_id db.suppressed) db.suppressed
  pub capped : length db.suppressed ≤ max_suppressed_alerts

Ascending-le : (a b : ℕ) (rows : List Suppressed) → a ≤ b → Ascending b rows → Ascending a rows
Ascending-le a b [] h k = k
Ascending-le a b (row ∷ rows) h k = (omega arith, k.1)

Ascending-drop : (n a : ℕ) (rows : List Suppressed) → Ascending a rows → Ascending a (drop n rows)
Ascending-drop zero a rows h = h
Ascending-drop (suc n) a [] h = h
Ascending-drop (suc n) a (row ∷ rows) h =
    Ascending-drop n a rows (Ascending-le a (suc row.id) rows (omega arith) h.1)

Ascending-if :
    (b : Bool) (a : ℕ) (row : Suppressed) (rows : List Suppressed)
    → a ≤ row.id
    → Ascending (suc row.id) rows
    → Ascending a (if b then row ∷ rows else rows)
Ascending-if true a row rows h k = (h, k)
Ascending-if false a row rows h k = Ascending-le a (suc row.id) rows (omega arith) k

Ascending-keep :
    (p : Suppressed → Bool) (a : ℕ) (rows : List Suppressed)
    → Ascending a rows
    → Ascending a (keep p rows)
Ascending-keep p a [] h = h
Ascending-keep p a (row ∷ rows) h =
    Ascending-if (p row) a row (keep p rows) h.0 (Ascending-keep p (suc row.id) rows h.1)

Ascending-append :
    (a : ℕ) (rows : List Suppressed) (new : Suppressed)
    → a ≤ new.id
    → Ascending a rows
    → All (λ row. row.id < new.id) rows
    → Ascending a (rows ++ new ∷ [])
Ascending-append a [] new h k below = (h, tt)
Ascending-append a (row ∷ rows) new h k below =
    (k.0, Ascending-append (suc row.id) rows new below.0 k.1 below.1)

All-below :
    (n m : ℕ) (rows : List Suppressed)
    → n ≤ m
    → All (λ row. row.id < n) rows
    → All (λ row. row.id < m) rows
All-below n m [] h k = tt
All-below n m (row ∷ rows) h k = (omega (arith, k.0), All-below n m rows h k.1)

-- SQLite's next id is above every id.
All-next_alert_id : (rows : List Suppressed) → All (λ row. row.id < next_alert_id rows) rows
unfolding next_alert_id
All-next_alert_id [] = tt
All-next_alert_id (row ∷ rows) = (
  omega arith,
  All-below (next_alert_id rows) (next_alert_id (row ∷ rows)) rows (omega arith)
      (All-next_alert_id rows),
)

-- Holding back an alert keeps rows that are ordered by fresh ids, and at most 500, so.
pub record_suppressed-IsStore :
    (now : ℕ) (status : Option ℕ) (detail : String) (v : Option Verdict) (p : Payload)
    (reason : String) (db : Db)
    → IsStore db
    → IsStore (record_suppressed now status detail v p reason db)
unfolding record_suppressed
record_suppressed-IsStore now status detail v p reason db h =
    let n = length (db.suppressed ++ row ∷ []) - max_suppressed_alerts in
    record {
      ordered =
          Ascending-drop n 0 _
            (Ascending-append 0 db.suppressed row (omega arith) h.ordered h.fresh);
      fresh = All-next_alert_id (newest max_suppressed_alerts (db.suppressed ++ row ∷ []));
      capped = length-newest-le max_suppressed_alerts (db.suppressed ++ row ∷ []);
    }
  where
    row : Suppressed
    row = suppressed_row (next_alert_id db.suppressed) now status detail v p reason

-- Clearing the rows with given ids keeps rows that are ordered by fresh ids, and at most 500, so.
pub clear-IsStore :
    (chosen : List ℕ) (db : Db) → IsStore db → IsStore (clear_suppressed_alerts (some chosen) db)
unfolding clear_suppressed_alerts
clear-IsStore chosen db h =
    let p : Suppressed → Bool = λ r. not (has_id chosen r.id) in
    record {
      ordered = Ascending-keep p 0 db.suppressed h.ordered;
      fresh = All-next_alert_id (keep p db.suppressed);
      capped = omega (arith, length-keep-le p db.suppressed, h.capped);
    }
