-- ===== src/Webhooks/Emit.antt =====
-- `emit_event` of linkmoth_webhooks.py, which is one transaction.
use linkmoth.Prelude.{
  ℕ, suc, zero, ◌+◌, ◌-◌, ◌*◌, String, Bool, not, ◌&&◌, Option, none, some, List, [], ◌∷◌, ◌++◌,
  keep, any, map, count, length, min, max, ltb, ◌==◌, str_eq, if◌then◌else◌,
}
use linkmoth.Text.{is_empty}
use linkmoth.Webhooks.Data.{
  is_one_of, queue_cap, is_known, is_escalatable, is_clearing, Context, Webhook, Delivery, HookDb,
}

-- A delivery that an escalation delay holds back for an incident.
unfoldable pub is_held : ℕ → String → Delivery → Bool
is_held now incident_id row =
    row.attempts == 0
    && (ltb now row.next_attempt
        && (is_escalatable row.event && str_eq row.context.incident_id incident_id))

abbrev pub ids_of_held : ℕ → String → List Delivery → List ℕ
ids_of_held now incident_id rows =
    map (λ (r : Delivery). r.id) (keep (is_held now incident_id) rows)

abbrev pub without_ids : List ℕ → List Delivery → List Delivery
without_ids ids rows = keep (λ r. not (any (λ i. i == r.id) ids)) rows

-- The held faults of the incident that an event resolves are deleted.
unfoldable pub cancel_held : ℕ → String → Context → List Delivery → List Delivery
cancel_held now event ctx rows =
    if is_clearing event && not (is_empty ctx.incident_id)
    then without_ids (ids_of_held now ctx.incident_id rows) rows
    else rows

-- The row id that SQLite gives to the next row: one above the highest.
unfoldable pub next_id : List Delivery → ℕ
next_id [] = 1
next_id (row ∷ rows) = max (suc row.id) (next_id rows)

abbrev pub is_target : String → Webhook → Bool
is_target event w = w.enabled && is_one_of w.events event

abbrev pub delay_for : String → Webhook → ℕ
delay_for event w = if is_escalatable event then w.escalation_minutes * 60 else 0

unfoldable pub new_delivery : ℕ → ℕ → String → Context → Webhook → Delivery
new_delivery id now event ctx w = record {
  id = id;
  webhook_id = w.id;
  event = event;
  context = ctx;
  created = now;
  attempts = 0;
  next_attempt = now + delay_for event w;
  last_error = none;
  escalation_seconds = delay_for event w;
}

-- One row for each target.
unfoldable pub enqueue : ℕ → String → Context → List Webhook → List Delivery → List Delivery
enqueue now event ctx [] rows = rows
enqueue now event ctx (w ∷ targets) rows =
    enqueue now event ctx targets (rows ++ new_delivery (next_id rows) now event ctx w ∷ [])

abbrev pub is_of : String → Delivery → Bool
is_of webhook_id r = str_eq r.webhook_id webhook_id

abbrev pub backlog : String → List Delivery → ℕ
backlog webhook_id rows = count (is_of webhook_id) rows

-- `GROUP BY webhook_id ORDER BY n DESC, MIN(id) ASC LIMIT 1`, over the rows of `rest` and the counts in
-- `rows`.
abbrev pub louder : ℕ → Delivery → Option (String × ℕ) → Option (String × ℕ)
louder n r none = some (r.webhook_id, n)
louder n r (some (w, m)) = if ltb n m then some (w, m) else some (r.webhook_id, n)

unfoldable pub noisiest_of : List Delivery → List Delivery → Option (String × ℕ)
noisiest_of rows [] = none
noisiest_of rows (r ∷ rest) = louder (backlog r.webhook_id rows) r (noisiest_of rows rest)

abbrev pub noisiest : List Delivery → Option (String × ℕ)
noisiest rows = noisiest_of rows rows

-- The oldest `n` rows of a webhook are deleted.
unfoldable pub drop_oldest : String → ℕ → List Delivery → List Delivery
drop_oldest webhook_id n [] = []
drop_oldest webhook_id zero (r ∷ rows) = r ∷ rows
drop_oldest webhook_id (suc n) (r ∷ rows) =
    let dropped = drop_oldest webhook_id n rows in
    let kept = drop_oldest webhook_id (suc n) rows in
    if is_of webhook_id r then dropped else r ∷ kept

-- `while overflow > 0`; `rowcount` is how many rows a pass deleted.
unfoldable pub trim : ℕ → ℕ → List Delivery → List Delivery
trim zero overflow rows = rows
trim (suc fuel) overflow rows = elim (noisiest rows) [
  | none ↦ rows
  | some (webhook_id, n) ↦
      let left = drop_oldest webhook_id (min overflow n) rows in
      let rowcount = length rows - length left in
      let again = trim fuel (overflow - rowcount) left in
      if overflow == 0 then rows else if rowcount == 0 then left else again
]

unfoldable pub trim_queue : List Delivery → List Delivery
trim_queue rows = let overflow = length rows - queue_cap in trim (suc overflow) overflow rows

abbrev pub targets_of : String → List Webhook → List Webhook
targets_of event webhooks = keep (is_target event) webhooks

-- The tables and how many deliveries were queued; `none` for the ValueError on an unknown event.
unfoldable pub emit_event : ℕ → String → Context → HookDb → Option (HookDb × ℕ)
emit_event now event ctx db =
    if not (is_known event)
    then none
    else (let targets = targets_of event db.webhooks in
        let rows = enqueue now event ctx targets (cancel_held now event ctx db.queue) in
        some
          (record db { queue = elim targets [ [] ↦ rows | _ ↦ trim_queue rows ] }, length targets))
