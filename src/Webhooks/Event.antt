-- ===== src/Webhooks/Event.antt =====
-- What one event makes of the queue of linkmoth_webhooks.py.
use linkmoth.Prelude.{
  any, ◌==◌, eq_iff, ◌≢◌, ◌<◌, ◌↔◌, Bool, ℕ, ◌+◌, ◌≤◌, ◌≡◌, refl, sym, ap, String, true, not, ◌&&◌,
  some, List, [], ◌∷◌, ◌++◌, keep, min, length, length-keep-le, length-append, Bool-cases, inl, inr,
  ◌⊎◌, arith,
}
use linkmoth.Text.{is_empty}
use linkmoth.Webhooks.Data.{
  queue_cap, is_clearing, is_escalatable, Context, Webhook, Delivery, HookDb,
}
use linkmoth.Webhooks.Emit.{
  is_held, ids_of_held, cancel_held, next_id, new_delivery, enqueue, trim_queue, targets_of,
  emit_event,
}
use linkmoth.Webhooks.Rows.{Above, without_ids-keep}
use linkmoth.Webhooks.Shed.{trim_queue_lem}

keep-all : (rows : List Delivery) → keep (λ r. true) rows ≡ rows
keep-all [] = refl
keep-all (r ∷ rows) = ap (λ l. r ∷ l) (keep-all rows)

-- A delivery that an event cancels: the event resolves its incident, and it is a fault event that was not
-- attempted and whose time has not come.
abbrev pub IsCancelled : ℕ → String → Context → Delivery → Type 0
IsCancelled now event ctx r =
    ((event ≡ "fault_recovered") ⊎ (event ≡ "fault_closed") ⊎ (event ≡ "false_alarm_marked"))
    × (ctx.incident_id ≢ "")
    × (r.attempts ≡ 0)
    × (now < r.next_attempt)
    × ((r.event ≡ "fault_opened") ⊎ (r.event ≡ "degradation_detected"))
    × (r.context.incident_id ≡ ctx.incident_id)

abbrev pub is_cancelled : ℕ → String → Context → Delivery → Bool
is_cancelled now event ctx r =
    (is_clearing event && not (is_empty ctx.incident_id)) && is_held now ctx.incident_id r

is_empty_iff : (s : String) → (is_empty s ≡ true) ↔ (s ≡ "")
is_empty_iff String.[] = ((λ e. refl), (λ e. refl))
is_empty_iff (String.◌∷◌ c s) = ((λ h. cc h), (λ e. ap is_empty e))

is_cancelled_iff :
    (now : ℕ) (event : String) (ctx : Context) (r : Delivery)
    → (is_cancelled now event ctx r ≡ true) ↔ IsCancelled now event ctx r
unfolding is_held is_clearing is_escalatable
is_cancelled_iff now event ctx r = ground (
  arith,
  eq_iff "fault_recovered" event,
  eq_iff "fault_closed" event,
  eq_iff "false_alarm_marked" event,
  eq_iff "fault_opened" r.event,
  eq_iff "degradation_detected" r.event,
  eq_iff r.context.incident_id ctx.incident_id,
  is_empty_iff ctx.incident_id,
)

keep-cancel_held :
    (now b : ℕ) (event : String) (ctx : Context) (rows : List Delivery)
    → Above b rows
    → cancel_held now event ctx rows ≡ keep (λ r. not (is_cancelled now event ctx r)) rows
unfolding cancel_held
keep-cancel_held now b event ctx rows h =
    elim (Bool-cases (is_clearing event && not (is_empty ctx.incident_id))) [
      | inl clears ↦ rw clears (without_ids-keep b (is_held now ctx.incident_id) rows h)
      | inr other ↦ rw other (sym (keep-all rows))
    ]

-- When ids ascend, an event keeps in order all deliveries but those that it cancels: an event that resolves
-- an incident cancels exactly the deliveries of that incident's fault events that were not attempted and
-- whose time has not come; any other event, and one without an incident, cancels none.
pub cancel_held-keep :
    (now b : ℕ) (event : String) (ctx : Context) (rows : List Delivery)
    → Above b rows
    → (cancelled : Delivery → Bool) × (cancel_held now event ctx rows
        ≡ keep (λ r. not (cancelled r)) rows)
      × ((r : Delivery) → (cancelled r ≡ true) ↔ IsCancelled now event ctx r)
cancel_held-keep now b event ctx rows h = (
  is_cancelled now event ctx,
  keep-cancel_held now b event ctx rows h,
  is_cancelled_iff now event ctx,
)

length-enqueue :
    (now : ℕ) (event : String) (ctx : Context) (targets : List Webhook) (rows : List Delivery)
    → length (enqueue now event ctx targets rows) ≡ length rows + length targets
unfolding enqueue
length-enqueue now event ctx [] rows = omega arith
length-enqueue now event ctx (w ∷ targets) rows =
    let row = new_delivery (next_id rows) now event ctx w in
    omega (
      arith,
      length-enqueue now event ctx targets (rows ++ row ∷ []),
      length-append rows (row ∷ []),
    )

pub length-cancel :
    (now : ℕ) (event : String) (ctx : Context) (rows : List Delivery)
    → length (cancel_held now event ctx rows) ≤ length rows
unfolding cancel_held
length-cancel now event ctx rows = ground (
  arith,
  length-keep-le (λ r. not (any (λ i. i == r.id) (ids_of_held now ctx.incident_id rows))) rows,
)

List-cases : (l : List Webhook) → (l ≡ []) ⊎ ((w : Webhook) × ((ws : List Webhook) × (l ≡ w ∷ ws)))
List-cases [] = inl refl
List-cases (w ∷ ws) = inr (w, (ws, refl))

-- The queue after an event: without a target what is not cancelled, else with the new rows, trimmed.
pub emit_event_lem :
    (now n : ℕ) (event : String) (ctx : Context) (db after : HookDb)
    → emit_event now event ctx db ≡ some (after, n)
    → (after.webhooks ≡ db.webhooks)
      × ((n ≡ length (targets_of event db.webhooks))
          × (((targets_of event db.webhooks ≡ [])
                × (after.queue ≡ cancel_held now event ctx db.queue))
              ⊎ (after.queue
                  ≡ trim_queue (
                      enqueue now event ctx
                        (targets_of event db.webhooks)
                        (cancel_held now event ctx db.queue)))))
unfolding emit_event enqueue
emit_event_lem now n event ctx db after e = elim (List-cases (targets_of event db.webhooks)) [
  | inl empty ↦ ground (arith, e, empty)
  | inr (w, (ws, more)) ↦ ground (arith, e, more)
]

-- From a queue within its cap, an event's deliveries are all queued, as far as the cap allows: the
-- length is that of what is not cancelled and of the new deliveries, or the cap where that is less.
pub length-emit_event :
    (now n : ℕ) (event : String) (ctx : Context) (db after : HookDb)
    → length db.queue ≤ queue_cap
    → emit_event now event ctx db ≡ some (after, n)
    → length after.queue ≡ min queue_cap (length (cancel_held now event ctx db.queue) + n)
length-emit_event now n event ctx db after h e =
    let rest = cancel_held now event ctx db.queue in
    let targets = targets_of event db.webhooks in
    let (same, (counted, cases)) = emit_event_lem now n event ctx db after e in
    let fits = length-cancel now event ctx db.queue in
    elim cases [
      | inl (empty, is) ↦ ground (arith, is, h, fits, counted, empty)
      | inr is ↦ ground (
        arith,
        is,
        counted,
        (trim_queue_lem "" (enqueue now event ctx targets rest)).0,
        length-enqueue now event ctx targets rest,
      )
    ]
