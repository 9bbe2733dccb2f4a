-- ===== src/Webhooks/Reach.antt =====
-- The tables of linkmoth_webhooks.py over any sequence of events, drains and changes of the settings.
use linkmoth.Prelude.{
  ℕ, ◌≤◌, ◌≡◌, refl, sym, subst, ◌∙◌, ap, String, not, none, some, List, [], ◌∷◌, keep, length,
  length-keep-le, length-append, length-update, str_eq, Option-cases, inl, inr, arith,
}
use linkmoth.Webhooks.Data.{
  max_webhooks, queue_cap, drain_batch, Context, Webhook, Delivery, HookDb,
}
use linkmoth.Webhooks.Emit.{cancel_held, targets_of, emit_event}
use linkmoth.Webhooks.Drain.{
  Send, find_webhook, record_send_result, Drained, try_delivery, drain_row, drain_rows, batch_of,
  drain_queue_once,
}
use linkmoth.Webhooks.Manage.{CleanWebhook, new_webhook, create_webhook, delete_webhook}
use linkmoth.Webhooks.Settle.{queue-drain_queue_once}
use linkmoth.Webhooks.Event.{emit_event_lem, length-emit_event}
use linkmoth.Webhooks.Queue.{
  IsQueue, IsQueue-keep, IsQueue-cancel, IsQueue-enqueue, IsQueue-trim_queue, Above-settle,
  AllOpen-settle, length-settle,
}

-- The queue is ordered by its ids, within its cap, without a delivery that was tried too often, and the
-- number of webhooks is within its limit.
abbrev pub IsHooks : HookDb → Type 0
IsHooks db =
    IsQueue db.queue × ((length db.queue ≤ queue_cap) × (length db.webhooks ≤ max_webhooks))

-- One call of the module.
pub data Step (a : HookDb) : HookDb → Type 0 where
  emits :
      {b : HookDb} (now n : ℕ) (event : String) (ctx : Context)
      → emit_event now event ctx a ≡ some (b, n)
      → Step a b
  drains : (send : Send) (now : ℕ) → Step a (drain_queue_once send now a).db
  creates :
      {b : HookDb} (id : String) (clean : CleanWebhook)
      → create_webhook id clean a ≡ some b
      → Step a b
  deletes : {b : HookDb} (id : String) → delete_webhook id a ≡ some b → Step a b

pub data Run (a : HookDb) : HookDb → Type 0 where
  start : Run a a
  then_step : {b c : HookDb} → Run a b → Step b c → Run a c

IsHooks-emit :
    (a b : HookDb) (now n : ℕ) (event : String) (ctx : Context)
    → emit_event now event ctx a ≡ some (b, n)
    → IsHooks a
    → IsHooks b
IsHooks-emit a b now n event ctx e (q, (cap, limit)) =
    let (same, (counted, cases)) = emit_event_lem now n event ctx a b e in
    let rest = IsQueue-cancel now event ctx a.queue q in
    let k : IsQueue b.queue = elim cases [
      | inl (empty, is) ↦ subst IsQueue (sym is) rest
      | inr is ↦ subst IsQueue (sym is) (
          IsQueue-trim_queue _ (
            IsQueue-enqueue now event ctx (targets_of event a.webhooks)
              (cancel_held now event ctx a.queue) rest))
    ] in
    (k, (omega (arith, length-emit_event now n event ctx a b cap e), rw same limit))

length-drain_row :
    (send : Send) (now : ℕ) (snapshot : List Webhook) (row : Delivery) (d : Drained)
    → length (drain_row send now snapshot row d).db.webhooks ≡ length d.db.webhooks
unfolding drain_row try_delivery record_send_result
length-drain_row send now snapshot row d =
    elim (Option-cases (find_webhook row.webhook_id snapshot)) [
      | inl missing ↦ ground (arith, missing)
      | inr (w, found) ↦ ground (
        arith,
        found,
        length-update (λ x. str_eq x.id w.id)
            (λ x. record x {
              last_send_ts = some now;
              last_status = none;
              last_error = some "delivery expired after 24h of retries";
            })
            d.db.webhooks,
        length-update (λ x. str_eq x.id w.id)
            (λ x. record x {
              last_send_ts = some now;
              last_status = (send w row now).status;
              last_error = (send w row now).error;
            })
            d.db.webhooks,
      )
    ]

length-drain_rows :
    (send : Send) (now : ℕ) (snapshot : List Webhook) (batch : List Delivery) (d : Drained)
    → length (drain_rows send now snapshot batch d).db.webhooks ≡ length d.db.webhooks
unfolding drain_rows
length-drain_rows send now snapshot [] d = refl
length-drain_rows send now snapshot (row ∷ batch) d =
    length-drain_rows send now snapshot batch (drain_row send now snapshot row d)
    ∙ length-drain_row send now snapshot row d

IsHooks-drain :
    (send : Send) (now : ℕ) (a : HookDb) → IsHooks a → IsHooks (drain_queue_once send now a).db
unfolding drain_queue_once
IsHooks-drain send now a (q, (cap, limit)) =
    let is = queue-drain_queue_once send now 0 a q.0 in
    (
      subst IsQueue (sym is) (
        Above-settle send now a.webhooks 0 drain_batch a.queue q.0,
        AllOpen-settle send now a.webhooks drain_batch a.queue q.1,
      ),
      (
        omega (arith, ap length is, cap, length-settle send now a.webhooks drain_batch a.queue),
        omega (
          arith,
          limit,
          length-drain_rows send now a.webhooks (batch_of now a.queue)
              (record { db = a; sent = 0; failed = 0 }),
        ),
      ),
    )

IsHooks-create :
    (a b : HookDb) (id : String) (clean : CleanWebhook)
    → create_webhook id clean a ≡ some b
    → IsHooks a
    → IsHooks b
unfolding create_webhook
IsHooks-create a b id clean e (q, (cap, limit)) =
    let one_more = length-append a.webhooks (new_webhook id clean ∷ []) in
    let same : b.queue ≡ a.queue = ground (arith, e) in
    (
      subst IsQueue (sym same) q,
      (omega (arith, ap length same, cap), ground (arith, e, limit, one_more)),
    )

IsHooks-delete : (a b : HookDb) (id : String) → delete_webhook id a ≡ some b → IsHooks a → IsHooks b
unfolding delete_webhook
IsHooks-delete a b id e (q, (cap, limit)) =
    let is : b.queue ≡ keep (λ r. not (str_eq r.webhook_id id)) a.queue = ground (arith, e) in
    (
      subst IsQueue (sym is) (IsQueue-keep (λ r. not (str_eq r.webhook_id id)) a.queue q),
      (
        omega
            (arith, ap length is, cap, length-keep-le (λ r. not (str_eq r.webhook_id id)) a.queue),
        ground (arith, e, limit, length-keep-le (λ w. not (str_eq w.id id)) a.webhooks),
      ),
    )

IsHooks-Step : {a b : HookDb} → Step a b → IsHooks a → IsHooks b
IsHooks-Step {a} {b} (emits now n event ctx e) h = IsHooks-emit a b now n event ctx e h
IsHooks-Step {a} (drains send now) h = IsHooks-drain send now a h
IsHooks-Step {a} {b} (creates id clean e) h = IsHooks-create a b id clean e h
IsHooks-Step {a} {b} (deletes id e) h = IsHooks-delete a b id e h

-- Over any sequence of events, drains, and created and deleted webhooks: the ids of the queue ascend, no
-- delivery in it has ten attempts, it holds at most 500 deliveries, and there are at most 20 webhooks.
pub Run-IsHooks : {a b : HookDb} → IsHooks a → Run a b → IsHooks b
Run-IsHooks h start = h
Run-IsHooks h (then_step run step) = IsHooks-Step step (Run-IsHooks h run)
