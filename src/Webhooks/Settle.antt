-- ===== src/Webhooks/Settle.antt =====
-- What one drain of linkmoth_webhooks.py makes of the queue, in one pass over its rows.
use linkmoth.Prelude.{
  ℕ, suc, zero, ◌<◌, ◌≡◌, refl, ◌∙◌, ap, not, ◌&&◌, Option, none, some, All-keep, List, [], ◌∷◌,
  keep, take, Bool-cases, Option-cases, inl, inr, if◌then◌else◌, arith,
}
use linkmoth.Webhooks.Data.{drain_batch, Webhook, Delivery, HookDb}
use linkmoth.Webhooks.Drain.{
  Answer, Send, is_delivered, find_webhook, is_ready, is_expired, gives_up, retried, delete_row,
  update_row, Drained, try_delivery, drain_row, drain_rows, batch_of, drain_queue_once,
}
use linkmoth.Webhooks.Rows.{Above, AllAbove, Above-all, delete-above, update-above}

-- The answer after which a due delivery is kept for another attempt; `none` where it leaves the queue:
-- no enabled webhook, too old, delivered, or given up.
unfoldable pub retry_after : Send → ℕ → List Webhook → Delivery → Option Answer
retry_after send now webhooks row = elim (find_webhook row.webhook_id webhooks) [
  | none ↦ none
  | some w ↦
      if w.enabled
        && (not (is_expired now row)
            && (not (is_delivered (send w row now))
                && not (gives_up (send w row now) (suc row.attempts))))
      then some (send w row now)
      else none
]

abbrev pub kept_for : ℕ → Delivery → Option Answer → List Delivery → List Delivery
kept_for now row none rest = rest
kept_for now row (some answer) rest = retried now answer row row ∷ rest

-- The first `budget` due deliveries are settled; all others stay as they are.
unfoldable pub settle : Send → ℕ → List Webhook → ℕ → List Delivery → List Delivery
settle send now webhooks budget [] = []
settle send now webhooks zero (row ∷ rows) = row ∷ rows
settle send now webhooks (suc budget) (row ∷ rows) =
    let later = settle send now webhooks budget rows in
    let others = settle send now webhooks (suc budget) rows in
    if is_ready now row
    then kept_for now row (retry_after send now webhooks row) later
    else row ∷ others

-- What a row of the batch does to the queue.
abbrev effect : ℕ → Delivery → Option Answer → List Delivery → List Delivery
effect now row none rows = delete_row row.id rows
effect now row (some answer) rows = update_row row.id (retried now answer row) rows

queue-drain_row :
    (send : Send) (now : ℕ) (webhooks : List Webhook) (row : Delivery) (d : Drained)
    → (drain_row send now webhooks row d).db.queue
      ≡ effect now row (retry_after send now webhooks row) d.db.queue
unfolding drain_row try_delivery retry_after
queue-drain_row send now webhooks row d =
    elim (Option-cases (find_webhook row.webhook_id webhooks)) [
      | inl missing ↦ ground (arith, missing)
      | inr (w, found) ↦ ground (arith, found)
    ]

effects : Send → ℕ → List Webhook → List Delivery → List Delivery → List Delivery
effects send now webhooks [] rows = rows
effects send now webhooks (row ∷ batch) rows =
    effects send now webhooks batch (effect now row (retry_after send now webhooks row) rows)

queue-drain_rows :
    (send : Send) (now : ℕ) (webhooks : List Webhook) (batch : List Delivery) (d : Drained)
    → (drain_rows send now webhooks batch d).db.queue ≡ effects send now webhooks batch d.db.queue
unfolding drain_rows effects
queue-drain_rows send now webhooks [] d = refl
queue-drain_rows send now webhooks (row ∷ batch) d =
    queue-drain_rows send now webhooks batch (drain_row send now webhooks row d)
    ∙ ap (λ q. effects send now webhooks batch q) (queue-drain_row send now webhooks row d)

-- A row that is not in the batch stays in front.
effect-cons :
    (now : ℕ) (row x : Delivery) (o : Option Answer) (rows : List Delivery)
    → x.id < row.id
    → effect now row o (x ∷ rows) ≡ x ∷ effect now row o rows
effect-cons now row x none rows h = ground (arith, h)
effect-cons now row x (some answer) rows h = ground (arith, h)

effects-cons :
    (send : Send) (now : ℕ) (webhooks : List Webhook) (x : Delivery) (batch rows : List Delivery)
    → AllAbove x.id batch
    → effects send now webhooks batch (x ∷ rows) ≡ x ∷ effects send now webhooks batch rows
unfolding effects
effects-cons send now webhooks x [] rows h = refl
effects-cons send now webhooks x (row ∷ batch) rows h =
    ap (λ q. effects send now webhooks batch q)
      (effect-cons now row x (retry_after send now webhooks row) rows h.0)
    ∙ effects-cons send now webhooks x batch
        (effect now row (retry_after send now webhooks row) rows) h.1

-- The first row, itself in the batch.
effects_first :
    (send : Send) (now : ℕ) (webhooks : List Webhook) (row : Delivery) (batch rows : List Delivery)
    (o : Option Answer)
    → AllAbove row.id batch
    → AllAbove row.id rows
    → effects send now webhooks batch (effect now row o (row ∷ rows))
      ≡ kept_for now row o (effects send now webhooks batch rows)
effects_first send now webhooks row batch rows none h k =
    ap (λ q. effects send now webhooks batch q) (ground (arith, delete-above row.id rows k))
effects_first send now webhooks row batch rows (some answer) h k =
    ap (λ q. effects send now webhooks batch q)
      (ground (arith, update-above row.id (retried now answer row) rows k))
    ∙ effects-cons send now webhooks (retried now answer row row) batch rows h

Above-take : (b n : ℕ) (rows : List Delivery) → AllAbove b rows → AllAbove b (take n rows)
Above-take b zero rows h = tt
Above-take b (suc n) [] h = tt
Above-take b (suc n) (r ∷ rows) h = (h.0, Above-take b n rows h.1)

settle-effects :
    (send : Send) (now : ℕ) (webhooks : List Webhook) (b budget : ℕ) (rows : List Delivery)
    → Above b rows
    → effects send now webhooks (take budget (keep (is_ready now) rows)) rows
      ≡ settle send now webhooks budget rows
unfolding settle effects
settle-effects send now webhooks b zero [] h = refl
settle-effects send now webhooks b (suc budget) [] h = refl
settle-effects send now webhooks b zero (row ∷ rows) h = refl
settle-effects send now webhooks b (suc budget) (row ∷ rows) h =
    let above = Above-all row.id rows h.1 in
    elim (Bool-cases (is_ready now row)) [
      | inl due ↦ rw due (
          effects_first send now webhooks row (take budget (keep (is_ready now) rows)) rows
            (retry_after send now webhooks row)
            (Above-take row.id budget (keep (is_ready now) rows)
              (All-keep (λ (r : Delivery). row.id < r.id) (is_ready now) rows above))
            above
          ∙ ap (kept_for now row (retry_after send now webhooks row))
              (settle-effects send now webhooks row.id budget rows h.1))
      | inr early ↦ rw early (
          effects-cons send now webhooks row (take (suc budget) (keep (is_ready now) rows)) rows (
            Above-take row.id (suc budget) (keep (is_ready now) rows)
              (All-keep (λ (r : Delivery). row.id < r.id) (is_ready now) rows above))
          ∙ ap (λ q. row ∷ q) (settle-effects send now webhooks row.id (suc budget) rows h.1))
    ]

-- One drain of a queue whose ids ascend is one pass: the first 20 due deliveries each leave the queue,
-- or stay in place with one more attempt and a later time; no other delivery changes or moves.
pub queue-drain_queue_once :
    (send : Send) (now b : ℕ) (db : HookDb)
    → Above b db.queue
    → (drain_queue_once send now db).db.queue ≡ settle send now db.webhooks drain_batch db.queue
unfolding drain_queue_once
queue-drain_queue_once send now b db h =
    queue-drain_rows send now db.webhooks (batch_of now db.queue)
      (record { db = db; sent = 0; failed = 0 })
    ∙ settle-effects send now db.webhooks b drain_batch db.queue h
