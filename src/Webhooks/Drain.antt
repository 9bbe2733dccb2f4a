-- ===== src/Webhooks/Drain.antt =====
-- `drain_queue_once` and `drain_loop` of linkmoth_webhooks.py. The request is a parameter: what
-- `_send_now` answers for a webhook and a delivery at a time.
use linkmoth.Prelude.{
  ℕ, suc, ◌+◌, ◌-◌, String, Bool, false, not, ◌&&◌, ◌||◌, Option, none, some, List, [], ◌∷◌, keep,
  update, take, ltb, leb, ◌==◌, str_eq, if◌then◌else◌,
}
use linkmoth.Webhooks.Data.{
  max_delivery_attempts, gone_max_attempts, max_age_seconds, drain_batch, backoff_seconds, Webhook,
  Delivery, HookDb,
}

-- A status, and an error's text.
pub record Answer : Type 0 where
  pub status : Option ℕ
  pub error : Option String

abbrev pub Send : Type 0
Send = Webhook → Delivery → ℕ → Answer

abbrev pub is_delivered : Answer → Bool
is_delivered answer = elim answer.error [
  | some e ↦ false
  | none ↦ elim answer.status [ none ↦ false | some s ↦ ltb s 400 ]
]

abbrev pub is_gone : Option ℕ → Bool
is_gone status = elim status [ none ↦ false | some s ↦ s == 404 || s == 410 ]

unfoldable pub find_webhook : String → List Webhook → Option Webhook
find_webhook id [] = none
find_webhook id (w ∷ webhooks) =
    let later = find_webhook id webhooks in if str_eq w.id id then some w else later

-- `_record_send_result`.
unfoldable pub record_send_result : ℕ → String → Answer → List Webhook → List Webhook
record_send_result now id answer webhooks =
    update (λ w. str_eq w.id id)
      (λ w. record w {
        last_send_ts = some now;
        last_status = answer.status;
        last_error = answer.error;
      })
      webhooks

abbrev pub is_ready : ℕ → Delivery → Bool
is_ready now row = leb row.next_attempt now

abbrev pub is_expired : ℕ → Delivery → Bool
is_expired now row = ltb (max_age_seconds + row.escalation_seconds) (now - row.created)

-- Whether the delivery is dropped after one more failure.
abbrev pub gives_up : Answer → ℕ → Bool
gives_up answer attempts =
    leb max_delivery_attempts attempts || (is_gone answer.status && leb gone_max_attempts attempts)

-- What the failed attempt of `row` writes to the row that has its id.
abbrev pub retried : ℕ → Answer → Delivery → Delivery → Delivery
retried now answer row r = record r {
  attempts = suc row.attempts;
  next_attempt = now + backoff_seconds (suc row.attempts);
  last_error = answer.error;
}

abbrev pub delete_row : ℕ → List Delivery → List Delivery
delete_row id rows = keep (λ r. not (r.id == id)) rows

abbrev pub update_row : ℕ → (Delivery → Delivery) → List Delivery → List Delivery
update_row id f rows = update (λ r. r.id == id) f rows

-- What a drain works on, and the deliveries that it counted as sent and as failed.
pub record Drained : Type 0 where
  pub db : HookDb
  pub sent : ℕ
  pub failed : ℕ

abbrev pub expired_answer : Answer
expired_answer = record { status = none; error = some "delivery expired after 24h of retries" }

-- A delivery of the batch that is tried: the answer, its bookkeeping, and the webhook's last result.
unfoldable pub try_delivery : Send → ℕ → Webhook → Delivery → Drained → Drained
try_delivery send now w row d =
    let answer = send w row now in
    let webhooks = record_send_result now w.id answer d.db.webhooks in
    if is_delivered answer
    then record d {
      db = record { webhooks = webhooks; queue = delete_row row.id d.db.queue };
      sent = suc d.sent;
    }
    else record d {
      db = record {
        webhooks = webhooks;
        queue =
            if gives_up answer (suc row.attempts)
            then delete_row row.id d.db.queue
            else update_row row.id (retried now answer row) d.db.queue;
      };
      failed = suc d.failed;
    }

-- One row of the batch, with the webhooks as they were when the drain began.
unfoldable pub drain_row : Send → ℕ → List Webhook → Delivery → Drained → Drained
drain_row send now snapshot row d = elim (find_webhook row.webhook_id snapshot) [
  | none ↦ record d { db = record d.db { queue = delete_row row.id d.db.queue } }
  | some w ↦
      if not w.enabled
      then record d { db = record d.db { queue = delete_row row.id d.db.queue } }
      else if is_expired now row
      then record d {
        db = record {
          webhooks = record_send_result now w.id expired_answer d.db.webhooks;
          queue = delete_row row.id d.db.queue;
        };
        failed = suc d.failed;
      }
      else try_delivery send now w row d
]

unfoldable pub drain_rows : Send → ℕ → List Webhook → List Delivery → Drained → Drained
drain_rows send now snapshot [] d = d
drain_rows send now snapshot (row ∷ batch) d =
    drain_rows send now snapshot batch (drain_row send now snapshot row d)

abbrev pub batch_of : ℕ → List Delivery → List Delivery
batch_of now queue = take drain_batch (keep (is_ready now) queue)

-- `drain_queue_once`.
unfoldable pub drain_queue_once : Send → ℕ → HookDb → Drained
drain_queue_once send now db =
    drain_rows send now db.webhooks (batch_of now db.queue)
      (record { db = db; sent = 0; failed = 0 })

-- A pass of `drain_loop`: nothing is attempted during a global outage.
unfoldable pub drain_tick : Bool → Send → ℕ → HookDb → HookDb
drain_tick outage send now db = if outage then db else (drain_queue_once send now db).db
