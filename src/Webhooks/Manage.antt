-- ===== src/Webhooks/Manage.antt =====
-- The webhooks' settings of linkmoth_webhooks.py: `create_webhook` and `delete_webhook`, after the check
-- of the submitted data.
use linkmoth.Prelude.{
  ℕ, String, Bool, not, Option, none, some, List, [], ◌∷◌, ◌++◌, keep, ◌||◌, any, length, leb,
  str_eq, if◌then◌else◌,
}
use linkmoth.Webhooks.Data.{is_one_of, max_webhooks, Webhook, Delivery, HookDb}

-- What the check of the submitted data returns; `target` stands for what only rendering reads.
pub record CleanWebhook : Type 0 where
  pub enabled : Bool
  pub target : String
  pub events : List String
  pub escalation_minutes : ℕ

abbrev pub new_webhook : String → CleanWebhook → Webhook
new_webhook id clean = record {
  id = id;
  enabled = clean.enabled;
  target = clean.target;
  events = clean.events;
  escalation_minutes = clean.escalation_minutes;
  last_send_ts = none;
  last_status = none;
  last_error = none;
}

-- `none` for WebhookLimitReached; the id is a fresh UUID.
unfoldable pub create_webhook : String → CleanWebhook → HookDb → Option HookDb
create_webhook id clean db =
    if leb max_webhooks (length db.webhooks)
    then none
    else some (record db { webhooks = db.webhooks ++ new_webhook id clean ∷ [] })

abbrev pub has_webhook : String → HookDb → Bool
has_webhook id db = any (λ (w : Webhook). str_eq w.id id) db.webhooks

-- `none` for WebhookNotFound.
unfoldable pub delete_webhook : String → HookDb → Option HookDb
delete_webhook id db =
    if has_webhook id db
    then some (record {
      queue = keep (λ (r : Delivery). not (str_eq r.webhook_id id)) db.queue;
      webhooks = keep (λ (w : Webhook). not (str_eq w.id id)) db.webhooks;
    })
    else none

-- `webhook_channel_active`.
unfoldable pub webhook_channel_active : HookDb → Bool
webhook_channel_active db =
    any (λ (w : Webhook). is_one_of w.events "device_down" || is_one_of w.events "device_recovered")
      (keep (λ (w : Webhook). w.enabled) db.webhooks)
