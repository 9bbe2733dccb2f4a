-- ===== src/Webhooks/Tests.antt =====
-- A queue of the model, and the theorems at concrete inputs.
use linkmoth.Prelude.{
  false, Bool, ◌↔◌, ◌<◌, ◌≢◌, ℕ, ◌+◌, ◌≡◌, refl, String, true, not, ◌&&◌, ◌||◌, str_eq,
  if◌then◌else◌, none, some, List, [], ◌∷◌, keep, drop, ◌-◌, length, min, eq_iff, arith,
}
use linkmoth.Text.{strip, lower}
use linkmoth.Webhooks.Data.{queue_cap, drain_batch, Context, Webhook, Delivery, HookDb}
use linkmoth.Webhooks.Emit.{backlog, cancel_held, trim_queue}
use linkmoth.Webhooks.Drain.{Send, drain_queue_once}
use linkmoth.Webhooks.Settle.{settle, queue-drain_queue_once}
use linkmoth.Webhooks.Shed.{of, IsNewest, trim_queue_lem, trim_queue-deepest}
use linkmoth.Webhooks.Event.{IsCancelled, cancel_held-keep}
use linkmoth.Webhooks.Reach.{IsHooks, start, then_step, drains, Run-IsHooks}
use linkmoth.Webhooks.Target.{
  Net, Target, is_local, clean_url, resolve_pinned_target, resolve_host, parse_addresses, pin,
  preferred,
}
use linkmoth.Webhooks.Pinned.{resolve_pinned_target-clean_url}
use linkmoth.Webhooks.Headers.{
  Headers, mask_headers, is_usable, is_value, find_stored, clean_loop, clean_headers,
}
use linkmoth.Webhooks.Accepted.{clean_headers-mask_headers}

abbrev hook : String → ℕ → Webhook
hook id minutes = record {
  id = id;
  enabled = true;
  target = "";
  events = "fault_opened" ∷ "fault_recovered" ∷ [];
  escalation_minutes = minutes;
  last_send_ts = none;
  last_status = none;
  last_error = none;
}

abbrev context : Context
context = record { incident_id = "INC-1"; text = "down" }

-- A fault that one webhook sends at once and the other holds back for an hour.
abbrev row : ℕ → String → ℕ → Delivery
row id webhook_id delay = record {
  id = id;
  webhook_id = webhook_id;
  event = "fault_opened";
  context = context;
  created = 100;
  attempts = 0;
  next_attempt = 100 + delay;
  last_error = none;
  escalation_seconds = delay;
}

abbrev queue : List Delivery
queue = row 1 "a" 0 ∷ row 2 "b" 3600 ∷ []

abbrev db : HookDb
db = record { webhooks = hook "a" 0 ∷ hook "b" 60 ∷ []; queue = queue }

abbrev refused : Send
refused w d now = record { status = some 500; error = some "HTTP 500" }

queue-drain_queue_once_example :
    (drain_queue_once refused 200 db).db.queue ≡ settle refused 200 db.webhooks drain_batch db.queue
queue-drain_queue_once_example =
    queue-drain_queue_once refused 200 0 db (omega arith, (omega arith, tt))

trim_queue_example :
    (length (trim_queue queue) ≡ min queue_cap (length queue))
    × IsNewest (of "a" queue) (of "a" (trim_queue queue))
trim_queue_example = trim_queue_lem "a" queue

abbrev crowded : List Delivery
crowded = row 1 "a" 0 ∷ row 2 "b" 3600 ∷ row 3 "a" 0 ∷ []

most_of_a : (x : String) → x ≢ "a" → backlog x crowded < backlog "a" crowded
most_of_a x h = ground (arith, h, eq_iff "a" x, eq_iff "b" x)

trim_queue-deepest_example :
    (of "b" (trim_queue crowded) ≡ of "b" crowded)
    × (of "a" (trim_queue crowded) ≡ drop (length crowded - queue_cap) (of "a" crowded))
trim_queue-deepest_example =
    trim_queue-deepest "b" "a" crowded most_of_a (omega arith) (ground (arith, eq_iff "b" "a"))

cancel_held-keep_example :
    (cancelled : Delivery → Bool) × (cancel_held 200 "fault_recovered" context queue
      ≡ keep (λ r. not (cancelled r)) queue)
    × ((r : Delivery) → (cancelled r ≡ true) ↔ IsCancelled 200 "fault_recovered" context r)
cancel_held-keep_example =
    cancel_held-keep 200 0 "fault_recovered" context queue (omega arith, (omega arith, tt))

db-IsHooks : IsHooks db
db-IsHooks = (((omega arith, (omega arith, tt)), (refl, (refl, tt))), (omega arith, omega arith))

Run-IsHooks_example : IsHooks (drain_queue_once refused 200 db).db
Run-IsHooks_example = Run-IsHooks db-IsHooks (then_step start (drains refused 200))

-- A local URL, and one that is resolved to a global address.
abbrev net : Net
net = record {
  parse_url = λ s. some (record {
    scheme = "https";
    hostname = "hook.example";
    port = none;
    username = "";
    password = "";
    path = "/alert";
    query = "";
    fragment = "";
  });
  parse_address = λ s.
      if str_eq s "hook.example"
      then none
      else some (record { is_v4 = true; bits = 8; is_global = true; text = s });
  resolve = λ host port. some ("8.8.8.8" ∷ []);
  precedes = λ a b. false;
}

abbrev target : Target
target = record {
  scheme = "https";
  host = "hook.example";
  port = 443;
  path = "/alert";
  query = "";
  address = record { is_v4 = true; bits = 8; is_global = true; text = "8.8.8.8" };
}

accepted_url : clean_url net "https://hook.example/alert" ≡ some "https://hook.example/alert"
unfolding clean_url strip
accepted_url = refl

pinned_target : resolve_pinned_target net "https://hook.example/alert" ≡ some target
unfolding resolve_pinned_target resolve_host parse_addresses pin preferred
pinned_target = refl

resolve_pinned_target_example :
    is_local target.address || (target.address.is_global && str_eq target.scheme "https") ≡ true
resolve_pinned_target_example =
    resolve_pinned_target-clean_url net "https://hook.example/alert" "https://hook.example/alert"
      target accepted_url pinned_target

-- A header as it is sent, and as it is stored.
abbrev headers : Headers
headers = ("X-Token", "secret value") ∷ []

accepted_headers : clean_headers ((" X-Token", "secret value ") ∷ []) [] ≡ some headers
unfolding clean_headers clean_loop is_usable is_value find_stored lower strip
accepted_headers = refl

clean_headers-mask_headers_example : clean_headers (mask_headers headers) headers ≡ some headers
clean_headers-mask_headers_example =
    clean_headers-mask_headers ((" X-Token", "secret value ") ∷ []) [] headers tt accepted_headers
