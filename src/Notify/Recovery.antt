-- ===== src/Notify/Recovery.antt =====
-- The recovery notice of linkmoth_notify.py and its suppression of duplicates. The channels are parameters.
use linkmoth.Prelude.{
  ℕ, ◌-◌, String, Bool, true, false, not, ◌||◌, Option, none, some, List, [], ◌∷◌, keep, ltb, leb,
  ◌==◌, if◌then◌else◌,
}
use linkmoth.Notify.Quiet.{QuietConfig}
use linkmoth.Notify.Deferred.{QuietEvent, Channels, defer_if_quiet}

abbrev pub recovery_dedupe_seconds : ℕ
recovery_dedupe_seconds = 45

-- `_recovery_dedupe_key`: the incident's own key, or the one for all else.
pub data Key : Type 0 where
  incident_key : ℕ → Key
  global_key : Key

abbrev pub key_eq : Key → Key → Bool
key_eq (incident_key i) (incident_key j) = i == j
key_eq (incident_key i) global_key = false
key_eq global_key (incident_key j) = false
key_eq global_key global_key = true

abbrev pub dedupe_key : Option ℕ → Key
dedupe_key none = global_key
dedupe_key (some id) = incident_key id

-- `_recovery_sent_mono`: when the notice of a key was sent.
abbrev pub Sent : Type 0
Sent = List (Key × ℕ)

unfoldable pub sent_at : Key → Sent → Option ℕ
sent_at key [] = none
sent_at key ((k, ts) ∷ sent) =
    let later = sent_at key sent in if key_eq k key then some ts else later

-- `_recovery_recently_sent`.
unfoldable pub recently_sent : ℕ → Key → Sent → Bool
recently_sent now key sent = elim (sent_at key sent) [
  | none ↦ false
  | some ts ↦ ltb (now - ts) recovery_dedupe_seconds
]

unfoldable pub put_sent : Key → ℕ → Sent → Sent
put_sent key now [] = (key, now) ∷ []
put_sent key now ((k, ts) ∷ sent) =
    let later = put_sent key now sent in if key_eq k key then (k, now) ∷ sent else (k, ts) ∷ later

-- `_mark_recovery_sent`.
unfoldable pub mark_recovery_sent : ℕ → Key → Sent → Sent
mark_recovery_sent now key sent =
    keep (λ (k, ts). not (leb recovery_dedupe_seconds (now - ts))) (put_sent key now sent)

pub record Notifier : Type 0 where
  pub sent : Sent
  pub quiet_events : List QuietEvent

-- A call: the monotonic and the local clock, the settings, and the notice's text.
pub record Call : Type 0 where
  pub mono : ℕ
  pub now : ℕ
  pub current : ℕ
  pub cfg : QuietConfig
  pub active : Channels
  pub title : String
  pub body : String

abbrev pub both_channels : Channels
both_channels = record { discord = true; push = true }

-- `notify_recovery`: the state and what it returns. `discord` is whether the Discord alert was handed
-- over; the push, which runs in a thread of its own, never counts as sent.
unfoldable pub notify_recovery : Call → Option ℕ → Bool → Bool → Notifier → Notifier × Bool
notify_recovery call incident has_digest discord n =
    let key = dedupe_key incident in
    if recently_sent call.mono key n.sent
    then (n, false)
    else (let (events, deferred) =
          defer_if_quiet call.cfg call.active call.current call.now call.title call.body
            both_channels n.quiet_events in
        let marked : Notifier = record {
          sent = mark_recovery_sent call.mono key n.sent;
          quiet_events = events;
        } in
        if deferred
        then (marked, true)
        else if discord || has_digest
        then (marked, true)
        else (record n { quiet_events = events }, false))
