-- ===== src/Inbound/Handle.antt =====
-- `handle_inbound_alert` of linkmoth_kuma_proxy.py: it joins the outage test, the deferred alerts, the
-- notices and the incidents.
use linkmoth.Prelude.{
  ℕ, String, Bool, true, false, not, ◌&&◌, ◌||◌, Option, none, some, List, [], ◌==◌, if◌then◌else◌,
}
use linkmoth.Diagnosis.Check.{Check}
use linkmoth.Diagnosis.Verdict.{Verdict, ◌<>◌}
use linkmoth.Diagnosis.Global.{judge, is_effective_global_outage}
use linkmoth.Outage.Store.{Payload, Db, record_suppressed, clear_suppressed_alerts}
use linkmoth.Outage.Digest.{pending_suppression_digest}
use linkmoth.Incidents.Store.{open_incident}
use linkmoth.Incidents.Engine.{Race, Engine, trigger}
use linkmoth.Notify.Deferred.{Channels, defer_if_quiet}
use linkmoth.Notify.Recovery.{Notifier, Call, notify_recovery}

-- The stores that a request touches.
pub record Inbound : Type 0 where
  pub db : Db
  pub notifier : Notifier
  pub engine : Engine

-- What the request comes with: the alert, and whether it may be forwarded.
pub record Alert : Type 0 where
  pub status : Option ℕ
  pub detail : String
  pub payload : Payload
  pub forward_discord : Bool
  pub source_prefix : String

-- What the rest of the program answers: the verdict and the checks of `evaluate_network_for_proxy`, whether
-- `has_active_global_outage`, the settings, clocks and texts of a notice, whether Discord takes a forwarded
-- alert and a recovery notice, and what other threads do to the incidents.
pub record Answers : Type 0 where
  pub verdict : Option Verdict
  pub checks : List Check
  pub active_outage : Bool
  pub call : Call
  pub takes_forward : Bool
  pub takes_recovery : Bool
  pub race : Race
  pub race' : Race
  pub race'' : Race

pub data Action : Type 0 where
  suppressed deferred_recovery forwarded_recovery noted_recovery deferred forwarded triggered :
      Action

abbrev pub is_outage : Answers → Bool
is_outage w = elim w.verdict [
  | none ↦ is_effective_global_outage none w.checks || w.active_outage
  | some v ↦ is_effective_global_outage (some (judge v)) w.checks || w.active_outage
]

abbrev pub says_up : Option ℕ → Bool
says_up none = false
says_up (some status) = status == 1

abbrev pub discord_only : Channels
discord_only = record { discord = true; push = false }

-- The forwarding: the notifier, whether quiet hours deferred the alert, and whether it was forwarded.
unfoldable pub forward : Answers → Alert → Notifier → Notifier × (Bool × Bool)
forward w alert n =
    let summary = if says_up alert.status then "Service recovered" else "Service reported down" in
    let (events, later) =
      defer_if_quiet w.call.cfg w.call.active w.call.current w.call.now
        ("Uptime Kuma: " <> alert.detail) summary discord_only n.quiet_events in
    if not alert.forward_discord
    then (n, (false, false))
    else (record n { quiet_events = events }, (later, not later && w.takes_forward))

-- The alerts held back are announced and cleared, when they make a summary.
unfoldable pub release : Answers → Inbound → Inbound
release w s =
    let (digest, ids) = pending_suppression_digest s.db w.call.now in
    elim digest [
      | [] ↦ s
      | _ ↦ record s {
        notifier = (notify_recovery w.call none true w.takes_recovery s.notifier).0;
        db = clear_suppressed_alerts (some ids) s.db;
      }
    ]

abbrev pub down_source : Alert → String
down_source alert = elim alert.status [
  | none ↦ alert.source_prefix <> "-proxy"
  | some status ↦
      if status == 0 then alert.source_prefix <> "-down" else alert.source_prefix <> "-proxy"
]

unfoldable pub trigger_alert : Answers → String → String → Inbound → Inbound
trigger_alert w source detail s = record s {
  engine = (trigger w.race w.race' w.race'' w.call.now source detail s.engine).0;
}

-- A recovery reaches the open incident, if there is one.
unfoldable pub handle_up : Answers → Alert → Inbound → Inbound
handle_up w alert s =
    let t = release w s in
    elim (open_incident t.engine.db.incidents) [
      | none ↦ t
      | some incident ↦ trigger_alert w (alert.source_prefix <> "-up") alert.detail t
    ]

unfoldable pub handle_inbound_alert : Answers → Alert → Inbound → Inbound × Action
handle_inbound_alert w alert s =
    if is_outage w
    then (
      record s {
        db =
            record_suppressed w.call.now alert.status alert.detail w.verdict alert.payload
              "global network outage – alert silenced" s.db;
      },
      suppressed,
    )
    else (let (notifier, (later, sent)) = forward w alert s.notifier in
        let t : Inbound = record s { notifier = notifier } in
        if says_up alert.status
        then (
          handle_up w alert t,
          if later then deferred_recovery else if sent then forwarded_recovery else noted_recovery,
        )
        else (
          trigger_alert w (down_source alert) alert.detail t,
          if later then deferred else if sent then forwarded else triggered,
        ))
