-- ===== src/Inbound/Silence.antt =====
-- What an inbound alert does to incidents, and when the alerts held back are cleared
-- (`handle_inbound_alert` of linkmoth_kuma_proxy.py).
use linkmoth.Prelude.{
  ◌≡◌, true, false, none, some, List, ◌∷◌, Option-cases, inl, inr, if◌then◌else◌, arith,
}
use linkmoth.Diagnosis.Verdict.{◌<>◌}
use linkmoth.Outage.Store.{clear_suppressed_alerts}
use linkmoth.Outage.Digest.{Line, pending_suppression_digest}
use linkmoth.Incidents.Store.{open_incident}
use linkmoth.Incidents.Engine.{trigger}
use linkmoth.Notify.Recovery.{global_key, recently_sent, notify_recovery}
use linkmoth.Inbound.Handle.{
  Inbound, Alert, Answers, is_outage, says_up, down_source, forward, release, trigger_alert,
  handle_up, handle_inbound_alert,
}

engine-release : (w : Answers) (s : Inbound) → (release w s).engine ≡ s.engine
unfolding release
engine-release w s = ground arith

-- An inbound alert leaves the incidents alone during an outage, and when it reports a recovery while none
-- is open. Otherwise it triggers, under the source that its status stands for: an outage's alerts open no
-- incident, and neither does a recovery.
pub engine-handle_inbound_alert :
    (w : Answers) (alert : Alert) (s : Inbound)
    → (handle_inbound_alert w alert s).0.engine ≡ (
        if is_outage w
        then s.engine
        else if says_up alert.status
        then elim (open_incident s.engine.db.incidents) [
          | none ↦ s.engine
          | some i ↦
              (trigger w.race w.race' w.race'' w.call.now
                (alert.source_prefix <> "-up")
                alert.detail
                s.engine).0
        ]
        else (trigger w.race w.race' w.race'' w.call.now
            (down_source alert)
            alert.detail
            s.engine).0)
unfolding handle_inbound_alert handle_up trigger_alert
engine-handle_inbound_alert w alert s =
    let t : Inbound = record s { notifier = (forward w alert s.notifier).0 } in
    elim (Option-cases (open_incident s.engine.db.incidents)) [
      | inl closed ↦ ground (arith, closed, engine-release w t)
      | inr (i, found) ↦ ground (arith, found, engine-release w t)
    ]

-- A recovery of an alert source that is not forwarded, outside an outage, within 45 seconds of a recovery
-- notice: the alerts held back are cleared although no notice is sent, and none is queued.
pub handle_inbound_alert-cleared :
    (w : Answers) (alert : Alert) (s : Inbound) (line : Line) (lines : List Line)
    → is_outage w ≡ false
    → says_up alert.status ≡ true
    → alert.forward_discord ≡ false
    → (pending_suppression_digest s.db w.call.now).0 ≡ line ∷ lines
    → recently_sent w.call.mono global_key s.notifier.sent ≡ true
    → ((handle_inbound_alert w alert s).0.notifier ≡ s.notifier)
      × ((handle_inbound_alert w alert s).0.db
          ≡ clear_suppressed_alerts (some (pending_suppression_digest s.db w.call.now).1) s.db)
unfolding handle_inbound_alert handle_up trigger_alert forward release notify_recovery
handle_inbound_alert-cleared w alert s line lines calm up own held recent =
    let t : Inbound = record s { notifier = (forward w alert s.notifier).0 } in
    elim (Option-cases (open_incident (release w t).engine.db.incidents)) [
      | inl closed ↦ ground (arith, calm, up, own, held, recent, closed)
      | inr (i, found) ↦ ground (arith, calm, up, own, held, recent, found)
    ]
