-- ===== src/Inbound/Tests.antt =====
-- An alert that comes in after an outage, and the theorem at concrete inputs.
use linkmoth.Prelude.{◌≡◌, refl, true, false, none, some, List, [], ◌∷◌}
use linkmoth.Diagnosis.Verdict.{ok, all_clear, wan_down}
use linkmoth.Diagnosis.Global.{is_effective_global_outage}
use linkmoth.Outage.Store.{Suppressed, clear_suppressed_alerts}
use linkmoth.Outage.Digest.{
  Line, pending_suppression_digest, build_outage_digest_lines, collect, note_service, sort_by_start,
  insert_by_start, fetch_suppressed_alerts, insert_by_ts, extract_service_name,
}
use linkmoth.Notify.Recovery.{global_key, recently_sent, sent_at}
use linkmoth.Inbound.Handle.{Inbound, Alert, Answers, is_outage, handle_inbound_alert}
use linkmoth.Inbound.Silence.{handle_inbound_alert-cleared}

abbrev held : Suppressed
held = record {
  id = 0;
  ts = 50;
  kuma_status = some 0;
  monitor_detail = "Router: down";
  verdict_code = some wan_down;
  verdict_title = some "Internet down";
  payload = record { source = "kuma"; monitor = "Router"; verdict = none };
  reason = "held";
}

abbrev stores : Inbound
stores = record {
  db = record { suppressed = held ∷ []; outage = none };
  notifier = record { sent = (global_key, 90) ∷ []; quiet_events = [] };
  engine = record {
    db = record { next_id = 1; incidents = []; runs = []; segments = [] };
    loop = none;
    events = [];
  };
}

abbrev answers : Answers
answers = record {
  verdict =
      some
        (record { severity = ok; code = all_clear; title = "All clear"; explain = ""; hint = "" });
  checks = [];
  active_outage = false;
  call = record {
    mono = 100;
    now = 100;
    current = 600;
    cfg = record { enabled = false; start = "22:00"; end = "07:00" };
    active = record { discord = true; push = true };
    title = "Network recovered";
    body = "";
  };
  takes_forward = true;
  takes_recovery = true;
  race = λ db. db;
  race' = λ db. db;
  race'' = λ db. db;
}

abbrev up : Alert
up = record {
  status = some 1;
  detail = "grafana: Router";
  payload = record { source = "grafana"; monitor = "Router"; verdict = none };
  forward_discord = false;
  source_prefix = "grafana";
}

calm : is_outage answers ≡ false
unfolding is_effective_global_outage
calm = refl

digest_of_held :
    (line : Line) × ((lines : List Line) × ((pending_suppression_digest stores.db 100).0
        ≡ line ∷ lines))
unfolding pending_suppression_digest build_outage_digest_lines collect note_service sort_by_start
    insert_by_start fetch_suppressed_alerts insert_by_ts extract_service_name
digest_of_held = (_, (_, refl))

just_sent : recently_sent 100 global_key stores.notifier.sent ≡ true
unfolding recently_sent sent_at
just_sent = refl

handle_inbound_alert-cleared_example :
    ((handle_inbound_alert answers up stores).0.notifier ≡ stores.notifier)
    × ((handle_inbound_alert answers up stores).0.db
        ≡ clear_suppressed_alerts (some (pending_suppression_digest stores.db 100).1) stores.db)
handle_inbound_alert-cleared_example =
    handle_inbound_alert-cleared answers up stores digest_of_held.0 digest_of_held.1.0 calm refl
      refl digest_of_held.1.1 just_sent
