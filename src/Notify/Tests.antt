-- ===== src/Notify/Tests.antt =====
-- Quiet hours and notices of the model, and the theorems at concrete inputs.
use linkmoth.Prelude.{
  not, ◌||◌, ℕ, ◌<◌, ◌≡◌, ◌↔◌, refl, true, false, ◌&&◌, ◌⊎◌, ltb, none, some, List, [], ◌∷◌, ◌++◌,
  drop, arith,
}
use linkmoth.Text.{codes, strip}
use linkmoth.Notify.Quiet.{QuietConfig, clock_minutes, minutes_of, is_clock, quiet_hours_active}
use linkmoth.Notify.Clock.{print_clock, clock_minutes_iff}
use linkmoth.Notify.Hours.{minutes_after, quiet_hours_active_iff}
use linkmoth.Notify.Deferred.{
  QuietEvent, Surroundings, Flushed, defer_if_quiet, digest_lines, handed_over, clear_sent,
  send_digest, flush_digest,
}
use linkmoth.Notify.Summary.{goes_wrong, discord_due, push_due, flush_digest_lem}
use linkmoth.Notify.Recovery.{Notifier, Call, notify_recovery, recently_sent, sent_at}
use linkmoth.Notify.Dedupe.{Attempt, send_notice, send_notices, send_notice-once}

abbrev nights : QuietConfig
nights = record { enabled = true; start = "22:00"; end = "07:00" }

ten_and_seven : (clock_minutes nights.start ≡ some 1320) × (clock_minutes nights.end ≡ some 420)
unfolding clock_minutes minutes_of is_clock strip
ten_and_seven = (refl, refl)

quiet_hours_active_iff_example :
    quiet_hours_active nights 60 ≡ (true && ltb (minutes_after 1320 60) (minutes_after 1320 420))
quiet_hours_active_iff_example =
    quiet_hours_active_iff nights 1320 420 60 ten_and_seven.0 ten_and_seven.1 (omega arith)

clock_minutes_iff_example :
    (clock_minutes " 22:05 " ≡ some 1325)
    ↔ ((codes (strip " 22:05 ") ≡ print_clock 1325) × (1325 < 1440))
clock_minutes_iff_example = clock_minutes_iff " 22:05 " 1325

abbrev event : ℕ → QuietEvent
event id = record {
  id = id;
  ts = 100;
  title = "Device down";
  detail = "NAS";
  send_discord = true;
  send_push = false;
}

-- The sending raises nothing, and one more alert is deferred meanwhile.
abbrev world : Surroundings
world = record {
  read_fails = false;
  discord_active = true;
  discord_raises = λ digest count. false;
  push_raises = λ digest count. false;
  meanwhile = λ rows. rows ++ event 9 ∷ [];
  cleanup_fails = false;
}

abbrev rows : List QuietEvent
rows = event 1 ∷ event 2 ∷ []

abbrev flushed : Flushed
flushed = flush_digest world nights true 600 false rows

flush_digest_example :
    (flushed.result ≡ (
      not (quiet_hours_active nights 600 || (false || false))
      && (ltb 0 2 && not (goes_wrong world true rows))))
    × (((flushed.result ≡ true)
          × (flushed.events ≡ event 9 ∷ [])
          × (flushed.handed
              ≡ handed_over (digest_lines rows) 2 (discord_due world rows) (push_due true rows)))
        ⊎ ((flushed.result ≡ false)
            × ((flushed.events ≡ rows) ⊎ (flushed.events ≡ drop 0 rows ++ event 9 ∷ []))))
flush_digest_example =
    flush_digest_lem world nights true 600 false 0 rows (event 9 ∷ []) refl (refl, tt)

-- Once Discord's alerts are switched off, the alerts that waited for them are deleted, and no channel takes
-- a summary.
taken_by_none :
    flush_digest (record world { discord_active = false }) nights true 600 false rows
    ≡ record { events = event 9 ∷ []; result = true; handed = none }
unfolding flush_digest send_digest clear_sent handed_over quiet_hours_active clock_minutes
    minutes_of is_clock strip
taken_by_none = refl

abbrev call_at : ℕ → Call
call_at t = record {
  mono = t;
  now = t;
  current = 600;
  cfg = record nights { enabled = false };
  active = record { discord = true; push = true };
  title = "Network recovered";
  body = "";
}

abbrev attempt : ℕ → Attempt
attempt t = record { call = call_at t; incident = none; has_digest = true; discord = true }

abbrev silent : Notifier
silent = record { sent = []; quiet_events = [] }

first_sent : (send_notice (attempt 100) silent).1 ≡ true
unfolding send_notice notify_recovery recently_sent sent_at defer_if_quiet quiet_hours_active
first_sent = refl

send_notice-once_example :
    send_notice (attempt 130) (send_notices [] (send_notice (attempt 100) silent).0)
    ≡ (send_notices [] (send_notice (attempt 100) silent).0, false)
send_notice-once_example =
    send_notice-once (attempt 100) (attempt 130) [] silent first_sent refl tt (omega arith)
