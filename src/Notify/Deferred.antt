-- ===== src/Notify/Deferred.antt =====
-- The alerts that quiet hours defer, and their summary (linkmoth_notify.py). The channels are parameters.
use linkmoth.Prelude.{
  ℕ, suc, ◌-◌, String, Bool, true, false, not, ◌&&◌, ◌||◌, Option, none, some, List, [], ◌∷◌, ◌++◌,
  keep, any, map, take, length, newest, max, leb, ◌==◌, str_eq, if◌then◌else◌,
}
use linkmoth.Text.{is_empty, strip, truncate}
use linkmoth.Notify.Quiet.{QuietConfig, quiet_hours_active}

abbrev pub max_quiet_events : ℕ
max_quiet_events = 500

-- A row of `quiet_hour_events`.
pub record QuietEvent : Type 0 where
  pub id : ℕ
  pub ts : ℕ
  pub title : String
  pub detail : String
  pub send_discord : Bool
  pub send_push : Bool

-- Which channels the settings switch on.
pub record Channels : Type 0 where
  pub discord : Bool
  pub push : Bool

-- The row id that SQLite gives to the next row.
unfoldable pub next_event_id : List QuietEvent → ℕ
next_event_id [] = 1
next_event_id (r ∷ rows) = max (suc r.id) (next_event_id rows)

abbrev or_default : String → String → String
or_default default s = if is_empty s then default else s

unfoldable pub quiet_event : ℕ → ℕ → String → String → Channels → QuietEvent
quiet_event id now title detail wanted = record {
  id = id;
  ts = now;
  title = truncate 200 (strip (or_default "Linkmoth alert" title));
  detail = truncate 500 (strip detail);
  send_discord = wanted.discord;
  send_push = wanted.push;
}

abbrev pub wanted_of : Channels → Channels → Channels
wanted_of active asked = record {
  discord = asked.discord && active.discord;
  push = asked.push && active.push;
}

-- `defer_notification_if_quiet`: the table, and whether the alert is deferred.
unfoldable pub defer_if_quiet :
    QuietConfig
    → Channels
    → ℕ
    → ℕ
    → String
    → String
    → Channels
    → List QuietEvent
    → List QuietEvent × Bool
defer_if_quiet cfg active current now title detail asked rows =
    let wanted = wanted_of active asked in
    if not (quiet_hours_active cfg current)
    then (rows, false)
    else if not wanted.discord && not wanted.push
    then (rows, false)
    else (
      newest max_quiet_events
          (rows ++ quiet_event (next_event_id rows) now title detail wanted ∷ []),
      true,
    )

-- `Counter`, in order of insertion: how often each title and detail occurs.
abbrev pub Counts : Type 0
Counts = List ((String × String) × ℕ)

unfoldable pub note : String → String → Counts → Counts
note title detail [] = ((title, detail), 1) ∷ []
note title detail (((t, d), n) ∷ counts) =
    let later = note title detail counts in
    if str_eq t title && str_eq d detail then ((t, d), suc n) ∷ counts else ((t, d), n) ∷ later

abbrev title_of : QuietEvent → String
title_of r = or_default "Linkmoth alert" r.title

unfoldable pub tally : List QuietEvent → Counts → Counts
tally [] counts = counts
tally (r ∷ rows) counts = tally rows (note (title_of r) r.detail counts)

-- `most_common`: the most frequent first, ties in order of insertion.
unfoldable pub insert_by_count : (String × String) × ℕ → Counts → Counts
insert_by_count item [] = item ∷ []
insert_by_count (name, n) ((other, m) ∷ counts) =
    let later = insert_by_count (name, n) counts in
    if leb m n then (name, n) ∷ (other, m) ∷ counts else (other, m) ∷ later

unfoldable pub sort_by_count : Counts → Counts
sort_by_count [] = []
sort_by_count (item ∷ counts) = insert_by_count item (sort_by_count counts)

-- The alerts that are listed, with how often each came, and how many further kinds there are; the text of
-- a line is not modelled.
pub record Digest : Type 0 where
  pub lines : Counts
  pub more : ℕ

-- `_digest_lines`.
unfoldable pub digest_lines : List QuietEvent → Digest
digest_lines rows =
    let counts = tally rows [] in
    let lines = take 12 (sort_by_count counts) in
    record { lines = lines; more = length counts - length lines }

abbrev pub quiet_ids : List QuietEvent → List ℕ
quiet_ids rows = map (λ (r : QuietEvent). r.id) rows

abbrev pub without : List ℕ → List QuietEvent → List QuietEvent
without ids rows = keep (λ (r : QuietEvent). not (any (λ i. i == r.id) ids)) rows

-- What happens around a flush: whether Discord's alerts are switched on, whether a channel's call raises,
-- which alerts other threads defer meanwhile, and whether the reading and the deletion raise. The channels
-- send in threads of their own, whose failures the flush does not see.
pub record Surroundings : Type 0 where
  pub read_fails : Bool
  pub discord_active : Bool
  pub discord_raises : Digest → ℕ → Bool
  pub push_raises : Digest → ℕ → Bool
  pub meanwhile : List QuietEvent → List QuietEvent
  pub cleanup_fails : Bool

-- A summary that was handed over, and to which channels.
pub record Summary : Type 0 where
  pub digest : Digest
  pub count : ℕ
  pub channels : Channels

-- The table, what `flush_quiet_hours_digest` returns, and the summary, if a channel took one.
pub record Flushed : Type 0 where
  pub events : List QuietEvent
  pub result : Bool
  pub handed : Option Summary

unfoldable pub handed_over : Digest → ℕ → Bool → Bool → Option Summary
handed_over digest count discord push =
    if discord || push
    then some (record {
      digest = digest;
      count = count;
      channels = record { discord = discord; push = push };
    })
    else none

-- What follows the sending: the rows that were read are deleted.
unfoldable pub clear_sent :
    Surroundings → List QuietEvent → List QuietEvent → Option Summary → Flushed
clear_sent world rows later handed =
    if world.cleanup_fails
    then (record { events = later; result = false; handed = handed })
    else (record { events = without (quiet_ids rows) later; result = true; handed = handed })

-- What follows the reading of the rows. `send_quiet_hours_digest_alert` returns False when Discord's alerts
-- are switched off, which is not looked at.
unfoldable pub send_digest : Surroundings → Bool → List QuietEvent → Flushed
send_digest world push_enabled rows =
    let digest = digest_lines rows in
    let count = length rows in
    let send_discord = any (λ (r : QuietEvent). r.send_discord) rows in
    let send_push = any (λ (r : QuietEvent). r.send_push) rows in
    let discord = send_discord && world.discord_active in
    let push = send_push && push_enabled in
    let later = world.meanwhile rows in
    if send_discord && world.discord_raises digest count
    then (record { events = later; result = false; handed = none })
    else if push && world.push_raises digest count
    then (record {
      events = later;
      result = false;
      handed = handed_over digest count discord false;
    })
    else clear_sent world rows later (handed_over digest count discord push)

-- `flush_quiet_hours_digest`.
unfoldable pub flush_digest :
    Surroundings → QuietConfig → Bool → ℕ → Bool → List QuietEvent → Flushed
flush_digest world cfg push_enabled current outage rows =
    let kept : Flushed = record { events = rows; result = false; handed = none } in
    if quiet_hours_active cfg current || (world.read_fails || outage)
    then kept
    else elim rows [ [] ↦ kept | r ∷ more ↦ send_digest world push_enabled (r ∷ more) ]
