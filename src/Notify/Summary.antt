-- ===== src/Notify/Summary.antt =====
-- What becomes of the deferred alerts of linkmoth_notify.py.
use linkmoth.Prelude.{
  ℕ, suc, zero, ◌-◌, ◌≤◌, ◌≡◌, refl, ◌∙◌, String, Bool, true, false, not, ltb, ◌&&◌, ◌||◌, All,
  List, [], ◌∷◌, ◌++◌, any, drop, All-drop, length, length-append, newest, ◌==◌, ◌⊎◌, if◌then◌else◌,
  arith,
}
use linkmoth.Notify.Quiet.{QuietConfig, quiet_hours_active}
use linkmoth.Notify.Deferred.{
  QuietEvent, Channels, wanted_of, next_event_id, quiet_event, defer_if_quiet, quiet_ids, without,
  digest_lines, Surroundings, handed_over, clear_sent, send_digest, flush_digest,
}

abbrev pub has : List ℕ → ℕ → Bool
has ids i = any (λ j. j == i) ids

-- Alerts with other ids.
abbrev pub AreNew : List ℕ → List QuietEvent → Type 0
AreNew ids rows = All (λ (r : QuietEvent). has ids r.id ≡ false) rows

without-new : (ids : List ℕ) (rows : List QuietEvent) → AreNew ids rows → without ids rows ≡ rows
without-new ids [] h = refl
without-new ids (r ∷ rows) h = ground (arith, h.0, without-new ids rows h.1)

without-append :
    (ids : List ℕ) (l m : List QuietEvent) → without ids (l ++ m) ≡ without ids l ++ without ids m
without-append ids [] m = refl
without-append ids (r ∷ l) m = ground (arith, without-append ids l m)

-- Every row's id is among the ids.
abbrev AllIn : List ℕ → List QuietEvent → Type 0
AllIn ids rows = All (λ (r : QuietEvent). has ids r.id ≡ true) rows

without-in : (ids : List ℕ) (rows : List QuietEvent) → AllIn ids rows → without ids rows ≡ []
without-in ids [] h = refl
without-in ids (r ∷ rows) h = ground (arith, h.0, without-in ids rows h.1)

AllIn-cons : (i : ℕ) (ids : List ℕ) (rows : List QuietEvent) → AllIn ids rows → AllIn (i ∷ ids) rows
AllIn-cons i ids [] h = tt
AllIn-cons i ids (r ∷ rows) h = (ground (arith, h.0), AllIn-cons i ids rows h.1)

AllIn-own : (rows : List QuietEvent) → AllIn (quiet_ids rows) rows
AllIn-own [] = tt
AllIn-own (r ∷ rows) = (ground arith, AllIn-cons r.id (quiet_ids rows) rows (AllIn-own rows))

-- The channels that a deferred alert asked for and that are still switched on.
abbrev pub discord_due : Surroundings → List QuietEvent → Bool
discord_due world rows = any (λ (r : QuietEvent). r.send_discord) rows && world.discord_active

abbrev pub push_due : Bool → List QuietEvent → Bool
push_due push_enabled rows = any (λ (r : QuietEvent). r.send_push) rows && push_enabled

-- What a flush may fail at once it is due and alerts wait.
abbrev pub goes_wrong : Surroundings → Bool → List QuietEvent → Bool
goes_wrong world push_enabled rows =
    (any (λ (r : QuietEvent). r.send_discord) rows
      && world.discord_raises (digest_lines rows) (length rows))
    || ((push_due push_enabled rows && world.push_raises (digest_lines rows) (length rows))
        || world.cleanup_fails)

-- A flush returns True exactly outside quiet hours and outages, when the rows can be read and there are
-- some, no call of a channel raises and the deletion succeeds. Alerts may be deferred meanwhile, under new
-- ids. When it returns True, exactly the alerts that it read are deleted, and a summary that counts all of
-- them was handed to each channel that one of them asked for and that is still switched on, which may be
-- none; when it returns False, nothing is deleted. The cap may drop the oldest alerts in between. Handed
-- over does not mean sent: the channels send in threads of their own.
pub flush_digest_lem :
    (world : Surroundings) (cfg : QuietConfig) (push_enabled : Bool) (current : ℕ) (outage : Bool)
    (k : ℕ) (rows new : List QuietEvent)
    → world.meanwhile rows ≡ drop k rows ++ new
    → AreNew (quiet_ids rows) new
    → ((flush_digest world cfg push_enabled current outage rows).result ≡ (
        not (quiet_hours_active cfg current || (world.read_fails || outage))
        && (ltb 0 (length rows) && not (goes_wrong world push_enabled rows))))
      × ((((flush_digest world cfg push_enabled current outage rows).result ≡ true)
            × ((flush_digest world cfg push_enabled current outage rows).events ≡ new)
            × ((flush_digest world cfg push_enabled current outage rows).handed
                ≡ handed_over
                    (digest_lines rows)
                    (length rows)
                    (discord_due world rows)
                    (push_due push_enabled rows)))
          ⊎ (((flush_digest world cfg push_enabled current outage rows).result ≡ false)
              × (((flush_digest world cfg push_enabled current outage rows).events ≡ rows)
                  ⊎ ((flush_digest world cfg push_enabled current outage rows).events
                      ≡ drop k rows ++ new))))
unfolding flush_digest send_digest clear_sent
flush_digest_lem world cfg push_enabled current outage k [] new h fresh =
    (ground arith, ground arith)
flush_digest_lem world cfg push_enabled current outage k (r ∷ more) new h fresh =
    let rows = r ∷ more in
    let left : without (quiet_ids rows) (drop k rows ++ new) ≡ new =
      without-append (quiet_ids rows) (drop k rows) new
      ∙ rw
          (
            without-in (quiet_ids rows) (drop k rows) (
                All-drop (λ (x : QuietEvent). has (quiet_ids rows) x.id ≡ true) k rows
                  (AllIn-own rows)),
            without-new (quiet_ids rows) new fresh,
          )
          refl in
    (ground arith, ground (arith, h, left))

drop-last :
    (k : ℕ) (rows : List QuietEvent) (r : QuietEvent)
    → k ≤ length rows
    → drop k (rows ++ r ∷ []) ≡ drop k rows ++ r ∷ []
drop-last zero rows r h = refl
drop-last (suc k) [] r h = ground (arith, h)
drop-last (suc k) (x ∷ rows) r h = drop-last k rows r (omega (arith, h))

newest-last :
    (rows : List QuietEvent) (r : QuietEvent)
    → newest 500 (rows ++ r ∷ []) ≡ newest 499 rows ++ r ∷ []
newest-last rows r =
    let e : length (rows ++ r ∷ []) - 500 ≡ length rows - 499 =
      omega (arith, length-append rows (r ∷ [])) in
    rw e (drop-last (length rows - 499) rows r (omega arith))

-- An alert is deferred exactly in quiet hours, and when a channel that is asked for is switched on. Then
-- it is the newest row, the rows before it are kept in order from the newest on, and there are at most 500.
pub defer_if_quiet_lem :
    (cfg : QuietConfig) (active : Channels) (current now : ℕ) (title detail : String)
    (asked : Channels) (rows : List QuietEvent)
    → ((defer_if_quiet cfg active current now title detail asked rows).1 ≡ (
        quiet_hours_active cfg current
        && ((asked.discord && active.discord) || (asked.push && active.push))))
      × (((defer_if_quiet cfg active current now title detail asked rows).0 ≡ (
          if (defer_if_quiet cfg active current now title detail asked rows).1
          then newest 499 rows
            ++ quiet_event (next_event_id rows) now title detail (wanted_of active asked) ∷ []
          else rows)))
unfolding defer_if_quiet
defer_if_quiet_lem cfg active current now title detail asked rows = ground (
  arith,
  newest-last rows (quiet_event (next_event_id rows) now title detail (wanted_of active asked)),
)
