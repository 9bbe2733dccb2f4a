-- ===== src/Lib.antt =====
-- Linkmoth watches a home network from a small host: a ladder of probes, a verdict on what is
-- broken, incidents that are opened and closed on it, alerts that are held back while the whole
-- network is down, the state of single devices, its own authentication, and the queues by which
-- it tells the user. This library models that core and proves what it promises. Paths are those
-- of the repository.
--
-- The parts and how they meet:
-- * Diagnosis (linkmoth_probes.py, and the outage test of linkmoth_kuma_proxy.py). `run_ladder`
--   builds the rungs of a run (Check, Probes, Ladder) out of `Readings`, what the host and the
--   network answer; `verdict` (Verdict, Rules) judges them and `is_effective_global_outage`
--   (Global) says whether the whole network is down. Quality models `confidence_assessment` and
--   `classify_quality`, Cache `run_ladder_cached` as steps of threads, which Flight is about.
--   Blame and Shape describe a run's rungs and its verdict without the texts, which Faults,
--   Agreement and Grades use.
-- * Outage (linkmoth_outage.py and linkmoth_kuma_proxy.py). Store has the rows of
--   `suppressed_alerts` and `network_outage`, Digest the recovery summary, Tracker the class
--   `OutageTracker`, which every verdict passes through. Recovery, Liveness, Cleared and
--   Kept are about it.
-- * Devices (linkmoth_devices.py). Data, Validate (`validate_device`), Check (`execute_device`),
--   Debounce (the streaks of `_record_result`), Manager (`DeviceManager`), Schedule
--   (`process_due`); Alternation, History, Slots and Settled are about them.
-- * Incidents (linkmoth_core.py and linkmoth_engine.py). Data has the rows; Segments derives the
--   outage intervals from an incident's runs and measures them, Store writes them run by run;
--   Engine opens and closes incidents (`trigger`, `close_open_incident`, `mark_false_alarm`),
--   Loop is the recheck loop `_loop`. Measure and Seconds are about the length, Mirror, Told,
--   Accounts, Kept, Agreement and Derived about the two accounts of the intervals, Single and
--   Calls about the open incident, Rechecks about the loop.
-- * Auth (linkmoth_auth.py, and the requests of linkmoth_handler.py that use it). Data has the
--   store and the tables; Client is `_client_ip`, Throttle the limit on guesses, Sessions the
--   sessions, Factors one-time and recovery codes, Manage onboarding and the password, Enrol the
--   second factor's set-up, Tokens the read-only tokens, Requests the handler's methods.
--   Backing, Kept, Routes and SecondFactor follow the sessions over all requests; Window is
--   about the throttle of requests that overlap, Replay and Codes about the codes, Onboard about the set-up, Forwarded
--   about the client's address.
-- * Webhooks (linkmoth_webhooks.py). Emit is `emit_event`, which fills and trims the queue,
--   Drain is `drain_queue_once`, Manage creates and deletes webhooks, Target has `_clean_url`
--   and `_resolve_pinned_target`, Headers `_clean_headers`. Pinned is about the target, Masked
--   and Accepted about the headers; Rows, Trim, Shed, Settle, Queue, Event and Reach are about
--   the queue.
-- * Notify (linkmoth_notify.py). Quiet has the quiet hours, Deferred the alerts that they put
--   off and the morning summary, Recovery `notify_recovery`, Inbox the dashboard's
--   notifications; Hours, Clock, Summary and Dedupe are about them.
-- * Inbound (linkmoth_kuma_proxy.py). Parse reads a request, Handle is `handle_inbound_alert`,
--   which joins the outage test, Outage's deferred alerts, Notify's notice and the incidents'
--   trigger; Silence is about it.
-- * Prelude and Text hold the shared helpers: Boolean tests on numbers, list functions over the
--   native numbers, and Python's text methods on ASCII.
--
-- How it is modelled. A method of a class takes the object and the database as a value and
-- returns the new one; an exception is a constructor of the result, or `none` where a key is
-- missing. Time is an argument, in whole seconds; a probe's time is in tenths of a millisecond.
-- Keys that are random (a device's UUID) are numbers and arguments. Rows that the program stores
-- as JSON are records. SQLite's statements are functions on lists of rows, kept in order of
-- insertion, with the next rowid. Every loop is structural recursion on a list, but for the
-- `while` loop that trims the webhook queue: its fuel is one more than the overflow, of which
-- each pass sheds a delivery at least.
--
-- Parameters. What a run reads (`Readings`), the sentence of the Wi-Fi rung (`WlanText`), the
-- parser of IPv4 addresses (`Ipv4`), the probes of a device check (`Probing`) and the recovery
-- callback (`Callback`, which may write to the database and may raise) are arguments, of which
-- no theorem assumes anything, but that Kept asks that the alerts held back during the callback
-- get ids of their own. What other writers do to the incidents between a read and a write is an
-- argument too (`Race`); Calls asks that they keep to one open incident, and that none opens one
-- before the insert that has no guard. Of authentication, hashing, key derivation and one-time
-- codes (`Crypto`), the reading, printing and trust of addresses (`Addresses`), what is drawn at
-- random, whether a slot for a hash is free, and what other threads do to the store (`Race`) are
-- arguments; of webhooks, what a request answers (`Send`) and the parsers of URLs and addresses
-- and the resolver (`Net`); of notices, the local time of day, which channels are switched on
-- and whether their calls raise (`Surroundings`, `Call`): that a channel takes a notice does not
-- mean that it is delivered; of an inbound alert, what the engine answers about the network
-- (`Answers`).
--
-- Not modelled: sockets, subprocesses, threads as such (the locks' critical sections are single
-- steps, and Slots lets any of them interleave), SQL connections and migrations, the rest of the
-- HTTP handler, cookies, the delivery and rendering of messages, the check of a webhook's other
-- settings, backups, statistics and reports, and the dashboard.
pub mod Prelude
pub mod Text
pub mod Diagnosis
pub mod Outage
pub mod Devices
pub mod Incidents
pub mod Auth
pub mod Webhooks
pub mod Notify
pub mod Inbound
