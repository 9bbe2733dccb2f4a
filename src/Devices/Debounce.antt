-- ===== src/Devices/Debounce.antt =====
-- The debounced state of a device: the middle of `_record_result` of linkmoth_devices.py.
use linkmoth.Prelude.{ℕ, suc, Bool, true, false, Option, none, some, leb, if◌then◌else◌}
use linkmoth.Devices.Data.{
  RunState, up, degraded, down, error, StableState, unknown, stable_up, stable_degraded,
  stable_down, Event, fault, recovery, Source, manual, scheduled, Health,
}

-- `stable in ("degraded", "down")`.
abbrev pub is_faulty : StableState → Bool
is_faulty unknown = false
is_faulty stable_up = false
is_faulty stable_degraded = true
is_faulty stable_down = true

-- A failed observation: after `threshold` in a row the state becomes `target`.
fail_once : ℕ → StableState → Health → Health × Option Event
fail_once threshold target h =
    let streak = suc h.failure_streak in
    if leb threshold streak
    then (
      record { stable_state = target; success_streak = 0; failure_streak = streak },
      if is_faulty h.stable_state then none else some fault,
    )
    else (record h { success_streak = 0; failure_streak = streak }, none)

succeed_once : Health → Health × Option Event
succeed_once h =
    let streak = suc h.success_streak in
    if leb 2 streak
    then (
      record { stable_state = stable_up; success_streak = streak; failure_streak = 0 },
      if is_faulty h.stable_state then some recovery else none,
    )
    else (record h { success_streak = streak; failure_streak = 0 }, none)

unfoldable pub advance : Source → RunState → Health → Health × Option Event
unfolding succeed_once fail_once
advance manual state h = (h, none)
advance scheduled up h = succeed_once h
advance scheduled degraded h = fail_once 2 stable_degraded h
advance scheduled down h = fail_once 2 stable_down h
advance scheduled error h = fail_once 3 stable_down h
