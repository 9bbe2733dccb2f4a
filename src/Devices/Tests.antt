-- ===== src/Devices/Tests.antt =====
-- Devices and histories of checks, and the theorems at concrete inputs.
use linkmoth.Prelude.{
  ℕ, ◌≤◌, ◌≡◌, ◌≢◌, ◌↔◌, refl, true, false, none, some, List, [], ◌∷◌, All, length, newest, arith,
}
use linkmoth.Devices.Data.{
  up, degraded, down, error, fault, recovery, manual, scheduled, generic, no_settings, Clean,
  Device, DeviceDb, DeviceRun, done,
}
use linkmoth.Devices.Manager.{
  Slots, fresh_health, max_device_runs, begin_run, end_run, of_device, trim_runs,
}
use linkmoth.Devices.Schedule.{process_due}
use linkmoth.Devices.Debounce.{is_faulty}
use linkmoth.Devices.Alternation.{
  Checks, after, is_up, trailing, event_of, threshold, announced, Alternates, fault_iff,
  recovery_iff, announced-Alternates,
}
use linkmoth.Devices.Slots.{IsSlots, here, next, begins, ends, Reach-IsSlots}
use linkmoth.Devices.History.{of_device-trim_runs}
use linkmoth.Devices.Settled.{IsSettled, process_due-IsSettled}

abbrev failing_twice : Checks
failing_twice = (scheduled, down) ∷ (manual, up) ∷ (scheduled, degraded) ∷ []

fault_iff_example : (event_of scheduled error failing_twice ≡ some fault) ↔ (
    (scheduled ≡ scheduled)
    × (is_up error ≡ false)
    × (threshold error ≤ trailing false ((scheduled, error) ∷ failing_twice))
    × (is_faulty (after failing_twice).stable_state ≡ false))
fault_iff_example = fault_iff scheduled error failing_twice

recovery_iff_example : (event_of scheduled up ((scheduled, up) ∷ failing_twice) ≡ some recovery) ↔ (
    (scheduled ≡ scheduled)
    × (is_up up ≡ true)
    × (2 ≤ trailing true ((scheduled, up) ∷ (scheduled, up) ∷ failing_twice))
    × (is_faulty (after ((scheduled, up) ∷ failing_twice)).stable_state ≡ true))
recovery_iff_example = recovery_iff scheduled up ((scheduled, up) ∷ failing_twice)

announced-Alternates_example :
    Alternates (announced ((scheduled, up) ∷ (scheduled, up) ∷ failing_twice))
announced-Alternates_example =
    announced-Alternates ((scheduled, up) ∷ (scheduled, up) ∷ failing_twice)

abbrev idle : Slots
idle = record { running = []; free = 4 }

idle-IsSlots : IsSlots idle
idle-IsSlots = record { distinct = tt; counted = omega arith }

begin_7 : begin_run 7 idle ≡ done (record { running = 7 ∷ []; free = 3 })
unfolding begin_run
begin_7 = refl

Reach-IsSlots_example : IsSlots (end_run 7 (record { running = 7 ∷ []; free = 3 }))
Reach-IsSlots_example =
    Reach-IsSlots idle-IsSlots (next (next here (begins 7 begin_7)) (ends 7 refl refl))

abbrev run_of : ℕ → ℕ → DeviceRun
run_of id device_id = record {
  id = id;
  device_id = device_id;
  ts = id;
  source = scheduled;
  state = up;
  summary = "";
  duration_ms = 1;
  results = [];
}

abbrev rows : List DeviceRun
rows = run_of 1 7 ∷ run_of 2 8 ∷ run_of 3 7 ∷ []

of_device-trim_runs_example :
    (of_device 7 (trim_runs 7 rows) ≡ newest max_device_runs (of_device 7 rows))
    × (length (of_device 7 (trim_runs 7 rows)) ≤ max_device_runs)
    × ((e : ℕ) → e ≢ 7 → of_device e (trim_runs 7 rows) ≡ of_device e rows)
of_device-trim_runs_example =
    of_device-trim_runs 7 0 rows (omega arith, (omega arith, (omega arith, tt)))

abbrev printer : Clean
printer = record {
  name = "Printer";
  address = "192.168.1.9";
  preset = generic;
  enabled = true;
  interval_seconds = 300;
  alerts = record { discord = true; push = true; webhook = false };
  settings = no_settings;
}

abbrev late : Device
late = record {
  id = 7;
  config = printer;
  created = 100;
  updated = 100;
  last_run_ts = none;
  last_state = none;
  last_summary = none;
  last_result = none;
  last_success = none;
  last_failure = none;
  health = fresh_health;
  next_run = some 400;
}

abbrev table : DeviceDb
table = record { devices = late ∷ []; runs = rows; next_run_id = 4 }

process_due-IsSettled_example : All (IsSettled 500) (process_due 500 table).0.devices
process_due-IsSettled_example = process_due-IsSettled 500 table (ground arith)
