-- ===== src/Devices/Manager.antt =====
-- `DeviceManager` of linkmoth_devices.py: the device table, the history of runs and the check slots.
-- Time and the new device's id are arguments.
use linkmoth.Prelude.{
  ℕ, suc, ◌+◌, ◌-◌, Bool, true, false, not, ◌&&◌, ◌||◌, Option, none, some, List, [], ◌∷◌, ◌++◌,
  keep, any, length, update, newest, ltb, leb, ◌==◌, if◌then◌else◌,
}
use linkmoth.Devices.Data.{
  RunState, up, degraded, down, unknown, Event, Source, RunResult, Clean, Health, Device, DeviceRun,
  DeviceDb, not_found, busy, limit_reached, Result, done, fail,
}
use linkmoth.Devices.Debounce.{advance}

abbrev pub max_devices : ℕ
max_devices = 50

abbrev pub max_device_runs : ℕ
max_device_runs = 200

abbrev pub max_concurrent_checks : ℕ
max_concurrent_checks = 4

-- The running set and the free slots of the semaphore, which one lock guards.
pub record Slots : Type 0 where
  pub running : List ℕ
  pub free : ℕ

abbrev pub is_running : Slots → ℕ → Bool
is_running s device_id = any (λ i. i == device_id) s.running

unfoldable pub begin_run : ℕ → Slots → Result Slots
begin_run device_id s =
    if is_running s device_id
    then fail busy
    else if s.free == 0
    then fail busy
    else done (record { running = device_id ∷ s.running; free = s.free - 1 })

unfoldable pub end_run : ℕ → Slots → Slots
end_run device_id s = record {
  running = keep (λ i. not (i == device_id)) s.running;
  free = suc s.free;
}

unfoldable pub find_device : ℕ → List Device → Option Device
find_device i [] = none
find_device i (d ∷ rest) = if d.id == i then some d else find_device i rest

-- `interval` seconds after `now` for an enabled device with an interval.
unfoldable pub first_run : ℕ → Clean → Option ℕ
first_run now clean =
    if clean.enabled && ltb 0 clean.interval_seconds
    then some (now + clean.interval_seconds)
    else none

abbrev pub fresh_health : Health
fresh_health = record { stable_state = unknown; success_streak = 0; failure_streak = 0 }

new_device : ℕ → ℕ → Clean → Device
unfolding first_run
new_device device_id now clean = record {
  id = device_id;
  config = clean;
  created = now;
  updated = now;
  last_run_ts = none;
  last_state = none;
  last_summary = none;
  last_result = none;
  last_success = none;
  last_failure = none;
  health = fresh_health;
  next_run = first_run now clean;
}

-- `create_device` behind its validation.
unfoldable pub create_device : ℕ → ℕ → Clean → DeviceDb → Result DeviceDb
unfolding new_device
create_device device_id now clean db =
    if leb max_devices (length db.devices)
    then fail limit_reached
    else done (record db { devices = db.devices ++ new_device device_id now clean ∷ [] })

-- The two comparisons of `update_device` compare the stored fields with the new ones; `same`
-- compares address, preset and settings.
updated_device : (Clean → Clean → Bool) → ℕ → Clean → Device → Device
unfolding first_run
updated_device same now clean d =
    let monitor_changed = not (same clean d.config) in
    let schedule_changed =
      (if clean.enabled then not d.config.enabled else d.config.enabled)
      || not (clean.interval_seconds == d.config.interval_seconds) in
    let kept : Device = record d {
      config = clean;
      updated = now;
      next_run = first_run now clean;
      health = if monitor_changed || schedule_changed then fresh_health else d.health;
    } in
    if monitor_changed
    then record kept {
      last_run_ts = none;
      last_state = none;
      last_summary = none;
      last_result = none;
      last_success = none;
      last_failure = none;
    }
    else kept

unfoldable pub update_device : (Clean → Clean → Bool) → ℕ → ℕ → Clean → DeviceDb → Result DeviceDb
unfolding updated_device
update_device same device_id now clean db = elim (find_device device_id db.devices) [
  | none ↦ fail not_found
  | some current ↦ done (record db {
    devices =
        update (λ d. d.id == device_id) (λ d. updated_device same now clean current) db.devices;
  })
]

unfoldable pub delete_device : Slots → ℕ → DeviceDb → Result DeviceDb
delete_device s device_id db =
    if is_running s device_id then fail busy else elim (find_device device_id db.devices) [
      | none ↦ fail not_found
      | some d ↦ done (record db {
        runs = keep (λ r. not (r.device_id == device_id)) db.runs;
        devices = keep (λ d. not (d.id == device_id)) db.devices;
      })
    ]

-- `DELETE … WHERE device_id=? AND id NOT IN (the newest LIMIT ?)`.
unfoldable pub of_device : ℕ → List DeviceRun → List DeviceRun
of_device device_id runs = keep (λ r. r.device_id == device_id) runs

unfoldable pub trim_runs : ℕ → List DeviceRun → List DeviceRun
trim_runs device_id runs =
    let kept = newest max_device_runs (of_device device_id runs) in
    keep (λ r. not (r.device_id == device_id) || any (λ k. k.id == r.id) kept) runs

succeeded : RunState → Bool
succeeded up = true
succeeded _ = false

broke : RunState → Bool
broke degraded = true
broke down = true
broke _ = false

recorded : ℕ → RunResult → Health → Device → Device
unfolding succeeded broke
recorded now result health d = record d {
  last_run_ts = some now;
  last_state = some result.state;
  last_summary = some result.summary;
  last_result = some result;
  last_success = if succeeded result.state then some now else d.last_success;
  last_failure = if broke result.state then some now else d.last_failure;
  health = health;
}

stamp : ℕ → Option Event → RunResult → RunResult
stamp now none result = result
stamp now (some e) result = record result { event_ts = some now }

run_row : ℕ → ℕ → ℕ → Source → RunResult → DeviceRun
run_row run_id device_id now source result = record {
  id = run_id;
  device_id = device_id;
  ts = now;
  source = source;
  state = result.state;
  summary = result.summary;
  duration_ms = result.duration_ms;
  results = result.results;
}

-- `_record_result`: the new tables, and the event to announce.
unfoldable pub record_result :
    ℕ → ℕ → RunResult → Source → DeviceDb → Result (DeviceDb × Option Event)
unfolding recorded stamp run_row trim_runs
record_result now device_id result source db = elim (find_device device_id db.devices) [
  | none ↦ fail not_found
  | some d ↦
      let (health, event) = advance source result.state d.health in
      let result' = stamp now event result in
      done (
        record {
          devices = update (λ x. x.id == device_id) (λ x. recorded now result' health d) db.devices;
          runs =
              trim_runs device_id
                (db.runs ++ run_row db.next_run_id device_id now source result' ∷ []);
          next_run_id = suc db.next_run_id;
        },
        event,
      )
]

-- The part of `run_device` that runs behind `_begin_run`: the check's result is an argument, and
-- the slot is given back whatever happens.
unfoldable pub finish_run :
    ℕ
    → ℕ
    → (Clean → RunResult)
    → Source
    → Slots
    → DeviceDb
    → Slots × Result (DeviceDb × Option Event)
finish_run now device_id check source s db = (
  end_run device_id s,
  elim (find_device device_id db.devices) [
    | none ↦ fail not_found
    | some d ↦
        if d.config.enabled
        then record_result now device_id (check d.config) source db
        else fail busy
  ],
)
