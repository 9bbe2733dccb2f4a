-- ===== src/Devices/Schedule.antt =====
-- `process_due` of linkmoth_devices.py: which devices are due, and when they run next.
use linkmoth.Prelude.{
  ℕ, ◌+◌, Bool, true, false, ◌&&◌, Option, none, some, List, [], ◌∷◌, keep, any, map, take, ltb,
  leb, ◌==◌, if◌then◌else◌,
}
use linkmoth.Devices.Data.{Device, DeviceDb}
use linkmoth.Devices.Manager.{max_devices}

-- `process_due`: the rebase of schedules that a clock step left too far ahead, the devices that
-- are due, in order of their time, and their next runs.
unfoldable pub scheduled_at : Device → Option ℕ
scheduled_at d = if d.config.enabled && ltb 0 d.config.interval_seconds then d.next_run else none

unfoldable pub rebase : ℕ → Device → Device
rebase now d = elim (scheduled_at d) [
  | none ↦ d
  | some t ↦
      if ltb (now + d.config.interval_seconds) t
      then record d { next_run = some (now + d.config.interval_seconds) }
      else d
]

abbrev pub is_due : ℕ → Device → Bool
is_due now d = elim (scheduled_at d) [ none ↦ false | some t ↦ leb t now ]

before : Device → Device → Bool
unfolding scheduled_at
before d e = elim (scheduled_at d) [
  | none ↦ true
  | some t ↦ elim (scheduled_at e) [ none ↦ false | some u ↦ leb t u ]
]

unfoldable pub insert_due : Device → List Device → List Device
unfolding before
insert_due d [] = d ∷ []
insert_due d (e ∷ rest) =
    let later = insert_due d rest in if before d e then d ∷ e ∷ rest else e ∷ later

unfoldable pub sort_due : List Device → List Device
sort_due [] = []
sort_due (d ∷ rest) = insert_due d (sort_due rest)

unfoldable pub due_devices : ℕ → List Device → List Device
due_devices now devices = take max_devices (sort_due (keep (is_due now) devices))

abbrev pub ids_of : List Device → List ℕ
ids_of = map (λ d. d.id)

unfoldable pub reschedule : ℕ → List ℕ → Device → Device
reschedule now due d =
    if any (λ i. i == d.id) due
    then record d { next_run = some (now + d.config.interval_seconds) }
    else d

unfoldable pub process_due : ℕ → DeviceDb → DeviceDb × List ℕ
process_due now db =
    let devices = map (rebase now) db.devices in
    let due = ids_of (due_devices now devices) in
    (record db { devices = map (reschedule now due) devices }, due)
