-- ===== src/Devices/Settled.antt =====
-- The schedule after `process_due` of linkmoth_devices.py.
use linkmoth.Prelude.{
  ℕ, zero, suc, ◌+◌, ◌≤◌, ◌<◌, ◌≡◌, refl, ap, ◌∙◌, Bool, true, ◌||◌, some, List, [], ◌∷◌, any, keep,
  map, take, All, length, length-keep-le, arith, Bool-cases, inl, inr, ◌==◌,
}
use linkmoth.Devices.Data.{Device, DeviceDb}
use linkmoth.Devices.Manager.{max_devices}
use linkmoth.Devices.Schedule.{
  scheduled_at, rebase, is_due, insert_due, sort_due, due_devices, ids_of, reschedule, process_due,
}

-- A scheduled device is not due, and runs within its own interval.
abbrev pub IsSettled : ℕ → Device → Type 0
IsSettled now d =
    (t : ℕ) → scheduled_at d ≡ some t → (now < t) × (t ≤ now + d.config.interval_seconds)

abbrev listed : List Device → ℕ → Bool
listed l i = any (λ j. j == i) (ids_of l)

listed-insert :
    (d : Device) (l : List Device) (i : ℕ) → listed (insert_due d l) i ≡ listed (d ∷ l) i
unfolding insert_due
listed-insert d [] i = refl
listed-insert d (e ∷ l) i = ground (arith, listed-insert d l i)

listed-sort : (l : List Device) (i : ℕ) → listed (sort_due l) i ≡ listed l i
unfolding sort_due
listed-sort [] i = refl
listed-sort (d ∷ l) i =
    listed-insert d (sort_due l) i ∙ ap (λ b. (d.id == i) || b) (listed-sort l i)

length-insert : (d : Device) (l : List Device) → length (insert_due d l) ≡ suc (length l)
unfolding insert_due
length-insert d [] = refl
length-insert d (e ∷ l) = ground (arith, length-insert d l)

length-sort : (l : List Device) → length (sort_due l) ≡ length l
unfolding sort_due
length-sort [] = refl
length-sort (d ∷ l) = length-insert d (sort_due l) ∙ ap suc (length-sort l)

take_all : (n : ℕ) (l : List Device) → length l ≤ n → take n l ≡ l
take_all zero [] h = refl
take_all zero (d ∷ l) h = absurd (omega arith)
take_all (suc n) [] h = refl
take_all (suc n) (d ∷ l) h = ap (◌∷◌ d) (take_all n l (omega arith))

length-map : (f : Device → Device) (l : List Device) → length (map f l) ≡ length l
length-map f [] = refl
length-map f (d ∷ l) = ap suc (length-map f l)

-- With no more devices than the limit, every due device is chosen.
listed-due :
    (now : ℕ) (l : List Device) (i : ℕ)
    → length l ≤ max_devices
    → listed (due_devices now l) i ≡ listed (keep (is_due now) l) i
unfolding due_devices
listed-due now l i h =
    let due = keep (is_due now) l in
    rw
      (take_all max_devices (sort_due due)
        (omega (arith, length-sort due, length-keep-le (is_due now) l)))
      (listed-sort due i)

abbrev Chosen : ℕ → List Device → Device → Type 0
Chosen now l d = is_due now d ≡ true → listed (keep (is_due now) l) d.id ≡ true

Chosen-cons :
    (now : ℕ) (d : Device) (l rest : List Device)
    → All (Chosen now l) rest
    → All (Chosen now (d ∷ l)) rest
Chosen-cons now d l [] h = tt
Chosen-cons now d l (e ∷ rest) h = (
  (λ due. elim (Bool-cases (is_due now d)) [
    | inl x ↦ rw x (ground (arith, h.0 due))
    | inr x ↦ rw x (h.0 due)
  ]),
  Chosen-cons now d l rest h.1,
)

All-Chosen : (now : ℕ) (l : List Device) → All (Chosen now l) l
All-Chosen now [] = tt
All-Chosen now (d ∷ l) = ((λ due. rw due (ground arith)), Chosen-cons now d l l (All-Chosen now l))

-- After the rebase no schedule is further ahead than one interval.
abbrev IsNear : ℕ → Device → Type 0
IsNear now d = (t : ℕ) → scheduled_at d ≡ some t → t ≤ now + d.config.interval_seconds

rebase-IsNear : (now : ℕ) (d : Device) → IsNear now (rebase now d)
unfolding rebase scheduled_at
rebase-IsNear now d t e = ground arith

All-rebase : (now : ℕ) (l : List Device) → All (IsNear now) (map (rebase now) l)
All-rebase now [] = tt
All-rebase now (d ∷ l) = (rebase-IsNear now d, All-rebase now l)

reschedule-IsSettled :
    (now : ℕ) (due : List ℕ) (d : Device)
    → IsNear now d
    → (is_due now d ≡ true → any (λ i. i == d.id) due ≡ true)
    → IsSettled now (reschedule now due d)
unfolding reschedule scheduled_at
reschedule-IsSettled now due d near chosen t e = ground (arith, near t, chosen)

All-reschedule :
    (now : ℕ) (l rest : List Device)
    → length l ≤ max_devices
    → All (IsNear now) rest
    → All (Chosen now l) rest
    → All (IsSettled now) (map (reschedule now (ids_of (due_devices now l))) rest)
All-reschedule now l [] h near chosen = tt
All-reschedule now l (d ∷ rest) h near chosen = (
  reschedule-IsSettled now (ids_of (due_devices now l)) d near.0
      (λ due. listed-due now l d.id h ∙ chosen.0 due),
  All-reschedule now l rest h near.1 chosen.1,
)

-- After a pass at `now` over at most fifty devices, no scheduled device is due any more, and each
-- runs within its own interval, wherever a clock step had left its schedule.
pub process_due-IsSettled :
    (now : ℕ) (db : DeviceDb)
    → length db.devices ≤ max_devices
    → All (IsSettled now) (process_due now db).0.devices
unfolding process_due
process_due-IsSettled now db h =
    let l = map (rebase now) db.devices in
    All-reschedule now l l (rw (length-map (rebase now) db.devices) h) (All-rebase now db.devices)
      (All-Chosen now l)
