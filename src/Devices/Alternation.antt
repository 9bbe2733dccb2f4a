-- ===== src/Devices/Alternation.antt =====
-- What the debouncing of linkmoth_devices.py announces, over any history of checks.
use linkmoth.Prelude.{
  ℕ, suc, ◌≤◌, ◌≡◌, refl, ◌↔◌, Bool, true, false, Option, none, some, List, [], ◌∷◌, arith,
  if◌then◌else◌,
}
use linkmoth.Devices.Data.{
  RunState, up, degraded, down, error, Event, fault, recovery, Source, manual, scheduled, Health,
}
use linkmoth.Devices.Debounce.{is_faulty, advance}
use linkmoth.Devices.Manager.{fresh_health}

-- A history of checks, newest first, since the device was created or its monitor changed.
abbrev pub Checks : Type 0
Checks = List (Source × RunState)

pub after : Checks → Health
after [] = fresh_health
after ((source, state) ∷ older) = (advance source state (after older)).0

abbrev pub is_up : RunState → Bool
is_up up = true
is_up _ = false

-- How many scheduled checks at the end of the history failed, or passed; manual ones do not count.
unfoldable pub trailing : Bool → Checks → ℕ
trailing good [] = 0
trailing good ((manual, state) ∷ older) = trailing good older
trailing good ((scheduled, state) ∷ older) =
    let before = trailing good older in
    if is_up state then (if good then suc before else 0) else (if good then 0 else suc before)

streaks-after :
    (h : Checks)
    → ((after h).success_streak ≡ trailing true h) × ((after h).failure_streak ≡ trailing false h)
unfolding after trailing advance
streaks-after [] = (refl, refl)
streaks-after ((manual, state) ∷ older) = streaks-after older
streaks-after ((scheduled, state) ∷ older) = ground (arith, streaks-after older)

-- The event that the newest check announces.
abbrev pub event_of : Source → RunState → Checks → Option Event
event_of source state older = (advance source state (after older)).1

abbrev pub threshold : RunState → ℕ
threshold error = 3
threshold _ = 2

-- A fault is announced exactly by a scheduled check that fails, as at least the second in a row (at
-- least the third, where the check itself broke), on a device that is not already called degraded
-- or down.
pub fault_iff :
    (source : Source) (state : RunState) (older : Checks)
    → (event_of source state older ≡ some fault) ↔ (
        (source ≡ scheduled)
        × (is_up state ≡ false)
        × (threshold state ≤ trailing false ((source, state) ∷ older))
        × (is_faulty (after older).stable_state ≡ false))
unfolding trailing advance
fault_iff manual state older = ground arith
fault_iff scheduled up older = ground (arith, streaks-after older)
fault_iff scheduled degraded older = ground (arith, streaks-after older)
fault_iff scheduled down older = ground (arith, streaks-after older)
fault_iff scheduled error older = ground (arith, streaks-after older)

-- A recovery is announced exactly by the second scheduled success in a row on a device that is
-- called degraded or down.
pub recovery_iff :
    (source : Source) (state : RunState) (older : Checks)
    → (event_of source state older ≡ some recovery) ↔ (
        (source ≡ scheduled)
        × (is_up state ≡ true)
        × (2 ≤ trailing true ((source, state) ∷ older))
        × (is_faulty (after older).stable_state ≡ true))
unfolding trailing advance
recovery_iff manual state older = ground arith
recovery_iff scheduled up older = ground (arith, streaks-after older)
recovery_iff scheduled degraded older = ground (arith, streaks-after older)
recovery_iff scheduled down older = ground (arith, streaks-after older)
recovery_iff scheduled error older = ground (arith, streaks-after older)

cons_event : Option Event → List Event → List Event
cons_event none es = es
cons_event (some e) es = e ∷ es

-- The announcements of a history, newest first.
pub announced : Checks → List Event
unfolding cons_event
announced [] = []
announced ((source, state) ∷ older) = cons_event (event_of source state older) (announced older)

-- Newest first: faults and recoveries take turns, and the oldest is a fault.
abbrev pub Alternates : List Event → Type 0
Alternates [] = Unit
Alternates (fault ∷ []) = Unit
Alternates (recovery ∷ []) = ⊥
Alternates (fault ∷ fault ∷ es) = ⊥
Alternates (fault ∷ recovery ∷ es) = Alternates (recovery ∷ es)
Alternates (recovery ∷ fault ∷ es) = Alternates (fault ∷ es)
Alternates (recovery ∷ recovery ∷ es) = ⊥

abbrev last_is_fault : List Event → Bool
last_is_fault [] = false
last_is_fault (fault ∷ es) = true
last_is_fault (recovery ∷ es) = false

-- The device is called faulty exactly while the newest announcement is a fault.
faulty-announced : (h : Checks) → is_faulty (after h).stable_state ≡ last_is_fault (announced h)
unfolding after announced advance
faulty-announced [] = refl
faulty-announced ((manual, state) ∷ older) = faulty-announced older
faulty-announced ((scheduled, state) ∷ older) = ground (arith, faulty-announced older)

Alternates-cons_event :
    (o : Option Event) (es : List Event)
    → (o ≡ some fault → last_is_fault es ≡ false)
    → (o ≡ some recovery → last_is_fault es ≡ true)
    → Alternates es
    → Alternates (cons_event o es)
unfolding cons_event
Alternates-cons_event none es f r a = a
Alternates-cons_event (some fault) [] f r a = tt
Alternates-cons_event (some fault) (fault ∷ es) f r a = cc (f refl)
Alternates-cons_event (some fault) (recovery ∷ es) f r a = a
Alternates-cons_event (some recovery) [] f r a = cc (r refl)
Alternates-cons_event (some recovery) (fault ∷ es) f r a = a
Alternates-cons_event (some recovery) (recovery ∷ es) f r a = cc (r refl)

-- Whatever a device's checks find, its announcements take turns: no fault is announced twice
-- without a recovery between, and no recovery without a fault before it.
pub announced-Alternates : (h : Checks) → Alternates (announced h)
unfolding announced
announced-Alternates [] = tt
announced-Alternates ((source, state) ∷ older) =
    Alternates-cons_event (event_of source state older) (announced older)
      (λ e. rw (← faulty-announced older) ((fault_iff source state older).0 e).3)
      (λ e. rw (← faulty-announced older) ((recovery_iff source state older).0 e).3)
      (announced-Alternates older)
