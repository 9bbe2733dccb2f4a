-- ===== src/Devices/Slots.antt =====
-- The check slots of `DeviceManager` in linkmoth_devices.py, under any interleaving of checks.
use linkmoth.Prelude.{
  ℕ, suc, ◌+◌, ◌≡◌, refl, true, false, not, List, [], ◌∷◌, any, keep, length, arith, Bool-cases,
  inl, inr, ◌==◌, ==_iff,
}
use linkmoth.Devices.Data.{done}
use linkmoth.Devices.Manager.{Slots, max_concurrent_checks, is_running, begin_run, end_run}

-- No device is checked twice at once.
abbrev pub Distinct : List ℕ → Type 0
Distinct [] = Unit
Distinct (i ∷ rest) = (any (λ j. j == i) rest ≡ false) × Distinct rest

pub record IsSlots (s : Slots) : Type 0 where
  pub distinct : Distinct s.running
  pub counted : length s.running + s.free ≡ max_concurrent_checks

-- One thread begins a check, or one that was begun ends; other threads may step in between.
pub data Step (s : Slots) (t : Slots) : Type 0 where
  begins : (i : ℕ) → begin_run i s ≡ done t → Step s t
  ends : (i : ℕ) → is_running s i ≡ true → t ≡ end_run i s → Step s t

pub data Reach (s : Slots) : Slots → Type 0 where
  here : Reach s s
  next : {t u : Slots} → Reach s t → Step t u → Reach s u

any-keep :
    (i j : ℕ) (l : List ℕ)
    → any (λ k. k == i) l ≡ false
    → any (λ k. k == i) (keep (λ k. not (k == j)) l) ≡ false
any-keep i j [] h = refl
any-keep i j (k ∷ l) h = ground (arith, any-keep i j l)

keep-Distinct : (j : ℕ) (l : List ℕ) → Distinct l → Distinct (keep (λ k. not (k == j)) l)
keep-Distinct j [] h = tt
keep-Distinct j (k ∷ l) h = elim (Bool-cases (k == j)) [
  | inl e ↦ rw e (keep-Distinct j l h.1)
  | inr e ↦ rw e (any-keep k j l h.0, keep-Distinct j l h.1)
]

keep_absent : (j : ℕ) (l : List ℕ) → any (λ k. k == j) l ≡ false → keep (λ k. not (k == j)) l ≡ l
keep_absent j [] h = refl
keep_absent j (k ∷ l) h = ground (arith, keep_absent j l)

-- Ending a check that runs removes exactly one entry.
length-keep :
    (j : ℕ) (l : List ℕ)
    → Distinct l
    → any (λ k. k == j) l ≡ true
    → suc (length (keep (λ k. not (k == j)) l)) ≡ length l
length-keep j [] d h = cc
length-keep j (k ∷ l) d h = elim (Bool-cases (k == j)) [
  | inl e ↦ let same : k ≡ j = (==_iff k j).0 e in rw (e, keep_absent j l (rw same at d.0))
  | inr e ↦ rw e (ground (arith, length-keep j l d.1))
]

begin_run-IsSlots : (i : ℕ) (s t : Slots) → begin_run i s ≡ done t → IsSlots s → IsSlots t
unfolding begin_run
begin_run-IsSlots i s t e h = ground arith

end_run-IsSlots : (i : ℕ) (s : Slots) → is_running s i ≡ true → IsSlots s → IsSlots (end_run i s)
unfolding end_run
end_run-IsSlots i s running h = record {
  distinct = keep-Distinct i s.running h.distinct;
  counted = omega (arith, length-keep i s.running h.distinct running, h.counted);
}

Step-IsSlots : {s t : Slots} → Step s t → IsSlots s → IsSlots t
Step-IsSlots {s} {t} (begins i e) h = begin_run-IsSlots i s t e h
Step-IsSlots {s} {t} (ends i running e) h = rw e (end_run-IsSlots i s running h)

-- From slots that are well counted, under any interleaving, no device is checked twice at once, at most four checks run, and every
-- slot that is not free belongs to a check that runs.
pub Reach-IsSlots : {s t : Slots} → IsSlots s → Reach s t → IsSlots t
Reach-IsSlots h here = h
Reach-IsSlots h (next r st) = Step-IsSlots st (Reach-IsSlots h r)
