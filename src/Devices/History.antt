-- ===== src/Devices/History.antt =====
-- The bounded history of a device's runs in linkmoth_devices.py.
use linkmoth.Prelude.{
  ℕ, zero, suc, ◌-◌, ◌≤◌, ◌<◌, ◌≡◌, ◌≢◌, refl, ◌∙◌, Bool, true, false, not, ◌||◌, List, [], ◌∷◌,
  any, keep, All, length, drop, newest, length-newest-le, arith, Bool-cases, inl, inr, ◌==◌,
}
use linkmoth.Devices.Data.{DeviceRun}
use linkmoth.Devices.Manager.{max_device_runs, of_device, trim_runs}

-- The ids of the rows ascend, as SQLite gives them.
abbrev pub Ascending : ℕ → List DeviceRun → Type 0
Ascending bound [] = Unit
Ascending bound (r ∷ rows) = (bound ≤ r.id) × Ascending (suc r.id) rows

abbrev has : List DeviceRun → ℕ → Bool
has rows i = any (λ k. k.id == i) rows

has_below : (i b : ℕ) (rows : List DeviceRun) → i < b → Ascending b rows → has rows i ≡ false
has_below i b [] h a = refl
has_below i b (r ∷ rows) h a = ground (arith, has_below i (suc r.id) rows)

has-drop : (i n : ℕ) (rows : List DeviceRun) → has rows i ≡ false → has (drop n rows) i ≡ false
has-drop i zero rows h = h
has-drop i (suc n) [] h = h
has-drop i (suc n) (r ∷ rows) h = has-drop i n rows (ground arith)

keep_every :
    (p : DeviceRun → Bool) (rows : List DeviceRun) → All (λ r. p r ≡ true) rows → keep p rows ≡ rows
keep_every p [] h = refl
keep_every p (r ∷ rows) h = ground (arith, keep_every p rows h.1)

All-has_cons :
    (x : DeviceRun) (xs rows : List DeviceRun)
    → All (λ r. has xs r.id ≡ true) rows
    → All (λ r. has (x ∷ xs) r.id ≡ true) rows
All-has_cons x xs [] h = tt
All-has_cons x xs (r ∷ rows) h = (ground (arith, h.0), All-has_cons x xs rows h.1)

All-has : (rows : List DeviceRun) → All (λ r. has rows r.id ≡ true) rows
All-has [] = tt
All-has (r ∷ rows) = (ground arith, All-has_cons r rows rows (All-has rows))

-- Over ascending rows, to keep those whose id is in a suffix is to take that suffix.
keep-drop :
    (n b : ℕ) (rows : List DeviceRun)
    → Ascending b rows
    → keep (λ r. has (drop n rows) r.id) rows ≡ drop n rows
keep-drop zero b rows a = keep_every (λ r. has rows r.id) rows (All-has rows)
keep-drop (suc n) b [] a = refl
keep-drop (suc n) b (r ∷ rows) a =
    let gone : has (drop n rows) r.id ≡ false =
      has-drop r.id n rows (has_below r.id (suc r.id) rows (omega arith) a.1) in
    rw gone (keep-drop n (suc r.id) rows a.1)

Ascending-le : (a b : ℕ) (rows : List DeviceRun) → a ≤ b → Ascending b rows → Ascending a rows
Ascending-le a b [] h k = k
Ascending-le a b (row ∷ rows) h k = (omega arith, k.1)

Ascending-of_device :
    (d b : ℕ) (rows : List DeviceRun) → Ascending b rows → Ascending b (of_device d rows)
unfolding of_device
Ascending-of_device d b [] a = tt
Ascending-of_device d b (r ∷ rows) a = elim (Bool-cases (r.device_id == d)) [
  | inl e ↦ rw e (a.0, Ascending-of_device d (suc r.id) rows a.1)
  | inr e ↦
      rw e (Ascending-le b (suc r.id) _ (omega arith) (Ascending-of_device d (suc r.id) rows a.1))
]

of_device-keep :
    (d : ℕ) (q : DeviceRun → Bool) (rows : List DeviceRun)
    → of_device d (keep (λ r. not (r.device_id == d) || q r) rows) ≡ keep q (of_device d rows)
unfolding of_device
of_device-keep d q [] = refl
of_device-keep d q (r ∷ rows) = ground (arith, of_device-keep d q rows)

others-keep :
    (d e : ℕ) (q : DeviceRun → Bool) (rows : List DeviceRun)
    → e ≢ d
    → of_device e (keep (λ r. not (r.device_id == d) || q r) rows) ≡ of_device e rows
unfolding of_device
others-keep d e q [] h = refl
others-keep d e q (r ∷ rows) h = ground (arith, others-keep d e q rows h)

-- In a table whose ids ascend the trim leaves the device its newest 200 runs, in order, and every other device all of its own.
pub of_device-trim_runs :
    (d b : ℕ) (rows : List DeviceRun)
    → Ascending b rows
    → (of_device d (trim_runs d rows) ≡ newest max_device_runs (of_device d rows))
      × (length (of_device d (trim_runs d rows)) ≤ max_device_runs)
      × ((e : ℕ) → e ≢ d → of_device e (trim_runs d rows) ≡ of_device e rows)
unfolding trim_runs
of_device-trim_runs d b rows a =
    let mine = of_device d rows in
    let kept = newest max_device_runs mine in
    let same : of_device d (trim_runs d rows) ≡ kept =
      of_device-keep d (λ r. has kept r.id) rows
      ∙ keep-drop (length mine - max_device_runs) b mine (Ascending-of_device d b rows a) in
    (
      same,
      rw same (length-newest-le max_device_runs mine),
      λ e h. others-keep d e (λ r. has kept r.id) rows h,
    )
