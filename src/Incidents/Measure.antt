-- ===== src/Incidents/Measure.antt =====
-- How many of the seconds below a bound satisfy a test: what an outage's length is measured against.
use linkmoth.Prelude.{
  ℕ, zero, suc, ◌+◌, ◌-◌, ◌≤◌, ◌≡◌, refl, min, Bool, true, false, ◌&&◌, ◌||◌, ltb, leb, arith,
  if◌then◌else◌,
}

pub measure : ℕ → (ℕ → Bool) → ℕ
measure zero p = 0
measure (suc n) p = measure n p + (if p n then 1 else 0)

pub measure_ext : (n : ℕ) (p q : ℕ → Bool) → ((t : ℕ) → p t ≡ q t) → measure n p ≡ measure n q
unfolding measure
measure_ext zero p q h = refl
measure_ext (suc n) p q h = ground (arith, h n, measure_ext n p q h)

pub measure_disjoint :
    (n : ℕ) (p q : ℕ → Bool)
    → ((t : ℕ) → p t ≡ true → q t ≡ false)
    → measure n (λ t. p t || q t) ≡ measure n p + measure n q
unfolding measure
measure_disjoint zero p q h = omega arith
measure_disjoint (suc n) p q h = ground (arith, h n, measure_disjoint n p q h)

-- `s ≤ t < e`.
abbrev pub inside : ℕ → ℕ → ℕ → Bool
inside s e t = leb s t && ltb t e

pub measure-inside : (n s e : ℕ) → measure n (inside s e) ≡ min n e - s
unfolding measure
measure-inside zero s e = ground arith
measure-inside (suc n) s e = ground (arith, measure-inside n s e)

pub measure_none : (n : ℕ) (p : ℕ → Bool) → ((t : ℕ) → p t ≡ false) → measure n p ≡ 0
unfolding measure
measure_none zero p h = refl
measure_none (suc n) p h = ground (arith, h n, measure_none n p h)

pub measure_mono :
    (n : ℕ) (p q : ℕ → Bool) → ((t : ℕ) → p t ≡ true → q t ≡ true) → measure n p ≤ measure n q
unfolding measure
measure_mono zero p q h = omega arith
measure_mono (suc n) p q h = ground (arith, h n, measure_mono n p q h)
