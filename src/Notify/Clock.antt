-- ===== src/Notify/Clock.antt =====
-- The clock texts of linkmoth_notify.py: what `quiet_hours_status` prints is what the settings read.
use linkmoth.Prelude.{
  ℕ, ◌+◌, ◌-◌, ◌*◌, ◌/◌, ◌%◌, ◌<◌, ◌≤◌, ◌≡◌, ◌↔◌, ◌∙◌, sym, ap, refl, true, some, List, [], ◌∷◌,
  Bool-cases, inl, inr, arith, String,
}
use linkmoth.Notify.Hours.{minutes_of-lt}
use linkmoth.Notify.Quiet.{is_clock, minutes_of, clock_minutes}
use linkmoth.Text.{codes, strip}

-- `f"{hour:02d}:{minute:02d}"`, for the minutes of a day.
unfoldable pub print_clock : ℕ → List ℕ
print_clock m =
    (b'0' + m / 60 / 10)
    ∷ (b'0' + m / 60 % 10)
    ∷ b':'
    ∷ (b'0' + m % 60 / 10)
    ∷ (b'0' + m % 60 % 10)
    ∷ []

minutes_of-print_clock : (m : ℕ) → m < 1440 → minutes_of (print_clock m) ≡ some m
unfolding minutes_of print_clock is_clock
minutes_of-print_clock m h = ground (arith, h)

hour_back : (h m : ℕ) → m < 60 → (h * 60 + m) / 60 ≡ h
hour_back h m k = omega arith

minute_back : (h m : ℕ) → m < 60 → (h * 60 + m) % 60 ≡ m
minute_back h m k = omega arith

tens_back : (a b : ℕ) → b < 10 → (a * 10 + b) / 10 ≡ a
tens_back a b k = omega arith

units_back : (a b : ℕ) → b < 10 → (a * 10 + b) % 10 ≡ b
units_back a b k = omega arith

print_clock_back :
    (a b c d : ℕ)
    → b < 10
    → c < 6
    → d < 10
    → print_clock ((a * 10 + b) * 60 + (c * 10 + d))
      ≡ (b'0' + a) ∷ (b'0' + b) ∷ b':' ∷ (b'0' + c) ∷ (b'0' + d) ∷ []
unfolding print_clock
print_clock_back a b c d hb hc hd =
    rw
      (
        hour_back (a * 10 + b) (c * 10 + d) (omega arith),
        minute_back (a * 10 + b) (c * 10 + d) (omega arith),
        tens_back a b hb,
        units_back a b hb,
        tens_back c d hd,
        units_back c d hd,
      )
      refl

-- The digits of a text that is a time of day.
clock_digits :
    (h1 h2 colon m1 m2 : ℕ)
    → is_clock h1 h2 colon m1 m2 ≡ true
    → ((b'0' ≤ h1) × ((b'0' ≤ h2) × (h2 < b'0' + 10)))
      × ((colon ≡ b':') × (((b'0' ≤ m1) × (m1 < b'0' + 6)) × ((b'0' ≤ m2) × (m2 < b'0' + 10))))
unfolding is_clock
clock_digits h1 h2 colon m1 m2 h = ground (arith, h)

add_back : (n b : ℕ) → b ≤ n → b + (n - b) ≡ n
add_back n b h = omega arith

print_clock-minutes_of : (l : List ℕ) (m : ℕ) → minutes_of l ≡ some m → print_clock m ≡ l
unfolding minutes_of
print_clock-minutes_of (h1 ∷ h2 ∷ colon ∷ m1 ∷ m2 ∷ []) m e =
    elim (Bool-cases (is_clock h1 h2 colon m1 m2)) [
      | inr other ↦ ground (arith, e, other)
      | inl clock ↦
          let ((a, (b, b')), (c, ((d, d'), (f, f')))) = clock_digits h1 h2 colon m1 m2 clock in
          let back =
            print_clock_back (h1 - b'0') (h2 - b'0') (m1 - b'0') (m2 - b'0') (omega arith)
              (omega arith) (omega arith) in
          let read : m ≡ ((h1 - b'0') * 10 + (h2 - b'0')) * 60 + ((m1 - b'0') * 10 + (m2 - b'0')) =
            ground (arith, e, clock) in
          ap print_clock read
          ∙ back
          ∙ rw (add_back h1 b'0' a, add_back h2 b'0' b, add_back m1 b'0' d, add_back m2 b'0' f, c)
              refl
    ]
print_clock-minutes_of _ m e = ground (arith, e)

minutes_of_iff : (l : List ℕ) (m : ℕ) → (minutes_of l ≡ some m) ↔ ((l ≡ print_clock m) × (m < 1440))
minutes_of_iff l m = (
  (λ e. (sym (print_clock-minutes_of l m e), minutes_of-lt l m e)),
  (λ h. ap minutes_of h.0 ∙ minutes_of-print_clock m h.1),
)

-- A setting is read as a number of minutes exactly when, without the white space at its ends, it is what
-- is printed for them, and they are the minutes of a day.
pub clock_minutes_iff :
    (value : String) (m : ℕ)
    → (clock_minutes value ≡ some m) ↔ ((codes (strip value) ≡ print_clock m) × (m < 1440))
unfolding clock_minutes
clock_minutes_iff value m = minutes_of_iff (codes (strip value)) m
