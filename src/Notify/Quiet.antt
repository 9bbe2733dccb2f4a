-- ===== src/Notify/Quiet.antt =====
-- Quiet hours of linkmoth_notify.py. The local time of day is a parameter: minutes since midnight.
use linkmoth.Prelude.{
  ℕ, ◌+◌, ◌-◌, ◌*◌, String, Bool, false, not, ◌&&◌, ◌||◌, Option, none, some, List, [], ◌∷◌, ltb,
  leb, ◌==◌, if◌then◌else◌,
}
use linkmoth.Text.{codes, strip}

-- The settings, with the defaults filled in.
pub record QuietConfig : Type 0 where
  pub enabled : Bool
  pub start : String
  pub end : String

is_between : ℕ → ℕ → ℕ → Bool
is_between low high c = leb low c && leb c high

-- `([01][0-9]|2[0-3]):([0-5][0-9])`, on the five characters.
unfoldable pub is_clock : ℕ → ℕ → ℕ → ℕ → ℕ → Bool
unfolding is_between
is_clock h1 h2 colon m1 m2 =
    ((is_between b'0' b'1' h1 && is_between b'0' b'9' h2)
      || (h1 == b'2' && is_between b'0' b'3' h2))
    && (colon == b':' && (is_between b'0' b'5' m1 && is_between b'0' b'9' m2))

-- The match and the arithmetic of `validate_quiet_time` and `_clock_minutes`, on the characters of a
-- stripped text; `none` for the ValueError.
unfoldable pub minutes_of : List ℕ → Option ℕ
minutes_of (h1 ∷ h2 ∷ colon ∷ m1 ∷ m2 ∷ []) =
    if is_clock h1 h2 colon m1 m2
    then some (((h1 - b'0') * 10 + (h2 - b'0')) * 60 + ((m1 - b'0') * 10 + (m2 - b'0')))
    else none
minutes_of _ = none

-- `_clock_minutes`, with the strip of `validate_quiet_time`.
unfoldable pub clock_minutes : String → Option ℕ
clock_minutes value = minutes_of (codes (strip value))

abbrev in_hours : ℕ → ℕ → ℕ → Bool
in_hours start end current =
    if start == end
    then false
    else if ltb start end
    then leb start current && ltb current end
    else leb start current || ltb current end

-- `quiet_hours_active`.
unfoldable pub quiet_hours_active : QuietConfig → ℕ → Bool
quiet_hours_active cfg current = if not cfg.enabled then false else elim (clock_minutes cfg.start) [
  | none ↦ false
  | some start ↦ elim (clock_minutes cfg.end) [
    | none ↦ false
    | some end ↦ in_hours start end current
  ]
]
