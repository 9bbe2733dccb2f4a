-- ===== src/Notify/Hours.antt =====
-- Quiet hours of linkmoth_notify.py are an interval of the clock's circle.
use linkmoth.Prelude.{ℕ, ◌+◌, ◌-◌, ◌%◌, ◌<◌, ◌≡◌, String, ◌&&◌, some, List, [], ◌∷◌, ltb, arith}
use linkmoth.Text.{codes, strip}
use linkmoth.Notify.Quiet.{QuietConfig, is_clock, minutes_of, clock_minutes, quiet_hours_active}

-- How many minutes after `start` the clock shows `t`.
abbrev pub minutes_after : ℕ → ℕ → ℕ
minutes_after start t = (t + 1440 - start) % 1440

pub minutes_of-lt : (l : List ℕ) (m : ℕ) → minutes_of l ≡ some m → m < 1440
unfolding minutes_of is_clock
minutes_of-lt (h1 ∷ h2 ∷ colon ∷ m1 ∷ m2 ∷ []) m e = ground (arith, e)
minutes_of-lt _ m e = ground (arith, e)

clock_minutes-lt : (s : String) (m : ℕ) → clock_minutes s ≡ some m → m < 1440
unfolding clock_minutes
clock_minutes-lt s m e = minutes_of-lt (codes (strip s)) m e

-- With readable settings, quiet hours are in force exactly when they are enabled and fewer minutes have
-- passed since their start than lie between their start and their end on the clock, midnight or not.
pub quiet_hours_active_iff :
    (cfg : QuietConfig) (start end current : ℕ)
    → clock_minutes cfg.start ≡ some start
    → clock_minutes cfg.end ≡ some end
    → current < 1440
    → quiet_hours_active cfg current
      ≡ (cfg.enabled && ltb (minutes_after start current) (minutes_after start end))
unfolding quiet_hours_active
quiet_hours_active_iff cfg start end current s e h =
    ground (arith, s, e, h, clock_minutes-lt cfg.start start s, clock_minutes-lt cfg.end end e)
