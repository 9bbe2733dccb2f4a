-- ===== src/Diagnosis/Grades.antt =====
-- What `classify_quality` of linkmoth_probes.py promises of its grades.
use linkmoth.Prelude.{ℕ, ◌≤◌, ◌≡◌, ◌↔◌, ◌⊎◌, Option, none, some, arith}
use linkmoth.Diagnosis.Quality.{poor, fair, good, unknown, QualityConfig, classify_quality}

-- A measurement that was made and reaches a limit.
abbrev pub Reaches : ℕ → Option ℕ → Type 0
Reaches limit none = ⊥
Reaches limit (some x) = limit ≤ x

-- Some measurement reaches its bad limit, or its warning limit.
abbrev pub IsBad : Option ℕ → Option ℕ → Option ℕ → QualityConfig → Type 0
IsBad latency jitter loss q =
    Reaches q.latency_bad_ms latency ⊎ Reaches q.jitter_bad_ms jitter ⊎ Reaches q.loss_bad_pct loss

abbrev pub IsWarned : Option ℕ → Option ℕ → Option ℕ → QualityConfig → Type 0
IsWarned latency jitter loss q =
    Reaches q.latency_warn_ms latency
    ⊎ Reaches q.jitter_warn_ms jitter
    ⊎ Reaches q.loss_warn_pct loss

abbrev pub IsUnmeasured : Option ℕ → Option ℕ → Option ℕ → Type 0
IsUnmeasured latency jitter loss = (latency ≡ none) × (jitter ≡ none) × (loss ≡ none)

-- The four states of a sample, whatever was measured: poor exactly when some measurement that was made
-- reaches its bad limit, fair exactly when none does and some reaches its warning limit, good exactly
-- when none reaches either limit and something was measured, unknown exactly when nothing was measured.
pub classify_quality_iff :
    (latency jitter loss : Option ℕ) (q : QualityConfig)
    → (((classify_quality latency jitter loss q).state ≡ poor) ↔ IsBad latency jitter loss q)
      × (((classify_quality latency jitter loss q).state ≡ fair)
          ↔ (¬ IsBad latency jitter loss q × IsWarned latency jitter loss q))
      × (((classify_quality latency jitter loss q).state ≡ good) ↔ (
          ¬ IsBad latency jitter loss q
          × ¬ IsWarned latency jitter loss q
          × ¬ IsUnmeasured latency jitter loss))
      × (((classify_quality latency jitter loss q).state ≡ unknown)
          ↔ IsUnmeasured latency jitter loss)
unfolding classify_quality
classify_quality_iff none none none q = (ground arith, ground arith, ground arith, ground arith)
classify_quality_iff none none (some p) q = (ground arith, ground arith, ground arith, ground arith)
classify_quality_iff none (some j) none q = (ground arith, ground arith, ground arith, ground arith)
classify_quality_iff none (some j) (some p) q =
    (ground arith, ground arith, ground arith, ground arith)
classify_quality_iff (some l) none none q = (ground arith, ground arith, ground arith, ground arith)
classify_quality_iff (some l) none (some p) q =
    (ground arith, ground arith, ground arith, ground arith)
classify_quality_iff (some l) (some j) none q =
    (ground arith, ground arith, ground arith, ground arith)
classify_quality_iff (some l) (some j) (some p) q =
    (ground arith, ground arith, ground arith, ground arith)
