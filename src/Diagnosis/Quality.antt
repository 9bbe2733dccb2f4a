-- ===== src/Diagnosis/Quality.antt =====
-- The confidence in a verdict and the grade of a quality sample: `confidence_assessment` and
-- `classify_quality` of linkmoth_probes.py.
use linkmoth.Prelude.{
  ℕ, String, Bool, true, false, ◌||◌, Option, none, some, List, [], ◌∷◌, ◌++◌, leb, ltb,
  if◌then◌else◌,
}
use linkmoth.Diagnosis.Check.{
  link, power, router_wlan, upstream_dns, raw_ping, https, CheckId, partial, Check, is_false, ok_of,
  state_of,
}

pub data Confidence : Type 0 where
  low medium high : Confidence

pub record Assessment : Type 0 where
  pub level : Confidence
  pub reason : String

abbrev is_partial : List Check → CheckId → Bool
is_partial c cid = elim (state_of c cid) [ some partial ↦ true | _ ↦ false ]

-- Some redundant rung has targets that disagree.
abbrev pub disagrees : List Check → Bool
disagrees c =
    is_partial c router_wlan
    || is_partial c upstream_dns
    || is_partial c raw_ping
    || is_partial c https

unfoldable pub confidence_assessment : List Check → Assessment
confidence_assessment c =
    if is_false (ok_of c link)
    then record {
      level = low;
      reason =
          "Linkmoth's own network link failed, so it cannot reliably judge anything beyond the host.";
    }
    else if is_false (ok_of c power)
    then record {
      level = medium;
      reason =
          "The host reports a power problem; undervoltage can create misleading network symptoms.";
    }
    else if is_false (ok_of c router_wlan)
    then record {
      level = medium;
      reason =
          "Wi-Fi witnesses disagreed; they are supporting evidence, not a definitive router verdict.";
    }
    else if disagrees c
    then record {
      level = medium;
      reason =
          "Redundant targets disagreed, so Linkmoth found a usable path but not unanimous evidence.";
    }
    else record {
      level = high;
      reason = "The Linkmoth host was healthy and the relevant independent checks agreed.";
    }

unfoldable pub confidence_from_checks : List Check → Confidence
unfolding confidence_assessment
confidence_from_checks checks = (confidence_assessment checks).level

pub data QualityState : Type 0 where
  good fair poor unknown : QualityState

-- The sentences of `reasons`, with the number that each one prints.
pub data Reason : Type 0 where
  packet_loss high_latency elevated_latency high_jitter jitter : ℕ → Reason
  no_measurement : Reason

pub record QualityConfig : Type 0 where
  pub loss_warn_pct : ℕ
  pub loss_bad_pct : ℕ
  pub latency_warn_ms : ℕ
  pub latency_bad_ms : ℕ
  pub jitter_warn_ms : ℕ
  pub jitter_bad_ms : ℕ

pub record Grade : Type 0 where
  pub state : QualityState
  pub reasons : List Reason

-- `order`; `unknown` is never graded.
abbrev pub order : QualityState → ℕ
order good = 0
order fair = 1
order poor = 2
order unknown = 0

worse : QualityState → Reason → Grade → Grade
worse level why g = record {
  state = if ltb (order g.state) (order level) then level else g.state;
  reasons = g.reasons ++ why ∷ [];
}

-- One measurement against its two limits.
grade : Option ℕ → ℕ → ℕ → (ℕ → Reason) → (ℕ → Reason) → Grade → Grade
unfolding worse
grade none warn_at bad_at warn_why bad_why g = g
grade (some x) warn_at bad_at warn_why bad_why g =
    if leb bad_at x
    then worse poor (bad_why x) g
    else if leb warn_at x
    then worse fair (warn_why x) g
    else g

unfoldable pub classify_quality : Option ℕ → Option ℕ → Option ℕ → QualityConfig → Grade
unfolding grade
classify_quality none none none qcfg = record { state = unknown; reasons = no_measurement ∷ [] }
classify_quality latency_ms jitter_ms loss_pct qcfg =
    let start : Grade = record { state = good; reasons = [] } in
    let losses =
      grade loss_pct qcfg.loss_warn_pct qcfg.loss_bad_pct packet_loss packet_loss start in
    let latencies =
      grade latency_ms qcfg.latency_warn_ms qcfg.latency_bad_ms elevated_latency high_latency
        losses in
    grade jitter_ms qcfg.jitter_warn_ms qcfg.jitter_bad_ms jitter high_jitter latencies
