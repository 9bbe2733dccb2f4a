-- ===== src/Diagnosis/Probes.antt =====
-- Redundant probes: `probe_group` and `check_router_wlan` of linkmoth_probes.py. A probe's result
-- is the triple that `ping`, `dig` and `http_get` return; times are tenths of a millisecond.
use linkmoth.Prelude.{
  ℕ, ◌-◌, String, Bool, true, false, Option, none, some, List, [], ◌∷◌, map, length, count, keep,
  min, ltb, ◌==◌, if◌then◌else◌,
}
use linkmoth.Text.{truncate, join, is_empty}
use linkmoth.Diagnosis.Check.{Probe, ProbeSummary, CheckState, passed, failed, partial}

pub record Reading : Type 0 where
  pub ok : Bool
  pub detail : String
  pub ms : Option ℕ

pub record Evidence : Type 0 where
  pub state : CheckState
  pub probe_summary : ProbeSummary
  pub probes : List Probe

pub record Group : Type 0 where
  pub ok : Bool
  pub detail : String
  pub ms : Option ℕ
  pub evidence : Evidence

unfoldable pub as_probe : String × Reading → Probe
as_probe (target, r) = record {
  target = truncate 253 target;
  ok = r.ok;
  detail = truncate 500 r.detail;
  ms = r.ms;
}

-- The times of the probes that answered.
abbrev pub times : List (String × Reading) → List ℕ
times [] = []
times ((target, r) ∷ rest) =
    let later = times rest in
    if r.ok then elim r.ms [ none ↦ later | some ms ↦ ms ∷ later ] else later

-- `min(ms_values) if ms_values else None`.
abbrev pub least : List ℕ → Option ℕ
least [] = none
least (m ∷ rest) = elim (least rest) [ none ↦ some m | some n ↦ some (min m n) ]

abbrev details : List Probe → List String
details probes = keep (λ d. if is_empty d then false else true) (map (λ p. p.detail) probes)

unfoldable pub group_state : ℕ → ℕ → CheckState
group_state passes failures =
    if passes == 0 then failed else if ltb 0 failures then partial else passed

unfoldable pub probe_group : List (String × Reading) → Group
unfolding as_probe group_state
probe_group results =
    let probes = map as_probe results in
    let attempted = length probes in
    let passes = count (λ p. p.ok) probes in
    let failures = attempted - passes in
    record {
      ok = ltb 0 passes;
      detail = join "; " (details probes);
      ms = least (times results);
      evidence = record {
        state = group_state passes failures;
        probe_summary = record { attempted = attempted; passed = passes; failed = failures };
        probes = probes;
      };
    }

-- What `check_router_wlan` reports: no verdict, or the group of the witnesses' pings.
pub record WlanResult : Type 0 where
  pub ok : Option Bool
  pub detail : String
  pub evidence : Option Evidence

-- The sentence that counts the witnesses is a parameter: it prints two numbers.
pub record WlanText : Type 0 where
  pub replied : ℕ → ℕ → String → String
  pub silent : ℕ → String

-- `results` holds the configured clients with their pings, which are made only where they are read.
unfoldable pub check_router_wlan : WlanText → Bool → List (String × Reading) → WlanResult
check_router_wlan text gateway_ok [] = record {
  ok = none;
  detail = "not configured";
  evidence = none;
}
check_router_wlan text gateway_ok (client ∷ rest) =
    if gateway_ok
    then (let group = probe_group (client ∷ rest) in
        let summary = group.evidence.probe_summary in
        record {
          ok = some group.ok;
          detail =
              if group.ok
              then text.replied summary.passed summary.attempted group.detail
              else text.silent summary.attempted;
          evidence = some group.evidence;
        })
    else record { ok = none; detail = "router LAN unreachable – skipped"; evidence = none }
