-- ===== src/Diagnosis/Global.antt =====
-- The test for a network-wide outage: linkmoth_kuma_proxy.py and `is_global_fault_code` of
-- linkmoth_outage.py.
use linkmoth.Prelude.{
  Bool, true, false, not, ◌&&◌, Option, none, some, List, [], ◌∷◌, if◌then◌else◌,
}
use linkmoth.Diagnosis.Check.{
  gateway, upstream_dns, raw_ping, https, Check, is_false, is_true, ok_of,
}
use linkmoth.Diagnosis.Verdict.{
  Severity, ok, FaultCode, pi_link, router_down, wan_down, all_clear, Verdict,
}

-- The two keys of a verdict's dictionary that the test reads; a stored row may lack them.
pub record Judgement : Type 0 where
  pub severity : Option Severity
  pub code : Option FaultCode

abbrev pub judge : Verdict → Judgement
judge v = record { severity = some v.severity; code = some v.code }

-- Membership in `GLOBAL_OUTAGE_CODES`.
abbrev pub is_outage_code : FaultCode → Bool
is_outage_code pi_link = true
is_outage_code router_down = true
is_outage_code wan_down = true
is_outage_code _ = false

unfoldable pub is_global_fault_code : Option FaultCode → Bool
is_global_fault_code none = false
is_global_fault_code (some code) = is_outage_code code

unfoldable pub is_global_outage : Option Judgement → Bool
unfolding is_global_fault_code
is_global_outage none = false
is_global_outage (some verdict) = is_global_fault_code verdict.code

abbrev is_ok_severity : Option Severity → Bool
is_ok_severity (some ok) = true
is_ok_severity _ = false

abbrev is_clear_code : Option FaultCode → Bool
is_clear_code (some all_clear) = true
is_clear_code _ = false

-- The rungs' evidence for a broken path beyond the router: direct DNS and ping are dead behind a
-- gateway that is not down, and no HTTPS request succeeded.
unfoldable pub path_is_dead : List Check → Bool
path_is_dead [] = false
path_is_dead (ch ∷ rest) =
    let checks = ch ∷ rest in
    not (is_false (ok_of checks gateway))
    && is_false (ok_of checks upstream_dns)
    && is_false (ok_of checks raw_ping)
    && not (is_true (ok_of checks https))

unfoldable pub is_effective_global_outage : Option Judgement → List Check → Bool
unfolding is_global_outage path_is_dead
is_effective_global_outage none checks = false
is_effective_global_outage (some verdict) checks =
    if is_ok_severity verdict.severity
    then false
    else if is_clear_code verdict.code
    then false
    else if is_global_outage (some verdict)
    then true
    else path_is_dead checks
