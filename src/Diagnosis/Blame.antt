-- ===== src/Diagnosis/Blame.antt =====
-- What the verdict of linkmoth_probes.py says of a run of the fault ladder, rung by rung.
use linkmoth.Prelude.{
  ◌≡◌, refl, inl, inr, Bool, Option, none, some, List, [], ◌∷◌, arith, keep, Option-cases,
  if◌then◌else◌,
}
use linkmoth.Diagnosis.Check.{
  CheckId, power, link, gateway, router_wlan, local_dns, upstream_dns, raw_ping, https, CheckState,
  Check, is_false, has_warning_mark, normalize_stored_checks,
}
use linkmoth.Diagnosis.Verdict.{
  FaultCode, pi_link, router_down, wan_down, restricted_connectivity, local_dns_broken,
  upstream_dns_down, partial_routing, web_broken, host_power, link_degraded, router_wlan_down,
  all_clear, Verdict, Severity, ok, warn, bad,
}
use linkmoth.Diagnosis.Rules.{
  verdict, verdict_of, first_fault, healthy_path, note_power, is_partial, clear_verdict_lem,
}

-- The code and the severity of a verdict.
abbrev pub judged : Option Verdict → Option (FaultCode × Severity)
judged none = none
judged (some v) = some (v.code, v.severity)

-- The severity that the chain gives with each code.
abbrev pub base_severity : FaultCode → Severity
base_severity pi_link = bad
base_severity router_down = bad
base_severity wan_down = bad
base_severity local_dns_broken = bad
base_severity upstream_dns_down = bad
base_severity all_clear = ok
base_severity _ = warn

abbrev pub keyed : CheckId → CheckState → Check → Check
keyed cid s ch = record ch { id = cid; state = some s }

-- The failures of a run's rungs.
pub record Failures : Type 0 where
  pub power : Bool
  pub link : Bool
  pub marked : Bool
  pub gateway : Bool
  pub router_wlan : Bool
  pub local_dns : Bool
  pub upstream_dns : Bool
  pub raw_ping : Bool
  pub https : Bool

unfoldable pub blame : Failures → FaultCode
blame f =
    if f.link
    then pi_link
    else if f.gateway
    then router_down
    else if f.upstream_dns
    then if f.raw_ping
      then if f.https then wan_down else restricted_connectivity
      else upstream_dns_down
    else if f.local_dns
    then local_dns_broken
    else if f.raw_ping
    then partial_routing
    else if f.https
    then web_broken
    else if f.power
    then host_power
    else if f.marked
    then link_degraded
    else if f.router_wlan
    then router_wlan_down
    else all_clear

abbrev pub failures : Check → Check → Check → Check → Check → Check → Check → Check → Failures
failures p l g w d u y h = record {
  power = is_false p.ok;
  link = is_false l.ok;
  marked = has_warning_mark l.detail;
  gateway = is_false g.ok;
  router_wlan = is_false w.ok;
  local_dns = is_false d.ok;
  upstream_dns = is_false u.ok;
  raw_ping = is_false y.ok;
  https = is_false h.ok;
}

module _ (p l g w d u y h : Check) (sp sl sg sw sd su sy sh : CheckState) where
  abbrev pub rungs : List Check
  rungs =
      keyed power sp p
      ∷ keyed link sl l
      ∷ keyed gateway sg g
      ∷ keyed router_wlan sw w
      ∷ keyed local_dns sd d
      ∷ keyed upstream_dns su u
      ∷ keyed raw_ping sy y
      ∷ keyed https sh h
      ∷ []

  judged-healthy_path :
      judged (healthy_path rungs)
      ≡ some (
          if is_false p.ok
          then (host_power, warn)
          else if has_warning_mark l.detail
          then (link_degraded, warn)
          else if is_false w.ok
          then (router_wlan_down, warn)
          else (all_clear, ok))
  unfolding healthy_path
  judged-healthy_path = ground (arith, clear_verdict_lem (keep is_partial rungs))

  judged-first_fault :
      judged (first_fault rungs)
      ≡ some (blame (failures p l g w d u y h), base_severity (blame (failures p l g w d u y h)))
  unfolding first_fault blame
  judged-first_fault = ground (arith, judged-healthy_path)

  -- A power problem lifts `ok` to `warn`; it cannot meet `all_clear`.
  pub judged-verdict_of :
      judged (verdict_of rungs)
      ≡ some (blame (failures p l g w d u y h), base_severity (blame (failures p l g w d u y h)))
  unfolding verdict_of blame note_power
  judged-verdict_of = elim (Option-cases (first_fault rungs)) [
    | inl missing ↦ cc (judged-first_fault, missing)
    | inr (v, found) ↦ rw found (ground (arith, judged-first_fault))
  ]

  pub normalize-rungs : normalize_stored_checks rungs ≡ rungs
  unfolding normalize_stored_checks
  normalize-rungs = refl

  pub judged-verdict :
      judged (verdict rungs)
      ≡ some (blame (failures p l g w d u y h), base_severity (blame (failures p l g w d u y h)))
  unfolding verdict
  judged-verdict = judged-verdict_of
