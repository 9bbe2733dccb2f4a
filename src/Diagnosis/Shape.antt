-- ===== src/Diagnosis/Shape.antt =====
-- The rungs that `run_ladder` of linkmoth_probes.py builds: their keys, and which of them fail.
use linkmoth.Prelude.{
  String, ◌≡◌, ◌≢◌, refl, Bool, true, false, not, ◌&&◌, Option, none, some, List, [], ◌∷◌, arith,
  any, count, map, ltb, str_eq,
}
use linkmoth.Diagnosis.Check.{
  CheckId, power, link, gateway, router_wlan, local_dns, upstream_dns, raw_ping, https, CheckState,
  failed, Check, is_false, has_warning_mark,
}
use linkmoth.Diagnosis.Probes.{
  Reading, Group, WlanText, WlanResult, as_probe, probe_group, check_router_wlan,
}
use linkmoth.Diagnosis.Ladder.{
  DnsMode, auto, enabled, disabled, Readings, rung, link_rung, gateway_rung, gateway_ok, wlan_rung,
  local_dns_rung, group_rung, run_ladder,
}
use linkmoth.Diagnosis.Blame.{keyed, Failures}

-- A rung's keys: its id, and a state of some kind.
abbrev IsRung : CheckId → Check → Type 0
IsRung cid ch = (ch.id ≡ cid) × (ch.state ≢ none)

pub state_or_failed : Option CheckState → CheckState
state_or_failed none = failed
state_or_failed (some s) = s

abbrev shape : CheckId → Check → Check
shape cid ch = keyed cid (state_or_failed ch.state) ch

state_lem : (s : Option CheckState) → s ≢ none → s ≡ some (state_or_failed s)
unfolding state_or_failed
state_lem none h = absurd (h refl)
state_lem (some s) h = refl

IsRung-shape : (cid : CheckId) (ch : Check) → IsRung cid ch → ch ≡ shape cid ch
IsRung-shape cid ch (i, h) = λ k. record ch { id = i k; state = state_lem ch.state h k }

link_rung-IsRung : (r : Readings) → IsRung link (link_rung r)
unfolding link_rung
link_rung-IsRung r = ground arith

gateway_rung-IsRung : (r : Readings) → IsRung gateway (gateway_rung r)
unfolding gateway_rung
gateway_rung-IsRung r = ground arith

wlan_rung-IsRung : (w : WlanResult) → IsRung router_wlan (wlan_rung w)
unfolding wlan_rung
wlan_rung-IsRung w = ground arith

local_dns_rung-IsRung : (m : DnsMode) (r : Readings) → IsRung local_dns (local_dns_rung m r)
unfolding local_dns_rung
local_dns_rung-IsRung m r = ground arith

group_rung-IsRung :
    (cid : CheckId) (label : String) (g : Group) → IsRung cid (group_rung cid label g)
unfolding group_rung
group_rung-IsRung cid label g = ground arith

power_rung-IsRung :
    (good : Option Bool) (detail : String) → IsRung power (rung power "Host power" good detail none)
unfolding rung
power_rung-IsRung good detail = ground arith

abbrev pub power_check : Readings → Check
power_check r = rung power "Host power" r.power.0 r.power.1 none

abbrev pub dns_check : Readings → Check
dns_check r = group_rung upstream_dns "Upstream DNS (direct)" (probe_group r.upstream_dns)

abbrev pub ping_check : Readings → Check
ping_check r = group_rung raw_ping "Raw internet (ping)" (probe_group r.ping_targets)

abbrev pub web_check : Readings → Check
web_check r = group_rung https "Web (HTTPS)" (probe_group r.https_targets)

module _ (text : WlanText) (r : Readings) where
  abbrev pub wlan : Check
  wlan = wlan_rung (check_router_wlan text (gateway_ok r) r.wifi_clients)

  abbrev pub shaped : List Check
  shaped =
      shape power (power_check r)
      ∷ shape link (link_rung r)
      ∷ shape gateway (gateway_rung r)
      ∷ shape router_wlan wlan
      ∷ shape local_dns (local_dns_rung r.dns_mode r)
      ∷ shape upstream_dns (dns_check r)
      ∷ shape raw_ping (ping_check r)
      ∷ shape https (web_check r)
      ∷ []

  pub run_ladder-shaped : run_ladder text r ≡ shaped
  unfolding run_ladder
  run_ladder-shaped = λ k.
      IsRung-shape power (power_check r) (power_rung-IsRung r.power.0 r.power.1) k
      ∷ IsRung-shape link (link_rung r) (link_rung-IsRung r) k
      ∷ IsRung-shape gateway (gateway_rung r) (gateway_rung-IsRung r) k
      ∷ IsRung-shape router_wlan wlan
          (wlan_rung-IsRung (check_router_wlan text (gateway_ok r) r.wifi_clients)) k
      ∷ IsRung-shape local_dns (local_dns_rung r.dns_mode r) (local_dns_rung-IsRung r.dns_mode r) k
      ∷ IsRung-shape upstream_dns (dns_check r)
          (group_rung-IsRung upstream_dns "Upstream DNS (direct)" (probe_group r.upstream_dns)) k
      ∷ IsRung-shape raw_ping (ping_check r)
          (group_rung-IsRung raw_ping "Raw internet (ping)" (probe_group r.ping_targets)) k
      ∷ IsRung-shape https (web_check r)
          (group_rung-IsRung https "Web (HTTPS)" (probe_group r.https_targets)) k
      ∷ []

-- No target of a redundant rung answered.
abbrev pub silent : List (String × Reading) → Bool
silent results = not (any (λ (target, reading). reading.ok) results)

-- The failures of a run, read off the host's readings.
abbrev pub failing : Readings → Failures
failing r = record {
  power = elim r.power.0 [ some false ↦ true | _ ↦ false ];
  link = not r.link.0;
  marked = has_warning_mark r.link.1;
  gateway = not (gateway_ok r);
  router_wlan = elim r.wifi_clients [ [] ↦ false | _ ↦ gateway_ok r && silent r.wifi_clients ];
  local_dns = elim r.dns_mode [
    | disabled ↦ false
    | enabled ↦ not r.dns_answer.ok
    | auto ↦ not r.dns_answer.ok && not (r.same_host && str_eq r.effective_provider "generic")
  ];
  upstream_dns = silent r.upstream_dns;
  raw_ping = silent r.ping_targets;
  https = silent r.https_targets;
}

pub answered :
    (results : List (String × Reading))
    → ltb 0 (count (λ p. p.ok) (map as_probe results))
      ≡ any (λ (target, reading). reading.ok) results
unfolding as_probe
answered [] = refl
answered ((target, reading) ∷ rest) = ground (arith, answered rest)

pub ok-probe_group :
    (results : List (String × Reading)) → (probe_group results).ok ≡ not (silent results)
unfolding probe_group
ok-probe_group results = ground (arith, answered results)

pub ok-group_rung :
    (cid : CheckId) (label : String) (results : List (String × Reading))
    → is_false (group_rung cid label (probe_group results)).ok ≡ silent results
unfolding group_rung is_false
ok-group_rung cid label results = ground (arith, ok-probe_group results)

pub ok-local_dns_rung :
    (r : Readings) → is_false (local_dns_rung r.dns_mode r).ok ≡ (failing r).local_dns
unfolding local_dns_rung is_false
ok-local_dns_rung r = ground arith

pub ok-wlan : (text : WlanText) (r : Readings) → is_false (wlan text r).ok ≡ (failing r).router_wlan
unfolding wlan_rung check_router_wlan is_false
ok-wlan text r = ground (arith, ok-probe_group r.wifi_clients)

pub ok-link_rung :
    (r : Readings) → (is_false (link_rung r).ok ≡ not r.link.0) × ((link_rung r).detail ≡ r.link.1)
unfolding link_rung is_false
ok-link_rung r = ground arith

pub ok-gateway_rung : (r : Readings) → is_false (gateway_rung r).ok ≡ not (gateway_ok r)
unfolding gateway_rung gateway_ok is_false
ok-gateway_rung r = ground arith
