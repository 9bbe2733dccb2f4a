-- ===== src/Diagnosis/Ladder.antt =====
-- `run_ladder` of linkmoth_probes.py: the rungs of one diagnosis run, from the readings of the host.
use Prim.Native.String
use linkmoth.Prelude.{
  ℕ, String, Bool, true, false, not, ◌&&◌, Option, none, some, List, [], ◌∷◌, str_eq, if◌then◌else◌,
}
use linkmoth.Diagnosis.Check.{
  CheckId, power, link, gateway, router_wlan, local_dns, upstream_dns, raw_ping, https, CheckState,
  skipped, passed, failed, degraded, MicroStep, Check, has_warning_mark,
}
use linkmoth.Diagnosis.Probes.{
  Reading, Evidence, Group, WlanResult, WlanText, probe_group, check_router_wlan,
}

pub data DnsMode : Type 0 where
  auto enabled disabled : DnsMode

-- What one run reads from the host and the network: the results of `check_power`, `check_link`,
-- `default_route`, `ping`, `dig`, `http_get`, `local_dns_runtime_info` and `micro_local_dns`.
pub record Readings : Type 0 where
  pub power : Option Bool × String
  pub route_gateway : Option String
  pub route_device : Option String
  pub link : Bool × String
  pub gateway_ping : Reading
  pub wifi_clients : List (String × Reading)
  pub dns_mode : DnsMode
  pub dns_address : String
  pub same_host : Bool
  pub effective_provider : String
  pub provider_name : Option String
  pub dns_answer : Reading
  pub dns_micro : List MicroStep
  pub upstream_dns : List (String × Reading)
  pub ping_targets : List (String × Reading)
  pub https_targets : List (String × Reading)

plain_state : Option Bool → CheckState
plain_state none = skipped
plain_state (some true) = passed
plain_state (some false) = failed

-- `add(cid, label, ok, detail, ms)` with no further keys.
unfoldable pub rung : CheckId → String → Option Bool → String → Option ℕ → Check
unfolding plain_state
rung cid label ok detail ms = record {
  id = cid;
  label = label;
  ok = ok;
  state = some (plain_state ok);
  detail = detail;
  ms = ms;
  micro = [];
  provider = none;
  provider_name = none;
  address = none;
  interface = none;
  target = none;
  probe_summary = none;
  probes = [];
}

-- `add(…, **evidence)`.
with_evidence : Evidence → Check → Check
with_evidence e check = record check {
  state = some e.state;
  probe_summary = some e.probe_summary;
  probes = e.probes;
}

unfoldable pub link_rung : Readings → Check
unfolding rung
link_rung r =
    let check = rung link "Host network link" (some r.link.0) r.link.1 none in
    record check {
      state = if r.link.0 && has_warning_mark r.link.1 then some degraded else check.state;
      interface = r.route_device;
    }

unfoldable pub gateway_rung : Readings → Check
unfolding rung
gateway_rung r = elim r.route_gateway [
  | none ↦ rung gateway "Router (LAN)" (some false) "no default gateway" none
  | some gw ↦
      record (rung gateway "Router (LAN)" (some r.gateway_ping.ok) r.gateway_ping.detail
        r.gateway_ping.ms) { target = some gw }
]

unfoldable pub gateway_ok : Readings → Bool
gateway_ok r = elim r.route_gateway [ none ↦ false | some gw ↦ r.gateway_ping.ok ]

wlan_evidence : Option Evidence → Check → Check
unfolding with_evidence
wlan_evidence none check = check
wlan_evidence (some e) check = with_evidence e check

unfoldable pub wlan_rung : WlanResult → Check
unfolding rung wlan_evidence
wlan_rung w = elim w.ok [
  | none ↦ rung router_wlan "Router Wi-Fi" none w.detail none
  | some ok ↦ wlan_evidence w.evidence (rung router_wlan "Router Wi-Fi" (some ok) w.detail none)
]

named_detail : Option String → String → String
named_detail none detail = detail
named_detail (some name) detail = String.◌++◌ name (String.◌++◌ " · " detail)

abbrev is_some {ℓ} : {A : Type ℓ} → Option A → Bool
is_some none = false
is_some (some a) = true

answered_dns_rung : Readings → Check
unfolding rung named_detail
answered_dns_rung r =
    record (rung local_dns "Local DNS resolver" (some r.dns_answer.ok)
      (named_detail r.provider_name r.dns_answer.detail) r.dns_answer.ms) {
        micro =
            if not r.dns_answer.ok && (r.same_host && is_some r.provider_name)
            then r.dns_micro
            else [];
        provider = some r.effective_provider;
        provider_name = r.provider_name;
        address = some r.dns_address;
      }

skipped_dns_rung : String → String → Check
unfolding rung
skipped_dns_rung address detail = record (rung local_dns "Local DNS resolver" none detail none) {
  provider = some "generic";
  address = some address;
}

unfoldable pub local_dns_rung : DnsMode → Readings → Check
unfolding skipped_dns_rung answered_dns_rung
local_dns_rung disabled r = skipped_dns_rung r.dns_address "disabled in config"
local_dns_rung auto r =
    if r.same_host && (str_eq r.effective_provider "generic" && not r.dns_answer.ok)
    then skipped_dns_rung r.dns_address "no same-host DNS resolver detected – skipped"
    else answered_dns_rung r
local_dns_rung enabled r = answered_dns_rung r

unfoldable pub group_rung : CheckId → String → Group → Check
unfolding rung with_evidence
group_rung cid label g = with_evidence g.evidence (rung cid label (some g.ok) g.detail g.ms)

unfoldable pub run_ladder : WlanText → Readings → List Check
run_ladder text r =
    rung power "Host power" r.power.0 r.power.1 none
    ∷ link_rung r
    ∷ gateway_rung r
    ∷ wlan_rung (check_router_wlan text (gateway_ok r) r.wifi_clients)
    ∷ local_dns_rung r.dns_mode r
    ∷ group_rung upstream_dns "Upstream DNS (direct)" (probe_group r.upstream_dns)
    ∷ group_rung raw_ping "Raw internet (ping)" (probe_group r.ping_targets)
    ∷ group_rung https "Web (HTTPS)" (probe_group r.https_targets)
    ∷ []
