-- ===== src/Diagnosis/Verdict.antt =====
-- The verdicts of linkmoth_probes.py, and the one that composes its texts: a local resolver that
-- stopped answering, with the hint of `_local_dns_failure_hint`.
use Prim.Native.String
use linkmoth.Prelude.{
  String, not, Option, none, some, List, [], ◌∷◌, keep, map, str_eq, if◌then◌else◌,
}
use linkmoth.Text.{contains_lower, join, is_empty}
use linkmoth.Diagnosis.Check.{MicroStep, Check, is_false}

pub data Severity : Type 0 where
  ok warn bad : Severity

-- The codes of the verdicts; `pihole_broken` is stored by older versions only.
pub data FaultCode : Type 0 where
  pi_link router_down wan_down restricted_connectivity local_dns_broken upstream_dns_down :
      FaultCode
  partial_routing web_broken host_power link_degraded router_wlan_down all_clear : FaultCode
  pihole_broken : FaultCode

-- The code as the text that is stored and sent.
unfoldable pub code_text : FaultCode → String
code_text pi_link = "pi_link"
code_text router_down = "router_down"
code_text wan_down = "wan_down"
code_text restricted_connectivity = "restricted_connectivity"
code_text local_dns_broken = "local_dns_broken"
code_text upstream_dns_down = "upstream_dns_down"
code_text partial_routing = "partial_routing"
code_text web_broken = "web_broken"
code_text host_power = "host_power"
code_text link_degraded = "link_degraded"
code_text router_wlan_down = "router_wlan_down"
code_text all_clear = "all_clear"
code_text pihole_broken = "pihole_broken"

pub record Verdict : Type 0 where
  pub severity : Severity
  pub code : FaultCode
  pub title : String
  pub explain : String
  pub hint : String

infixr 66 ◌<>◌
abbrev pub ◌<>◌ : String → String → String
a <> b = String.◌++◌ a b

record Adapter : Type 0 where
  name : String
  service : String

-- `LOCAL_DNS_ADAPTERS.get(provider)`.
adapter_of : String → Option Adapter
adapter_of provider =
    if str_eq provider "pihole"
    then some (record { name = "Pi-hole"; service = "pihole-FTL" })
    else if str_eq provider "unbound"
    then some (record { name = "Unbound"; service = "unbound" })
    else if str_eq provider "dnsmasq"
    then some (record { name = "dnsmasq"; service = "dnsmasq" })
    else none

abbrev get_or : Option String → String → String
get_or none d = d
get_or (some s) d = if is_empty s then d else s

disk_hint : Option Adapter → String
disk_hint none = "Free disk space on the Linkmoth host."
disk_hint (some a) = "Free disk space on the Linkmoth host" <> ", then restart " <> a.name <> "."

service_hint : Adapter → String → String
service_hint a detail =
    if contains_lower "not found" detail
    then "Check the " <> a.name
      <> " service or container on the Linkmoth host and confirm it is listening on port 53."
    else "SSH to the Linkmoth host and run: sudo systemctl restart " <> a.service

-- The loop over the micro steps; `none` when no step decides.
step_hint : Option Adapter → List MicroStep → Option String
step_hint adapter [] = none
step_hint adapter (step ∷ steps) =
    let rest = step_hint adapter steps in
    if not (is_false step.ok)
    then rest
    else if contains_lower "disk" step.label
    then some (disk_hint adapter)
    else elim adapter [
      | none ↦ rest
      | some a ↦
          if contains_lower "service" step.label then some (service_hint a step.detail) else rest
    ]

local_dns_failure_hint : Check → String
unfolding step_hint adapter_of disk_hint service_hint
local_dns_failure_hint check =
    elim (step_hint (adapter_of (get_or check.provider "generic")) check.micro) [
      | some hint ↦ hint
      | none ↦
          "Check the local resolver service and confirm it is listening on "
          <> get_or check.address "the configured address"
          <> " port 53."
    ]

provider_sentence : Option String → String
provider_sentence none = ""
provider_sentence (some name) =
    if is_empty name then "" else " The same-host resolver is " <> name <> "."

cause_sentence : List MicroStep → String
cause_sentence [] = ""
cause_sentence (step ∷ steps) =
    " Likely cause: " <> join "; " (map (λ m. m.detail) (step ∷ steps)) <> "."

unfoldable pub local_dns_verdict : Check → Verdict
unfolding local_dns_failure_hint provider_sentence cause_sentence
local_dns_verdict local = record {
  severity = bad;
  code = local_dns_broken;
  title = "Local DNS resolver stopped answering – internet itself is fine";
  explain =
      "Router and upstream DNS respond, but the configured local DNS resolver does not. Devices that use it may lose name resolution."
      <> provider_sentence local.provider_name
      <> cause_sentence (keep (λ m. is_false m.ok) local.micro);
  hint = local_dns_failure_hint local;
}
