-- ===== src/Devices/Check.antt =====
-- `execute_device` of linkmoth_devices.py: one check of a device. The probes are parameters; `none`
-- stands for an exception that a probe raises.
use linkmoth.Prelude.{ℕ, String, Option, none, some, List, [], ◌∷◌, if◌then◌else◌}
use linkmoth.Diagnosis.Probes.{Reading}
use linkmoth.Diagnosis.Verdict.{◌<>◌}
use linkmoth.Devices.Data.{
  Preset, generic, printer, web_ui, tcp_service, RunState, up, degraded, down, error, WebSettings,
  Settings, no_settings, tcp_port, web, ServiceResult, RunResult, Clean,
}

pub record Probing : Type 0 where
  pub ping : String → Option Reading
  pub tcp : String → ℕ → Reading
  pub http : String → WebSettings → Option Reading
  -- The duration of the check, in milliseconds.
  pub elapsed : ℕ

-- A check with no service probe, with its result, or with an exception.
pub data Service : Type 0 where
  absent : Service
  probed : Reading → Service
  raises : Service

from_option : Option Reading → Service
from_option none = raises
from_option (some r) = probed r

-- Stored settings always fit the preset; where they would not, the lookup of a key raises.
service_of : Probing → Clean → Preset → Settings → Service
unfolding from_option
service_of p device generic _ = absent
service_of p device printer _ = probed (p.tcp device.address 9100)
service_of p device tcp_service (tcp_port port) = probed (p.tcp device.address port)
service_of p device tcp_service no_settings = raises
service_of p device tcp_service (web w) = raises
service_of p device web_ui (web w) = from_option (p.http device.address w)
service_of p device web_ui no_settings = raises
service_of p device web_ui (tcp_port port) = raises

as_result : Reading → ServiceResult
as_result r = record { ok = some r.ok; detail = r.detail; ms = r.ms }

finished : ℕ → RunState → String → List ServiceResult → RunResult
finished elapsed state summary results = record {
  state = state;
  summary = summary;
  duration_ms = elapsed;
  results = results;
  event_ts = none;
}

failed_check : ℕ → RunResult
unfolding finished
failed_check elapsed =
    finished elapsed error "Linkmoth could not complete this device check"
      (record { ok = none; detail = "check error"; ms = none } ∷ [])

judge : ℕ → Reading → Service → RunResult
unfolding finished as_result failed_check
judge elapsed ping absent =
    if ping.ok
    then finished elapsed up ping.detail (as_result ping ∷ [])
    else finished elapsed down ("No usable response – " <> ping.detail) (as_result ping ∷ [])
judge elapsed ping (probed service) =
    let results = as_result ping ∷ as_result service ∷ [] in
    if service.ok
    then finished elapsed up service.detail results
    else if ping.ok
    then finished elapsed degraded ("Reachable, but " <> service.detail) results
    else finished elapsed down ("No usable response – " <> service.detail) results
judge elapsed ping raises = failed_check elapsed

unfoldable pub execute_device : Probing → Clean → RunResult
unfolding judge service_of
execute_device p device = elim (p.ping device.address) [
  | none ↦ failed_check p.elapsed
  | some ping ↦ judge p.elapsed ping (service_of p device device.preset device.settings)
]
