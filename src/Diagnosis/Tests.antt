-- ===== src/Diagnosis/Tests.antt =====
-- Runs of the ladder's model, and the theorems at concrete inputs.
use linkmoth.Prelude.{refl, ◌≡◌, ◌≢◌, ◌↔◌, true, false, none, some, [], ◌∷◌}
use linkmoth.Diagnosis.Check.{has_warning_mark}
use linkmoth.Diagnosis.Probes.{Reading, WlanText}
use linkmoth.Diagnosis.Ladder.{Readings, auto, gateway_ok, run_ladder}
use linkmoth.Diagnosis.Verdict.{Verdict, ok, wan_down}
use linkmoth.Diagnosis.Global.{judge, is_outage_code, is_effective_global_outage}
use linkmoth.Diagnosis.Quality.{poor, fair, good, unknown, QualityConfig, classify_quality}
use linkmoth.Diagnosis.Shape.{silent, failing}
use linkmoth.Diagnosis.Agreement.{effective-run_ladder}
use linkmoth.Diagnosis.Grades.{IsBad, IsWarned, IsUnmeasured, classify_quality_iff}
use linkmoth.Diagnosis.Rules.{verdict}
use linkmoth.Diagnosis.Faults.{verdict-run_ladder, code-wan_down_iff, severity-ok_iff}
use linkmoth.Diagnosis.Cache.{arrives, claims, runs, step_call, look, take_lock}
use linkmoth.Diagnosis.Flight.{System, IsFlight, Run, start, then_step, calls, steps, Run-IsFlight}

abbrev text : WlanText
text = record { replied = λ p a d. d; silent = λ a. "silent" }

abbrev answer : Reading
answer = record { ok = true; detail = "12 ms"; ms = some 120 }

abbrev no_reply : Reading
no_reply = record { ok = false; detail = "no reply"; ms = none }

abbrev cut_off : Readings
cut_off = record {
  power = (none, "n/a");
  route_gateway = some "192.168.1.1";
  route_device = some "eth0";
  link = (true, "eth0: link up");
  gateway_ping = answer;
  wifi_clients = [];
  dns_mode = auto;
  dns_address = "127.0.0.1";
  same_host = true;
  effective_provider = "generic";
  provider_name = none;
  dns_answer = no_reply;
  dns_micro = [];
  upstream_dns = ("1.1.1.1", no_reply) ∷ ("8.8.8.8", no_reply) ∷ [];
  ping_targets = ("1.1.1.1", no_reply) ∷ [];
  https_targets = ("gstatic", no_reply) ∷ [];
}

abbrev dead : Verdict
dead = (verdict-run_ladder text cut_off).0

verdict-run_ladder_example : (v : Verdict) × (verdict (run_ladder text cut_off) ≡ some v)
verdict-run_ladder_example = verdict-run_ladder text cut_off

code-wan_down_iff_example : (dead.code ≡ wan_down) ↔ (
    (cut_off.link.0 ≡ true)
    × (gateway_ok cut_off ≡ true)
    × (silent cut_off.upstream_dns ≡ true)
    × (silent cut_off.ping_targets ≡ true)
    × (silent cut_off.https_targets ≡ true))
code-wan_down_iff_example = code-wan_down_iff text cut_off dead (verdict-run_ladder text cut_off).1

severity-ok_iff_example : (dead.severity ≡ ok) ↔ (
    (cut_off.power.0 ≢ some false)
    × (cut_off.link.0 ≡ true)
    × (has_warning_mark cut_off.link.1 ≡ false)
    × (gateway_ok cut_off ≡ true)
    × ((failing cut_off).router_wlan ≡ false)
    × ((failing cut_off).local_dns ≡ false)
    × (silent cut_off.upstream_dns ≡ false)
    × (silent cut_off.ping_targets ≡ false)
    × (silent cut_off.https_targets ≡ false))
severity-ok_iff_example = severity-ok_iff text cut_off dead (verdict-run_ladder text cut_off).1

effective-run_ladder_example :
    is_effective_global_outage (some (judge dead)) (run_ladder text cut_off)
    ≡ is_outage_code dead.code
effective-run_ladder_example =
    effective-run_ladder text cut_off dead (verdict-run_ladder text cut_off).1

abbrev limits : QualityConfig
limits = record {
  latency_warn_ms = 80;
  latency_bad_ms = 150;
  jitter_warn_ms = 20;
  jitter_bad_ms = 50;
  loss_warn_pct = 2;
  loss_bad_pct = 10;
}

-- The jitter is not known.
classify_quality_iff_example :
    (((classify_quality (some 90) none (some 3) limits).state ≡ poor)
      ↔ IsBad (some 90) none (some 3) limits)
    × (((classify_quality (some 90) none (some 3) limits).state ≡ fair)
        ↔ (¬ IsBad (some 90) none (some 3) limits × IsWarned (some 90) none (some 3) limits))
    × (((classify_quality (some 90) none (some 3) limits).state ≡ good) ↔ (
        ¬ IsBad (some 90) none (some 3) limits
        × ¬ IsWarned (some 90) none (some 3) limits
        × ¬ IsUnmeasured (some 90) none (some 3)))
    × (((classify_quality (some 90) none (some 3) limits).state ≡ unknown)
        ↔ IsUnmeasured (some 90) none (some 3))
classify_quality_iff_example = classify_quality_iff (some 90) none (some 3) limits

abbrev idle : System
idle = record {
  shared = record { cache = none; inflight = false; run_in_progress = false };
  calls = [];
}

idle-IsFlight : IsFlight idle
idle-IsFlight = record { one_run = refl; one_claim = refl }

-- One call comes, claims the run and takes the lock.
abbrev one_running : System
one_running = record {
  shared = record { cache = none; inflight = true; run_in_progress = true };
  calls = runs false ∷ [];
}

one_runs : Run idle one_running
unfolding step_call look take_lock
one_runs =
    then_step
      (then_step (then_step start (calls false)) (steps 10 5 none [] (arrives false) [] refl))
      (steps 10 5 none [] (claims false) [] refl)

Run-IsFlight_example : IsFlight one_running
Run-IsFlight_example = Run-IsFlight idle-IsFlight one_runs
