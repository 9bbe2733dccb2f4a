-- ===== src/Diagnosis/Agreement.antt =====
-- The outage test of linkmoth_kuma_proxy.py on a run's own verdict, and what a confident verdict
-- of linkmoth_probes.py rests on.
use linkmoth.Prelude.{◌≡◌, ◌&&◌, some, arith}
use linkmoth.Diagnosis.Check.{is_false, is_true}
use linkmoth.Diagnosis.Probes.{WlanText}
use linkmoth.Diagnosis.Ladder.{Readings, gateway_ok, group_rung, run_ladder}
use linkmoth.Diagnosis.Verdict.{Verdict}
use linkmoth.Diagnosis.Rules.{verdict}
use linkmoth.Diagnosis.Blame.{blame}
use linkmoth.Diagnosis.Global.{judge, is_outage_code, path_is_dead, is_effective_global_outage}
use linkmoth.Diagnosis.Shape.{shaped, run_ladder-shaped, silent, ok-gateway_rung, ok-probe_group}
use linkmoth.Diagnosis.Faults.{blamed}

module _ (text : WlanText) (r : Readings) where
  path_is_dead-shaped :
      path_is_dead (shaped text r)
      ≡ (gateway_ok r && silent r.upstream_dns && silent r.ping_targets && silent r.https_targets)
  unfolding path_is_dead group_rung is_false is_true
  path_is_dead-shaped = ground (
    arith,
    ok-gateway_rung r,
    ok-probe_group r.upstream_dns,
    ok-probe_group r.ping_targets,
    ok-probe_group r.https_targets,
  )

  -- On a run and its own verdict the outage test passes exactly for the codes `pi_link`,
  -- `router_down` and `wan_down`: the rungs' evidence adds nothing to a fresh verdict.
  pub effective-run_ladder :
      (v : Verdict)
      → verdict (run_ladder text r) ≡ some v
      → is_effective_global_outage (some (judge v)) (run_ladder text r) ≡ is_outage_code v.code
  unfolding is_effective_global_outage blame
  effective-run_ladder v found =
      rw (run_ladder-shaped text r) (ground (arith, blamed text r v found, path_is_dead-shaped))
