-- ===== src/Diagnosis/Faults.antt =====
-- The verdict on the rungs that `run_ladder` of linkmoth_probes.py builds, in terms of the readings
-- of the host and the network.
use linkmoth.Prelude.{◌≡◌, ◌≢◌, ◌∙◌, ap, ◌↔◌, inl, inr, true, false, some, arith, Option-cases}
use linkmoth.Diagnosis.Check.{upstream_dns, raw_ping, https, is_false, has_warning_mark}
use linkmoth.Diagnosis.Probes.{WlanText}
use linkmoth.Diagnosis.Ladder.{
  Readings, rung, link_rung, gateway_rung, gateway_ok, local_dns_rung, run_ladder,
}
use linkmoth.Diagnosis.Verdict.{wan_down, ok, Verdict}
use linkmoth.Diagnosis.Rules.{verdict}
use linkmoth.Diagnosis.Shape.{
  power_check, dns_check, ping_check, web_check, wlan, run_ladder-shaped, silent, failing,
  ok-group_rung, ok-local_dns_rung, ok-wlan, ok-link_rung, ok-gateway_rung,
}
use linkmoth.Diagnosis.Blame.{judged, base_severity, Failures, blame, failures, judged-verdict}

module _ (text : WlanText) (r : Readings) where
  seen : Failures
  seen =
      failures (power_check r) (link_rung r) (gateway_rung r) (wlan text r)
        (local_dns_rung r.dns_mode r) (dns_check r) (ping_check r) (web_check r)

  power_lem : is_false r.power.0 ≡ (failing r).power
  unfolding is_false
  power_lem = ground arith

  seen-failing : seen ≡ failing r
  unfolding seen rung
  seen-failing = λ k. record {
    power = power_lem k;
    link = (ok-link_rung r).0 k;
    marked = has_warning_mark ((ok-link_rung r).1 k);
    gateway = ok-gateway_rung r k;
    router_wlan = ok-wlan text r k;
    local_dns = ok-local_dns_rung r k;
    upstream_dns = ok-group_rung upstream_dns "Upstream DNS (direct)" r.upstream_dns k;
    raw_ping = ok-group_rung raw_ping "Raw internet (ping)" r.ping_targets k;
    https = ok-group_rung https "Web (HTTPS)" r.https_targets k;
  }

  -- A run's verdict blames the rungs whose readings failed.
  pub judged-run_ladder :
      judged (verdict (run_ladder text r))
      ≡ some (blame (failing r), base_severity (blame (failing r)))
  unfolding seen
  judged-run_ladder = rw (run_ladder-shaped text r) (
      judged-verdict (power_check r) (link_rung r) (gateway_rung r) (wlan text r)
        (local_dns_rung r.dns_mode r) (dns_check r) (ping_check r) (web_check r) _ _ _ _ _ _ _ _
      ∙ ap (λ f. some (blame f, base_severity (blame f))) seen-failing)

  -- Every run has a verdict.
  pub verdict-run_ladder : (v : Verdict) × (verdict (run_ladder text r) ≡ some v)
  verdict-run_ladder = elim (Option-cases (verdict (run_ladder text r))) [
    | inl missing ↦ cc (judged-run_ladder, missing)
    | inr found ↦ found
  ]

module _ (text : WlanText) (r : Readings) (v : Verdict)
    (found : verdict (run_ladder text r) ≡ some v) where
  pub blamed : (v.code ≡ blame (failing r)) × (v.severity ≡ base_severity (blame (failing r)))
  blamed = ground (arith, judged-run_ladder text r)

  -- The internet is called dead exactly when link and router answer and no direct DNS server, no
  -- ping target and no HTTPS target does.
  pub code-wan_down_iff : (v.code ≡ wan_down) ↔ (
      (r.link.0 ≡ true)
      × (gateway_ok r ≡ true)
      × (silent r.upstream_dns ≡ true)
      × (silent r.ping_targets ≡ true)
      × (silent r.https_targets ≡ true))
  unfolding blame
  code-wan_down_iff = ground (arith, blamed)

  -- The verdict is `ok` exactly when no layer failed.
  pub severity-ok_iff : (v.severity ≡ ok) ↔ (
      (r.power.0 ≢ some false)
      × (r.link.0 ≡ true)
      × (has_warning_mark r.link.1 ≡ false)
      × (gateway_ok r ≡ true)
      × ((failing r).router_wlan ≡ false)
      × ((failing r).local_dns ≡ false)
      × (silent r.upstream_dns ≡ false)
      × (silent r.ping_targets ≡ false)
      × (silent r.https_targets ≡ false))
  unfolding blame
  severity-ok_iff = ground (arith, blamed)
