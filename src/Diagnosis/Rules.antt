-- ===== src/Diagnosis/Rules.antt =====
-- `verdict` of linkmoth_probes.py: the decision ladder over one run's rungs. `none` stands for the
-- `KeyError` of a rung that is read and missing; a test is read only where Python reads it.
use linkmoth.Prelude.{
  String, ◌≡◌, refl, Bool, true, false, not, ◌&&◌, ◌||◌, Option, none, some, List, [], ◌∷◌, keep,
  map, if◌then◌else◌,
}
use linkmoth.Text.{join, is_empty}
use linkmoth.Diagnosis.Check.{
  CheckId, power, link, gateway, router_wlan, local_dns, upstream_dns, raw_ping, https, same_id,
  partial, pihole_dns, Check, is_false, by_id, has_warning_mark, normalize_stored_checks,
}
use linkmoth.Diagnosis.Verdict.{
  Severity, ok, warn, bad, FaultCode, pi_link, router_down, wan_down, restricted_connectivity,
  upstream_dns_down, partial_routing, web_broken, host_power, link_degraded, router_wlan_down,
  all_clear, Verdict, ◌<>◌, local_dns_verdict,
}

-- The redundant rungs whose targets disagree.
unfoldable pub is_partial : Check → Bool
is_partial ch = elim ch.state [
  | some partial ↦
      same_id ch.id router_wlan
      || same_id ch.id upstream_dns
      || same_id ch.id raw_ping
      || same_id ch.id https
  | _ ↦ false
]

id_text : CheckId → String
id_text power = "power"
id_text link = "link"
id_text gateway = "gateway"
id_text router_wlan = "router_wlan"
id_text local_dns = "local_dns"
id_text upstream_dns = "upstream_dns"
id_text raw_ping = "raw_ping"
id_text https = "https"
id_text pihole_dns = "pihole_dns"

rung_name : Check → String
rung_name ch = if is_empty ch.label then id_text ch.id else ch.label

unfoldable pub clear_verdict : List Check → Verdict
unfolding rung_name id_text
clear_verdict [] = record {
  severity = ok;
  code = all_clear;
  title = "All network checks passed";
  explain = "Router, local DNS, upstream DNS, ping and HTTPS all respond normally.";
  hint = "";
}
clear_verdict (ch ∷ disagreeing) = record {
  severity = ok;
  code = all_clear;
  title = "Network path works, but test targets disagree";
  explain =
      "Every required layer has a working path. Some redundant targets did not answer: "
      <> join ", " (map rung_name (ch ∷ disagreeing))
      <> ".";
  hint =
      "Run one fresh diagnosis. If the same target keeps failing, replace that diagnostic target instead of treating it as a network outage.";
}

-- Python's `not a`, `a and b`, `if a: b else: c` where reading may raise.
abbrev negate : Option Bool → Option Bool
negate none = none
negate (some b) = some (not b)

infixr 35 ◌and◌
abbrev ◌and◌ : Option Bool → Option Bool → Option Bool
none and b = none
some false and b = some false
some true and b = b

abbrev choose {ℓ} : {A : Type ℓ} → Option Bool → Option A → Option A → Option A
choose none a b = none
choose (some true) a b = a
choose (some false) a b = b

infixl 5 ◌>>=◌
abbrev ◌>>=◌ {ℓ κ} : {A : Type ℓ} {B : Type κ} → Option A → (A → Option B) → Option B
none >>= f = none
some a >>= f = f a

-- `not ok(cid)`: the rung is there and its `ok` is `False`.
abbrev fails : List Check → CheckId → Option Bool
fails c cid = do ch ← by_id c cid; some (is_false ch.ok)

-- The verdict of a rung that only quotes fixed sentences.
abbrev fixed : Severity → FaultCode → String → String → String → Option Verdict
fixed s c t e h = some (record { severity = s; code = c; title = t; explain = e; hint = h })

unfoldable pub link_verdict : Check → Verdict
link_verdict l = record {
  severity = bad;
  code = pi_link;
  title = "Linkmoth's own network connection is unavailable";
  explain = "I can't see the network at all, so I can't judge anyone else. " <> l.detail;
  hint =
      "Check the Linkmoth host's cable, Wi-Fi, and default route first; downstream verdicts are unreliable.";
}

unfoldable pub power_verdict : Check → Verdict
power_verdict p = record {
  severity = warn;
  code = host_power;
  title = "Linkmoth host power is unstable";
  explain =
      "The network path answers, but the host reports " <> p.detail
      <> ". This can make later network evidence unreliable.";
  hint = "Fix the host's power supply or cable, then run the diagnosis again.";
}

unfoldable pub degraded_verdict : Check → Verdict
degraded_verdict l = record {
  severity = warn;
  code = link_degraded;
  title = "Host Ethernet link is degraded";
  explain =
      "The Ethernet link is connected, but it negotiated a reduced mode (below gigabit, or half-duplex): "
      <> l.detail;
  hint =
      "Try another cable or switch port. A damaged cable or poor connection can reduce the negotiated speed without disconnecting completely.";
}

unfoldable pub wlan_verdict : Check → Verdict
wlan_verdict w = record {
  severity = warn;
  code = router_wlan_down;
  title = "Configured Wi-Fi witnesses are not answering";
  explain = w.detail;
  hint = "Confirm one witness is awake and accepts ping before changing or rebooting the router.";
}

-- The end of the chain, for a path that works: the host's own state, then the Wi-Fi witnesses.
unfoldable pub healthy_path : List Check → Option Verdict
unfolding power_verdict degraded_verdict wlan_verdict
healthy_path c = do
  p ← by_id c power
  l ← by_id c link
  if is_false p.ok
      then some (power_verdict p)
      else if has_warning_mark l.detail
      then some (degraded_verdict l)
      else elim (by_id c router_wlan) [
        | none ↦ some (clear_verdict (keep is_partial c))
        | some w ↦
            if is_false w.ok
            then some (wlan_verdict w)
            else some (clear_verdict (keep is_partial c))
      ]

-- The chain of `if` and `elif`, in the code's order.
unfoldable pub first_fault : List Check → Option Verdict
unfolding link_verdict local_dns_verdict
first_fault c =
    choose (fails c link) (do l ← by_id c link; some (link_verdict l))
      (choose (fails c gateway)
        (fixed bad router_down "Router isn't answering on the LAN"
          "Linkmoth's own link is fine but the router doesn't reply. Everything in the house will look down."
          "Check router power and cables, then give it a reboot.")
        (choose (fails c upstream_dns and fails c raw_ping and fails c https)
          (fixed bad wan_down
            "Internet is dead beyond the router – likely internet provider outage or router WAN cable fault"
            "LAN and router are fine, but direct DNS, ping, and HTTPS all fail beyond them."
            "Check the router's WAN cable and WAN light, then your internet provider's status page.")
          (choose (fails c upstream_dns and fails c raw_ping)
            (fixed warn restricted_connectivity
              "Web access works, but direct DNS and ping are being blocked"
              "HTTPS succeeds, so the internet is not down. Direct DNS and ping both fail, which points to filtering, a VPN, or network policy."
              "Do not reboot everything yet; check VPN, firewall, parental-control, or guest-network settings first.")
            (choose (fails c local_dns and negate (fails c upstream_dns))
              (do local ← by_id c local_dns; some (local_dns_verdict local))
              (choose (fails c upstream_dns)
                (fixed bad upstream_dns_down "Routing works but public DNS resolvers don't answer"
                  "Ping to the outside works, yet 1.1.1.1/8.8.8.8 won't answer DNS. Unusual – possibly ISP DNS interference."
                  "Try again in a few minutes; if it persists, contact your internet provider.")
                (choose (fails c raw_ping)
                  (fixed warn partial_routing "DNS answers but ping to the internet fails"
                    "Could be ICMP filtering or flaky routing. Web may still work."
                    "Watch the next re-checks; if HTTPS stays green this is cosmetic.")
                  (choose (fails c https)
                    (fixed warn web_broken "DNS and routing are fine but HTTPS fetches fail"
                      "Name resolution and ping work, yet web requests don't complete."
                      "Could be a captive portal, filtering, or a transient. Re-check will confirm.")
                    (healthy_path c))))))))

abbrev is_host_power : FaultCode → Bool
is_host_power host_power = true
is_host_power _ = false

abbrev at_least_warn : Severity → Severity
at_least_warn bad = bad
at_least_warn _ = warn

-- The last lines: a power problem raises the severity and is added to the explanation.
unfoldable pub note_power : Check → Verdict → Verdict
note_power p v =
    if is_false p.ok && not (is_host_power v.code)
    then record v {
      severity = at_least_warn v.severity;
      explain =
          v.explain <> " Also: the host reports " <> p.detail
          <> " – a weak power supply causes ghost problems.";
    }
    else v

-- A run's rungs as a verdict, once they are normalised.
unfoldable pub verdict_of : List Check → Option Verdict
verdict_of c = do v ← first_fault c; p ← by_id c power; some (note_power p v)

unfoldable pub verdict : List Check → Option Verdict
unfolding normalize_stored_checks verdict_of
verdict checks = verdict_of (normalize_stored_checks checks)

pub clear_verdict_lem :
    (disagreeing : List Check)
    → ((clear_verdict disagreeing).code ≡ all_clear) × ((clear_verdict disagreeing).severity ≡ ok)
unfolding clear_verdict
clear_verdict_lem [] = (refl, refl)
clear_verdict_lem (ch ∷ rest) = (refl, refl)
