-- ===== src/Diagnosis/Check.antt =====
-- The rungs of the fault ladder: the entries that `run_ladder` of linkmoth_probes.py builds, their
-- normalisation when they are read back, and the dictionary of a run's rungs by id.
use linkmoth.Prelude.{
  ℕ, String, Bool, true, false, ◌&&◌, Option, none, some, List, [], ◌∷◌, map, ◌==◌, if◌then◌else◌,
}
use linkmoth.Text.{contains_codes, contains_lower}

-- The ids of the rungs; `pihole_dns` is the id that older versions stored for `local_dns`.
pub data CheckId : Type 0 where
  power link gateway router_wlan local_dns upstream_dns raw_ping https pihole_dns : CheckId

abbrev tag : CheckId → ℕ
tag power = 0
tag link = 1
tag gateway = 2
tag router_wlan = 3
tag local_dns = 4
tag upstream_dns = 5
tag raw_ping = 6
tag https = 7
tag pihole_dns = 8

abbrev pub same_id : CheckId → CheckId → Bool
same_id a b = tag a == tag b

pub data CheckState : Type 0 where
  skipped passed failed degraded partial : CheckState

-- One probe of a redundant rung.
pub record Probe : Type 0 where
  pub target : String
  pub ok : Bool
  pub detail : String
  pub ms : Option ℕ

-- One step of the local resolver's own evidence.
pub record MicroStep : Type 0 where
  pub label : String
  pub ok : Option Bool
  pub detail : String

pub record ProbeSummary : Type 0 where
  pub attempted : ℕ
  pub passed : ℕ
  pub failed : ℕ

-- A rung: `none` stands for a key that the dictionary lacks, and for `None` in `ok` and `ms`.
pub record Check : Type 0 where
  pub id : CheckId
  pub label : String
  pub ok : Option Bool
  pub state : Option CheckState
  pub detail : String
  pub ms : Option ℕ
  pub micro : List MicroStep
  pub provider : Option String
  pub provider_name : Option String
  pub address : Option String
  pub interface : Option String
  pub target : Option String
  pub probe_summary : Option ProbeSummary
  pub probes : List Probe

abbrev or_else {ℓ} : {A : Type ℓ} → Option A → A → Option A
or_else none d = some d
or_else (some a) d = some a

unfoldable pub is_false : Option Bool → Bool
is_false (some false) = true
is_false (some true) = false
is_false none = false

unfoldable pub is_true : Option Bool → Bool
is_true (some true) = true
is_true (some false) = false
is_true none = false

rename_pihole : Check → Check
rename_pihole item =
    if same_id item.id pihole_dns
    then (if contains_lower "pi-hole" item.label
        then record item {
          id = local_dns;
          label = "Local DNS resolver";
          provider = or_else item.provider "pihole";
          provider_name = or_else item.provider_name "Pi-hole";
        }
        else record item {
          id = local_dns;
          label = "Local DNS resolver";
          provider = or_else item.provider "generic";
        })
    else item

-- The warning-sign test on a rung's detail: the sign and its variation selector.
abbrev pub has_warning_mark : String → Bool
has_warning_mark detail = contains_codes (0x26A0 ∷ 0xFE0F ∷ []) detail

stored_state : Option Bool → CheckId → String → CheckState
stored_state none i detail = skipped
stored_state (some false) i detail = failed
stored_state (some true) i detail =
    if same_id i link && has_warning_mark detail then degraded else passed

fill_state : Check → Check
unfolding stored_state
fill_state item = elim item.state [
  | some s ↦ item
  | none ↦ record item { state = some (stored_state item.ok item.id item.detail) }
]

unfoldable pub normalize_stored_check : Check → Check
unfolding rename_pihole fill_state
normalize_stored_check check = fill_state (rename_pihole check)

-- Entries that are no dictionaries are dropped while decoding, before this model begins.
unfoldable pub normalize_stored_checks : List Check → List Check
unfolding normalize_stored_check
normalize_stored_checks = map normalize_stored_check

-- `{ch["id"]: ch for ch in checks}.get(cid)`: the last entry with the id.
abbrev pub by_id : List Check → CheckId → Option Check
by_id [] cid = none
by_id (ch ∷ checks) cid =
    let later = by_id checks cid in
    elim later [ some found ↦ some found | none ↦ if same_id ch.id cid then some ch else none ]

-- The rung's `ok`, `None` where the rung is missing: `by_id.get(cid, {}).get("ok")`.
abbrev pub ok_of : List Check → CheckId → Option Bool
ok_of checks cid = elim (by_id checks cid) [ none ↦ none | some ch ↦ ch.ok ]

abbrev pub state_of : List Check → CheckId → Option CheckState
state_of checks cid = elim (by_id checks cid) [ none ↦ none | some ch ↦ ch.state ]
