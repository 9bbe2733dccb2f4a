-- ===== src/Outage/Digest.antt =====
-- The recovery digest of linkmoth_kuma_proxy.py: one line for each service that an outage silenced.
use linkmoth.Prelude.{
  ℕ, ◌-◌, ◌/◌, String, Bool, true, Option, none, some, List, [], ◌∷◌, map, ltb, leb, ◌==◌, str_eq,
  if◌then◌else◌,
}
use linkmoth.Text.{strip, has_prefix, drop_prefix, before, is_empty}
use linkmoth.Outage.Store.{Suppressed, Db}

-- `_format_outage_duration` by the unit that it prints; `hours` keeps the seconds,
-- which are printed divided by 3600 with one decimal.
pub data Duration : Type 0 where
  seconds minutes hours : ℕ → Duration

unfoldable pub format_outage_duration : ℕ → Duration
format_outage_duration s =
    if ltb s 90 then seconds s else if ltb s 5400 then minutes (s / 60) else hours s

abbrev or_text : String → String → String
or_text a b = if is_empty a then b else a

verdict_name : Option (String × String) → String
verdict_name none = "Linkmoth outage"
verdict_name (some (code, title)) = strip (or_text title (or_text code "Linkmoth outage"))

detail_name : String → String
detail_name detail =
    if has_prefix "Linkmoth detected:" detail
    then or_text (strip (drop_prefix "Linkmoth detected:" detail)) "Linkmoth outage"
    else elim (before b':' detail) [
      | some name ↦ strip name
      | none ↦ or_text detail "Unknown service"
    ]

unfoldable pub extract_service_name : Suppressed → String
unfolding verdict_name detail_name
extract_service_name row =
    if str_eq row.payload.source "linkmoth"
    then verdict_name row.payload.verdict
    else if is_empty row.payload.monitor
    then detail_name (strip row.monitor_detail)
    else strip row.payload.monitor

-- `row.get("kuma_status") in (0, None)`: the alert does not say that its service is up.
abbrev pub went_down : Option ℕ → Bool
went_down none = true
went_down (some status) = status == 0

-- The dictionary `services`, in order of insertion: the earliest time for each name.
abbrev pub Services : Type 0
Services = List (String × ℕ)

unfoldable pub note_service : String → ℕ → Services → Services
note_service name ts [] = (name, ts) ∷ []
note_service name ts ((known, first) ∷ rest) =
    let later = note_service name ts rest in
    if str_eq known name
    then (known, if ltb ts first then ts else first) ∷ rest
    else (known, first) ∷ later

unfoldable pub collect : List Suppressed → Services → Services
collect [] services = services
collect (row ∷ rows) services = collect rows (
    if went_down row.kuma_status
    then note_service (extract_service_name row) row.ts services
    else services)

-- `sorted(…, key=started)`, stable.
unfoldable pub insert_by_start : String × ℕ → Services → Services
insert_by_start item [] = item ∷ []
insert_by_start (name, ts) ((other, first) ∷ rest) =
    let later = insert_by_start (name, ts) rest in
    if leb ts first then (name, ts) ∷ (other, first) ∷ rest else (other, first) ∷ later

unfoldable pub sort_by_start : Services → Services
sort_by_start [] = []
sort_by_start (item ∷ rest) = insert_by_start item (sort_by_start rest)

pub record Line : Type 0 where
  pub name : String
  pub down_for : Duration

unfoldable pub build_outage_digest_lines : List Suppressed → ℕ → List Line
build_outage_digest_lines rows recovery_ts =
    map
      (λ (name, started). record {
        name = name;
        down_for = format_outage_duration (recovery_ts - started);
      })
      (sort_by_start (collect rows []))

-- `ORDER BY ts ASC`, stable.
unfoldable pub insert_by_ts : Suppressed → List Suppressed → List Suppressed
insert_by_ts row [] = row ∷ []
insert_by_ts row (other ∷ rest) =
    let later = insert_by_ts row rest in
    if leb row.ts other.ts then row ∷ other ∷ rest else other ∷ later

unfoldable pub fetch_suppressed_alerts : List Suppressed → List Suppressed
fetch_suppressed_alerts [] = []
fetch_suppressed_alerts (row ∷ rows) = insert_by_ts row (fetch_suppressed_alerts rows)

unfoldable pub pending_suppression_digest : Db → ℕ → List Line × List ℕ
pending_suppression_digest db recovery_ts =
    let rows = fetch_suppressed_alerts db.suppressed in
    (build_outage_digest_lines rows recovery_ts, map (λ row. row.id) rows)
