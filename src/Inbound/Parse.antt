-- ===== src/Inbound/Parse.antt =====
-- What linkmoth_kuma_proxy.py reads from an inbound request. The decoding of the JSON body is a parameter:
-- the texts that the code takes from it, "" where a key is missing or null.
use Prim.Native.Char.{code}
use linkmoth.Prelude.{
  ℕ, String, Bool, not, ◌&&◌, ◌||◌, Option, none, some, List, [], ◌∷◌, keep, any, leb, ◌==◌, str_eq,
  if◌then◌else◌,
}
use linkmoth.Text.{is_empty, strip, truncate, lower, join}
use linkmoth.Diagnosis.Verdict.{◌<>◌}

pub record Body : Type 0 where
  pub event : String
  pub source : String
  pub monitor : String
  pub message : String
  pub detail : String

is_among : List String → String → Bool
is_among names x = any (λ n. str_eq n x) names

-- 1 for a recovery, 0 for a fault.
unfoldable pub status_of : String → Option ℕ
unfolding is_among
status_of event =
    if is_among ("up" ∷ "recovered" ∷ "resolved" ∷ "ok" ∷ []) event
    then some 1
    else if is_among ("down" ∷ "alert" ∷ "fault" ∷ "problem" ∷ "firing" ∷ []) event
    then some 0
    else none

-- A character of `[a-z0-9_-]`.
abbrev pub is_source_char : ℕ → Bool
is_source_char c =
    (leb b'a' c && leb c b'z') || ((leb b'0' c && leb c b'9') || (c == b'_' || c == b'-'))

unfoldable pub only_source_chars : String → String
only_source_chars String.[] = String.[]
only_source_chars (String.◌∷◌ c s) =
    let rest = only_source_chars s in if is_source_char (code c) then String.◌∷◌ c rest else rest

unfoldable pub source_name : String → String
source_name source =
    let name = truncate 32 (only_source_chars (lower (strip source))) in
    if is_empty name then "external" else name

abbrev or_else : String → String → String
or_else s other = if is_empty s then other else s

-- `parse_inbound_payload`: the status, the detail and the source.
unfoldable pub parse_inbound_payload : Body → Option ℕ × (String × String)
parse_inbound_payload body =
    let source = source_name body.source in
    let parts =
      keep (λ p. not (is_empty p))
        (strip body.monitor ∷ strip (or_else body.message body.detail) ∷ []) in
    let detail : String = elim parts [
      | [] ↦ source <> ": webhook"
      | p ∷ ps ↦ truncate 300 (source <> ": " <> join " – " (p ∷ ps))
    ] in
    (status_of (lower (strip body.event)), (detail, source))

-- `parse_kuma_payload`, after its decoding: the detail.
unfoldable pub kuma_detail : String → String → String
kuma_detail monitor msg =
    if is_empty monitor && is_empty msg then "webhook" else truncate 200 (monitor <> ": " <> msg)
