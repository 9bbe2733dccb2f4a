-- ===== src/Auth/Client.antt =====
-- `_client_ip` of linkmoth_auth.py. Addresses, their parser and printer and the trusted networks are
-- those of `ipaddress`: parameters.
use linkmoth.Prelude.{ℕ, String, Bool, not, Option, none, some, List, [], ◌∷◌, if◌then◌else◌}
use linkmoth.Text.{is_empty, truncate, strip, split}

-- `parse` collapses an IPv4-mapped address; an address is a number here.
pub record Addresses : Type 0 where
  pub parse : String → Option ℕ
  pub print : ℕ → String
  pub trusted : ℕ → Bool

unfoldable pub parse_all : Addresses → List String → List ℕ
parse_all net [] = []
parse_all net (item ∷ items) =
    let rest = parse_all net items in
    elim (net.parse (strip item)) [ none ↦ rest | some a ↦ a ∷ rest ]

-- The last address that is not trusted.
unfoldable pub last_untrusted : Addresses → Option ℕ → List ℕ → Option ℕ
last_untrusted net found [] = found
last_untrusted net found (a ∷ rest) =
    last_untrusted net (if net.trusted a then found else some a) rest

-- `forwarded` is the header X-Forwarded-For; an absent or empty one is "".
unfoldable pub client_ip : Addresses → String → String → String
client_ip net remote forwarded = elim (net.parse (strip remote)) [
  | none ↦ truncate 64 (strip remote)
  | some peer ↦
      if not (net.trusted peer)
      then net.print peer
      else if is_empty forwarded
      then net.print peer
      else elim (last_untrusted net none (parse_all net (split b',' forwarded))) [
        | none ↦ net.print peer
        | some a ↦ net.print a
      ]
]
