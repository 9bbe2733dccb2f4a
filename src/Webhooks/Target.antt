-- ===== src/Webhooks/Target.antt =====
-- Where a webhook may be sent: `_clean_url` and `_resolve_pinned_target` of linkmoth_webhooks.py. The
-- parsers of URLs and addresses and the resolver are parameters.
use linkmoth.Prelude.{
  ℕ, ◌+◌, ◌*◌, ◌/◌, ◌^◌, String, Bool, true, not, ◌&&◌, ◌||◌, Option, none, some, List, [], ◌∷◌,
  all, any, length, ltb, leb, ◌==◌, str_eq, if◌then◌else◌,
}
use linkmoth.Text.{codes, strip, is_empty}

-- A parsed URL; an absent part is "".
pub record Url : Type 0 where
  pub scheme : String
  pub hostname : String
  pub port : Option ℕ
  pub username : String
  pub password : String
  pub path : String
  pub query : String
  pub fragment : String

-- An address of `ipaddress`: its version, its bits, `is_global`, and its text.
pub record Address : Type 0 where
  pub is_v4 : Bool
  pub bits : ℕ
  pub is_global : Bool
  pub text : String

-- `parse_url` is `none` where reading the URL or its port raises; `resolve` is `getaddrinfo`; `precedes`
-- compares texts.
pub record Net : Type 0 where
  pub parse_url : String → Option Url
  pub parse_address : String → Option Address
  pub resolve : String → ℕ → Option (List String)
  pub precedes : String → String → Bool

-- `RFC1918_NETWORKS`.
abbrev pub is_rfc1918 : ℕ → Bool
is_rfc1918 bits =
    bits / 2 ^ 24 == 10 || (bits / 2 ^ 20 == 172 * 16 + 1 || bits / 2 ^ 16 == 192 * 256 + 168)

abbrev pub is_local : Address → Bool
is_local a = a.is_v4 && is_rfc1918 a.bits

-- An unsafe character: a backslash, a control character or a space.
is_unsafe : ℕ → Bool
is_unsafe c = c == b'\\' || (ltb c 33 || c == 127)

abbrev is_port : Option ℕ → Bool
is_port none = true
is_port (some p) = leb 1 p && leb p 65535

-- The checks of a parsed URL before its host is looked at.
abbrev is_plain : Url → Bool
is_plain u =
    (str_eq u.scheme "http" || str_eq u.scheme "https")
    && (not (is_empty u.hostname)
        && (is_empty u.username
            && (is_empty u.password && (is_port u.port && is_empty u.fragment))))

-- A literal address is local, or global with HTTPS; a name needs HTTPS.
abbrev pub is_allowed_host : Net → Url → Bool
is_allowed_host net u = elim (net.parse_address u.hostname) [
  | none ↦ str_eq u.scheme "https"
  | some a ↦ is_local a || (a.is_global && str_eq u.scheme "https")
]

-- `_clean_url`; `none` for the ValueError.
unfoldable pub clean_url : Net → String → Option String
unfolding is_unsafe
clean_url net value =
    let url = strip value in
    if is_empty url || (ltb 2000 (length (codes url)) || any is_unsafe (codes url))
    then none
    else elim (net.parse_url url) [
      | none ↦ none
      | some u ↦ if is_plain u && is_allowed_host net u then some url else none
    ]

-- What a delivery connects to.
pub record Target : Type 0 where
  pub scheme : String
  pub host : String
  pub port : ℕ
  pub path : String
  pub query : String
  pub address : Address

abbrev pub port_of : Url → ℕ
port_of u = elim u.port [
  | none ↦ if str_eq u.scheme "https" then 443 else 80
  | some p ↦ if p == 0 then (if str_eq u.scheme "https" then 443 else 80) else p
]

abbrev pub target_at : Url → Address → Target
target_at u a = record {
  scheme = u.scheme;
  host = u.hostname;
  port = port_of u;
  path = if is_empty u.path then "/" else u.path;
  query = u.query;
  address = a;
}

-- `none` where one of the texts is not an address.
unfoldable pub parse_addresses : Net → List String → Option (List Address)
parse_addresses net [] = some []
parse_addresses net (s ∷ texts) =
    let rest = parse_addresses net texts in
    elim (net.parse_address s) [
      | none ↦ none
      | some a ↦ elim rest [ none ↦ none | some l ↦ some (a ∷ l) ]
    ]

-- `(version != 4, compressed)` of `a` is below that of `b`.
abbrev is_preferred : Net → Address → Address → Bool
is_preferred net a b =
    if a.is_v4
    then not b.is_v4 || net.precedes a.text b.text
    else not b.is_v4 && net.precedes a.text b.text

unfoldable pub preferred : Net → Address → List Address → Address
preferred net a [] = a
preferred net a (b ∷ rest) = preferred net (if is_preferred net b a then b else a) rest

-- The address for a host name: every resolved address must be global.
unfoldable pub pin : Net → List Address → Option Address
pin net [] = none
pin net (a ∷ rest) =
    if all (λ (x : Address). x.is_global) (a ∷ rest) then some (preferred net a rest) else none

unfoldable pub resolve_host : Net → Url → Option Address
resolve_host net u = elim (net.resolve u.hostname (port_of u)) [
  | none ↦ none
  | some texts ↦ elim (parse_addresses net texts) [ none ↦ none | some l ↦ pin net l ]
]

-- `_resolve_pinned_target`; `none` for the ValueError.
unfoldable pub resolve_pinned_target : Net → String → Option Target
resolve_pinned_target net url = elim (net.parse_url url) [
  | none ↦ none
  | some u ↦ elim (net.parse_address u.hostname) [
    | some a ↦ if is_local a || a.is_global then some (target_at u a) else none
    | none ↦ elim (resolve_host net u) [ none ↦ none | some a ↦ some (target_at u a) ]
  ]
]
