-- ===== src/Webhooks/Pinned.antt =====
-- A webhook's delivery reaches no reserved address, and no public one in the clear
-- (linkmoth_webhooks.py).
use linkmoth.Prelude.{
  ◌≡◌, sym, ◌∙◌, ap, String, true, ◌&&◌, ◌||◌, some, List, [], ◌∷◌, all, Bool-cases, Option-cases,
  inl, inr, str_eq, arith,
}
use linkmoth.Text.{strip}
use linkmoth.Webhooks.Target.{
  Url, Address, Net, is_local, is_allowed_host, clean_url, Target, port_of, parse_addresses,
  preferred, pin, resolve_host, resolve_pinned_target,
}

preferred-is_global :
    (net : Net) (a : Address) (rest : List Address)
    → a.is_global ≡ true
    → all (λ (x : Address). x.is_global) rest ≡ true
    → (preferred net a rest).is_global ≡ true
unfolding preferred
preferred-is_global net a [] h k = h
preferred-is_global net a (b ∷ rest) h k =
    preferred-is_global net _ rest (ground (arith, h, k)) (ground (arith, k))

pin-is_global :
    (net : Net) (l : List Address) (a : Address) → pin net l ≡ some a → a.is_global ≡ true
unfolding pin
pin-is_global net [] a e = ground (arith, e)
pin-is_global net (x ∷ rest) a e =
    elim (Bool-cases (all (λ (y : Address). y.is_global) (x ∷ rest))) [
      | inr no_global ↦ ground (arith, no_global, e)
      | inl every ↦
          let k = preferred-is_global net x rest (ground (arith, every)) (ground (arith, every)) in
          ground (arith, every, e, k)
    ]

host-is_global :
    (net : Net) (u : Url) (a : Address) → resolve_host net u ≡ some a → a.is_global ≡ true
unfolding resolve_host
host-is_global net u a e = elim (Option-cases (net.resolve u.hostname (port_of u))) [
  | inl lost ↦ ground (arith, lost, e)
  | inr (texts, found) ↦ elim (Option-cases (parse_addresses net texts)) [
    | inl bad ↦ ground (arith, found, bad, e)
    | inr (l, read) ↦ pin-is_global net l a (ground (arith, found, read, e))
  ]
]

-- What an accepted URL is: one that is parsed, to an allowed host.
clean_url-allowed :
    (net : Net) (value url : String)
    → clean_url net value ≡ some url
    → (u : Url) × ((net.parse_url url ≡ some u) × (is_allowed_host net u ≡ true))
unfolding clean_url
clean_url-allowed net value url clean = elim (Option-cases (net.parse_url (strip value))) [
  | inl bad ↦ ground (arith, bad, clean)
  | inr (u, parsed) ↦
      let same : strip value ≡ url = ground (arith, parsed, clean) in
      (u, (ap (λ s. net.parse_url s) (sym same) ∙ parsed, ground (arith, parsed, clean)))
]

-- A delivery to a URL that the settings accept connects to an RFC 1918 address, or to a global address by
-- HTTPS, whatever the resolver answers at that time.
pub resolve_pinned_target-clean_url :
    (net : Net) (value url : String) (t : Target)
    → clean_url net value ≡ some url
    → resolve_pinned_target net url ≡ some t
    → is_local t.address || (t.address.is_global && str_eq t.scheme "https") ≡ true
unfolding resolve_pinned_target
resolve_pinned_target-clean_url net value url t clean pinned =
    let (u, (parsed, allowed)) = clean_url-allowed net value url clean in
    elim (Option-cases (net.parse_address u.hostname)) [
      | inr (a, literal) ↦ ground (arith, parsed, allowed, literal, pinned)
      | inl name ↦ elim (Option-cases (resolve_host net u)) [
        | inl lost ↦ ground (arith, parsed, name, lost, pinned)
        | inr (a, found) ↦
            ground (arith, parsed, allowed, name, found, pinned, host-is_global net u a found)
      ]
    ]
