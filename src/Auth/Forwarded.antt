-- ===== src/Auth/Forwarded.antt =====
-- What a client can make `_client_ip` of linkmoth_auth.py believe.
use Prim.Native.Char.{Char, code}
use linkmoth.Prelude.{
  false, ℕ, ◌≡◌, refl, String, Bool, true, not, Option, none, some, List, [], ◌∷◌, ◌++◌, any, ◌==◌,
  Bool-cases, Option-cases, inl, inr, arith, if◌then◌else◌, ◌⊎◌,
}
use linkmoth.Text.{is_empty, split, strip}
use linkmoth.Auth.Client.{Addresses, parse_all, last_untrusted, client_ip}

parse_all-append :
    (net : Addresses) (l m : List String)
    → parse_all net (l ++ m) ≡ parse_all net l ++ parse_all net m
unfolding parse_all
parse_all-append net [] m = refl
parse_all-append net (s ∷ l) m = elim (Option-cases (net.parse (strip s))) [
  | inl bad ↦ ground (arith, bad, parse_all-append net l m)
  | inr (x, ok) ↦ ground (arith, ok, parse_all-append net l m)
]

abbrev pub any_untrusted : Addresses → List ℕ → Bool
any_untrusted net l = any (λ a. not (net.trusted a)) l

last_untrusted-found :
    (net : Addresses) (f g : Option ℕ) (m : List ℕ)
    → any_untrusted net m ≡ true
    → last_untrusted net f m ≡ last_untrusted net g m
unfolding last_untrusted
last_untrusted-found net f g [] h = ground (arith, h)
last_untrusted-found net f g (a ∷ m) h = elim (Bool-cases (net.trusted a)) [
  | inr other ↦ ground (arith, other)
  | inl own ↦ ground (arith, own, h, last_untrusted-found net f g m)
]

-- An address that is not trusted decides, whatever stands before it.
last_untrusted-append :
    (net : Addresses) (f g : Option ℕ) (l m : List ℕ)
    → any_untrusted net m ≡ true
    → last_untrusted net f (l ++ m) ≡ last_untrusted net g m
unfolding last_untrusted
last_untrusted-append net f g [] m h = last_untrusted-found net f g m h
last_untrusted-append net f g (x ∷ l) m h =
    last_untrusted-append net (if net.trusted x then f else some x) g l m h

-- `item + "," + rest`.
abbrev pub with_item : String → String → String
with_item String.[] rest =
    let separator : String = "," in
    elim separator [ String.[] ↦ rest | String.◌∷◌ comma end ↦ String.◌∷◌ comma rest ]
with_item (String.◌∷◌ c s) rest = String.◌∷◌ c (with_item s rest)

-- The item goes on with a character.
extended : Char → List String → List String
extended c [] = String.◌∷◌ c String.[] ∷ []
extended c (s ∷ l) = String.◌∷◌ c s ∷ l

split-cons :
    (sep : ℕ) (c : Char) (s : String)
    → split sep (String.◌∷◌ c s)
      ≡ (if code c == sep then String.[] ∷ split sep s else extended c (split sep s))
unfolding split extended
split-cons sep c s = refl

extended-append :
    (c : Char) (u : String) (us l : List String)
    → extended c (u ∷ us) ++ l ≡ extended c (u ∷ us ++ l)
unfolding extended
extended-append c u us l = refl

split_some : (sep : ℕ) (s : String) → (u : String) × ((us : List String) × (split sep s ≡ u ∷ us))
unfolding split
split_some sep String.[] = (String.[], ([], refl))
split_some sep (String.◌∷◌ c s) =
    let (u, (us, e)) = split_some sep s in
    elim (Bool-cases (code c == sep)) [
      | inl here ↦ (String.[], (split sep s, ground (arith, here)))
      | inr other ↦ (String.◌∷◌ c u, (us, ground (arith, other, e)))
    ]

split-with_item : (s t : String) → split b',' (with_item s t) ≡ split b',' s ++ split b',' t
unfolding split
split-with_item String.[] t = refl
split-with_item (String.◌∷◌ c s) t =
    let (u, (us, e)) = split_some b',' s in
    elim (Bool-cases (code c == b',')) [
      | inl here ↦
          ground (
            arith,
            split-cons b',' c (with_item s t),
            split-cons b',' c s,
            here,
            split-with_item s t,
          )
      | inr other ↦ ground (
        arith,
        split-cons b',' c (with_item s t),
        split-cons b',' c s,
        other,
        split-with_item s t,
        e,
        extended-append c u us (split b',' t),
      )
    ]

is_empty-with_item :
    (given real : String) → is_empty real ≡ false → is_empty (with_item given real) ≡ false
is_empty-with_item String.[] real h = refl
is_empty-with_item (String.◌∷◌ c s) real h = refl

client_ip-with_item :
    (net : Addresses) (remote : String) (peer : ℕ) (given real : String)
    → net.parse (strip remote) ≡ some peer
    → is_empty real ≡ false
    → any_untrusted net (parse_all net (split b',' real)) ≡ true
    → client_ip net remote (with_item given real) ≡ client_ip net remote real
unfolding client_ip
client_ip-with_item net remote peer given real h some_items found = ground (
  arith,
  h,
  some_items,
  is_empty-with_item given real some_items,
  split-with_item given real,
  parse_all-append net (split b',' given) (split b',' real),
  last_untrusted-append net none none (parse_all net (split b',' given))
      (parse_all net (split b',' real)) found,
)

-- Two headers give the same client when the connection does not come from a trusted proxy, whatever the
-- headers are; and behind one, when the first is the second with something written before it and a
-- comma, and the second holds an address that is not trusted.
pub client_ip-forwarded :
    (net : Addresses) (remote : String) (peer : ℕ) (given real whole : String)
    → net.parse (strip remote) ≡ some peer
    → (net.trusted peer ≡ false)
      ⊎ ((whole ≡ with_item given real)
          × (is_empty real ≡ false)
          × (any_untrusted net (parse_all net (split b',' real)) ≡ true))
    → client_ip net remote whole ≡ client_ip net remote real
unfolding client_ip
client_ip-forwarded net remote peer given real whole h (inl direct) = ground (arith, h, direct)
client_ip-forwarded net remote peer given real whole h (inr (e, some_items, found)) =
    rw e (client_ip-with_item net remote peer given real h some_items found)
