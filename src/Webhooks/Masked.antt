-- ===== src/Webhooks/Masked.antt =====
-- Headers that are shown masked and sent back unchanged are kept (linkmoth_webhooks.py).
use Prim.Native.Char.{Char, code}
use linkmoth.Prelude.{
  ℕ, zero, suc, ◌-◌, ◌≤◌, ◌≡◌, refl, ◌∙◌, ap, String, true, false, ◌&&◌, none, some, All, List, [],
  ◌∷◌, all, length, ltb, leb, str_eq, eq_iff, Bool-cases, inl, inr, arith,
}
use linkmoth.Text.{codes, strip, strip_left, strip_right, is_space, is_empty, lower}
use linkmoth.Webhooks.Data.{is_one_of}
use linkmoth.Webhooks.Headers.{
  Headers, max_headers, append, drop_text, mask, mask_header_value, mask_headers, is_value,
  is_usable, find_stored, clean_loop, clean_headers,
}

-- A text that ends in no space.
abbrev pub IsTrimmed : String → Type 0
IsTrimmed s = strip_right s ≡ s

IsTrimmed-tail : (c : Char) (s : String) → IsTrimmed (String.◌∷◌ c s) → IsTrimmed s
unfolding strip_right drop_text
IsTrimmed-tail c s h = elim (Bool-cases (is_empty (strip_right s) && is_space (code c))) [
  | inl gone ↦ let e = ap is_empty h in ground (arith, gone, e)
  | inr kept ↦ let e = ap (drop_text 1) h in ground (arith, kept, e)
]

IsTrimmed-drop : (n : ℕ) (s : String) → IsTrimmed s → IsTrimmed (drop_text n s)
unfolding drop_text
IsTrimmed-drop zero s h = h
IsTrimmed-drop (suc n) String.[] h = h
IsTrimmed-drop (suc n) (String.◌∷◌ c s) h = IsTrimmed-drop n s (IsTrimmed-tail c s h)

strip-mask : (s : String) → IsTrimmed s → strip (append mask s) ≡ append mask s
unfolding strip strip_left strip_right append
strip-mask s h = ground (arith, h)

all-drop :
    (n : ℕ) (s : String)
    → all (λ c. leb 32 c) (codes s) ≡ true
    → all (λ c. leb 32 c) (codes (drop_text n s)) ≡ true
unfolding drop_text
all-drop zero s h = h
all-drop (suc n) String.[] h = h
all-drop (suc n) (String.◌∷◌ c s) h = all-drop n s (ground (arith, h))

length-drop_text : (n : ℕ) (s : String) → length (codes (drop_text n s)) ≡ length (codes s) - n
unfolding drop_text
length-drop_text zero s = omega arith
length-drop_text (suc n) String.[] = omega arith
length-drop_text (suc n) (String.◌∷◌ c s) = omega (arith, length-drop_text n s)

-- What the headers of a stored webhook are, behind the names that came before them.
abbrev pub AreHeaders : List String → Headers → Type 0
AreHeaders seen [] = Unit
AreHeaders seen (h ∷ headers) =
    (strip h.0 ≡ h.0)
    × (IsTrimmed h.1
        × ((is_usable seen h.0 ≡ true)
            × ((is_value h.1 ≡ true) × AreHeaders (lower h.0 ∷ seen) headers)))

is_value-append :
    (s : String)
    → length (codes s) ≤ 992
    → all (λ c. leb 32 c) (codes s) ≡ true
    → is_value (append mask s) ≡ true
unfolding is_value append
is_value-append s short printable = ground (arith, short, printable)

value_fits :
    (v : String)
    → is_value v ≡ true
    → (length (codes v) ≤ 1000) × (all (λ c. leb 32 c) (codes v) ≡ true)
unfolding is_value
value_fits v h = ground (arith, h)

is_value_of_mask : is_value mask ≡ true
unfolding is_value
is_value_of_mask = refl

is_value-mask_header_value :
    (v : String) → is_value v ≡ true → is_value (mask_header_value v) ≡ true
unfolding mask_header_value
is_value-mask_header_value v h =
    let n = length (codes v) in
    let (fits, printable) = value_fits v h in
    elim (Bool-cases (ltb 8 (length (codes v)))) [
      | inl long ↦ rw long (
          is_value-append (drop_text (n - 4) v) (omega (arith, length-drop_text (n - 4) v, fits))
            (all-drop (n - 4) v printable))
      | inr short ↦ rw short is_value_of_mask
    ]

strip-mask_alone : strip mask ≡ mask
unfolding strip strip_left strip_right
strip-mask_alone = refl

strip-mask_header_value :
    (v : String) → IsTrimmed v → strip (mask_header_value v) ≡ mask_header_value v
unfolding mask_header_value
strip-mask_header_value v h = elim (Bool-cases (ltb 8 (length (codes v)))) [
  | inl long ↦ ground (
    arith,
    long,
    strip-mask (drop_text (length (codes v) - 4) v) (IsTrimmed-drop (length (codes v) - 4) v h),
  )
  | inr short ↦ ground (arith, short, strip-mask_alone)
]

usable_new :
    (seen : List String) (name : String)
    → is_usable seen name ≡ true
    → is_one_of seen (lower name) ≡ false
unfolding is_usable
usable_new seen name h = ground (arith, h)

-- No later header has a name that came before.
find_stored-seen :
    (key : String) (seen : List String) (headers : Headers)
    → is_one_of seen key ≡ true
    → AreHeaders seen headers
    → find_stored key headers ≡ none
unfolding find_stored
find_stored-seen key seen [] h k = refl
find_stored-seen key seen ((name, v) ∷ headers) h (a, (b, (u, (c, k)))) =
    let later = find_stored-seen key (lower name ∷ seen) headers (ground (arith, h)) k in
    elim (Bool-cases (str_eq (lower name) key)) [
      | inl same ↦
          let e : is_one_of seen (lower name) ≡ true =
            ap (is_one_of seen) ((eq_iff (lower name) key).0 same) ∙ h in
          let f = usable_new seen name u in ground (arith, e, f)
      | inr other ↦ ground (arith, later, other)
    ]

-- Each header is found under its name.
abbrev AreFound : Headers → Headers → Type 0
AreFound stored headers =
    All (λ (name, v). find_stored (lower name) stored ≡ some (name, v)) headers

AreFound-cons :
    (name v : String) (stored headers : Headers)
    → AreFound stored headers
    → AreFound ((name, v) ∷ stored) headers
unfolding find_stored
AreFound-cons name v stored [] h = tt
AreFound-cons name v stored ((n, w) ∷ headers) h =
    (ground (arith, h.0), AreFound-cons name v stored headers h.1)

pub AreFound-own :
    (seen : List String) (headers : Headers) → AreHeaders seen headers → AreFound headers headers
unfolding find_stored
AreFound-own seen [] h = tt
AreFound-own seen ((name, v) ∷ headers) (a, (b, (u, (c, k)))) = (
  ground (
    arith,
    find_stored-seen (lower name) (lower name ∷ seen) headers
        (ground (arith, eq_iff (lower name) (lower name))) k,
    eq_iff (lower name) (lower name),
  ),
  AreFound-cons name v headers headers (AreFound-own (lower name ∷ seen) headers k),
)

clean_loop-mask_headers :
    (stored : Headers) (seen : List String) (headers : Headers)
    → AreHeaders seen headers
    → AreFound stored headers
    → clean_loop stored seen (mask_headers headers) ≡ some headers
unfolding clean_loop mask_headers
clean_loop-mask_headers stored seen [] h f = refl
clean_loop-mask_headers stored seen ((name, v) ∷ headers) (a, (b, (u, (c, k)))) f =
    let later = clean_loop-mask_headers stored (lower name ∷ seen) headers k f.1 in
    let value = is_value-mask_header_value v c in
    let plain = strip-mask_header_value v b in
    ground
      (arith, later, value, plain, a, u, f.0, eq_iff (mask_header_value v) (mask_header_value v))

pub length-mask_headers : (headers : Headers) → length (mask_headers headers) ≡ length headers
unfolding mask_headers
length-mask_headers [] = refl
length-mask_headers ((name, v) ∷ headers) = ap suc (length-mask_headers headers)

pub resubmitted :
    (headers : Headers)
    → length headers ≤ max_headers
    → AreHeaders [] headers
    → clean_headers (mask_headers headers) headers ≡ some headers
unfolding clean_headers
resubmitted headers few h = ground (
  arith,
  few,
  length-mask_headers headers,
  clean_loop-mask_headers headers [] headers h (AreFound-own [] headers h),
)
