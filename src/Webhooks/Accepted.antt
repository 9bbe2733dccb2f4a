-- ===== src/Webhooks/Accepted.antt =====
-- Headers that `_clean_headers` of linkmoth_webhooks.py accepts are such that they can be stored.
use Prim.Native.Char.{code}
use linkmoth.Prelude.{
  ◌≤◌, ◌≡◌, refl, sym, subst, ◌∙◌, ap, String, true, ◌&&◌, some, List, [], ◌∷◌, all, length, ltb,
  ltb→le, str_eq, eq_iff, Bool-cases, Option-cases, inl, inr, arith,
}
use linkmoth.Text.{codes, strip, strip_left, strip_right, is_space, is_empty, lower}
use linkmoth.Webhooks.Data.{is_one_of}
use linkmoth.Webhooks.Headers.{
  Headers, max_headers, is_name, is_name_char, mask_header_value, mask_headers, is_value, is_usable,
  find_stored, unmask, clean_loop, clean_headers,
}
use linkmoth.Webhooks.Masked.{IsTrimmed, AreHeaders, resubmitted}

strip_right-idempotent : (s : String) → strip_right (strip_right s) ≡ strip_right s
unfolding strip_right
strip_right-idempotent String.[] = refl
strip_right-idempotent (String.◌∷◌ c s) =
    elim (Bool-cases (is_empty (strip_right s) && is_space (code c))) [
      | inl gone ↦ rw gone refl
      | inr kept ↦ rw (kept, strip_right-idempotent s, kept) refl
    ]

IsTrimmed-strip : (s : String) → IsTrimmed (strip s)
unfolding strip
IsTrimmed-strip s = strip_right-idempotent (strip_left s)

name_right : (s : String) → all is_name_char (codes s) ≡ true → strip_right s ≡ s
unfolding strip_right
name_right String.[] h = refl
name_right (String.◌∷◌ c s) h = ground (arith, h, name_right s (ground (arith, h)))

name_left : (s : String) → all is_name_char (codes s) ≡ true → strip_left s ≡ s
unfolding strip_left
name_left String.[] h = refl
name_left (String.◌∷◌ c s) h = ground (arith, h)

strip_name : (s : String) → is_name s ≡ true → strip s ≡ s
unfolding strip
strip_name s h =
    let h' : all is_name_char (codes s) ≡ true = ground (arith, h) in
    ap strip_right (name_left s h') ∙ name_right s h'

-- A header that may be stored, whatever names came before.
abbrev IsHeader : String × String → Type 0
IsHeader h = (is_usable [] h.0 ≡ true) × (IsTrimmed h.1 × (is_value h.1 ≡ true))

usable_parts :
    (seen : List String) (name : String)
    → is_usable seen name ≡ true
    → (is_name name ≡ true) × (is_usable [] name ≡ true)
unfolding is_usable
usable_parts seen name h = ground (arith, h)

-- Only the name in lower case counts.
usable_as :
    (seen : List String) (name n : String)
    → lower n ≡ lower name
    → is_usable seen name ≡ true
    → is_usable [] n ≡ true
    → is_usable seen n ≡ true
unfolding is_usable
usable_as seen name n e h k =
    let g : is_one_of seen (lower n) ≡ is_one_of seen (lower name) = ap (is_one_of seen) e in
    ground (arith, g, h, k)

find_stored-IsHeader :
    (key : String) (seen : List String) (stored : Headers) (h : String × String)
    → AreHeaders seen stored
    → find_stored key stored ≡ some h
    → (lower h.0 ≡ key) × IsHeader h
unfolding find_stored
find_stored-IsHeader key seen [] h a e = ground (arith, e)
find_stored-IsHeader key seen ((name, v) ∷ stored) h (a, (b, (u, (c, k)))) e =
    elim (Option-cases (find_stored key stored)) [
      | inr (x, found) ↦
          find_stored-IsHeader key (lower name ∷ seen) stored h k (ground (arith, e, found))
      | inl none_later ↦ elim (Bool-cases (str_eq (lower name) key)) [
        | inr other ↦ ground (arith, e, none_later, other)
        | inl same ↦
            let p : (name, v) ≡ h = ground (arith, e, none_later, same) in
            subst (λ (x : String × String). (lower x.0 ≡ key) × IsHeader x) p
              ((eq_iff (lower name) key).0 same, ((usable_parts seen name u).1, (b, c)))
      ]
    ]

-- The header that is stored, masked or not.
unmask-IsHeader :
    (stored : Headers) (name v : String)
    → AreHeaders [] stored
    → IsHeader (name, v)
    → (lower (unmask name v (find_stored (lower name) stored)).0 ≡ lower name)
      × IsHeader (unmask name v (find_stored (lower name) stored))
unmask-IsHeader stored name v a h = elim (Option-cases (find_stored (lower name) stored)) [
  | inl missing ↦ rw missing (refl, h)
  | inr (x, found) ↦ elim (Bool-cases (str_eq v (mask_header_value x.1))) [
    | inl masked ↦ rw (found, masked) (find_stored-IsHeader (lower name) [] stored x a found)
    | inr new ↦ rw (found, new) (refl, h)
  ]
]

clean_loop-AreHeaders :
    (stored : Headers) (seen : List String) (given l : Headers)
    → AreHeaders [] stored
    → clean_loop stored seen given ≡ some l
    → AreHeaders seen l
unfolding clean_loop
clean_loop-AreHeaders stored seen [] l a e =
    let p : [] ≡ l = ground (arith, e) in subst (AreHeaders seen) p tt
clean_loop-AreHeaders stored seen ((name, raw) ∷ given) l a e =
    let key = lower (strip name) in
    let u = unmask (strip name) (strip raw) (find_stored key stored) in
    elim (Bool-cases (is_usable seen (strip name) && is_value (strip raw))) [
      | inr refused ↦ ground (arith, e, refused)
      | inl good ↦ elim (Option-cases (clean_loop stored (key ∷ seen) given)) [
        | inl stopped ↦ ground (arith, e, good, stopped)
        | inr (rest, cleaned) ↦
            let usable : is_usable seen (strip name) ≡ true = ground (arith, good) in
            let value : is_value (strip raw) ≡ true = ground (arith, good) in
            let parts = usable_parts seen (strip name) usable in
            let (same, (new, (trimmed, fits))) =
              unmask-IsHeader stored (strip name) (strip raw) a
                (parts.1, (IsTrimmed-strip raw, value)) in
            let p : u ∷ rest ≡ l = ground (arith, e, good, cleaned) in
            let later = clean_loop-AreHeaders stored (key ∷ seen) given rest a cleaned in
            subst (AreHeaders seen) p (
              strip_name u.0 (usable_parts [] u.0 new).0,
              (
                trimmed,
                (
                  usable_as seen (strip name) u.0 same usable new,
                  (fits, subst (λ x. AreHeaders (x ∷ seen) rest) (sym same) later),
                ),
              ),
            )
      ]
    ]

length-clean_loop :
    (stored : Headers) (seen : List String) (given l : Headers)
    → clean_loop stored seen given ≡ some l
    → length l ≡ length given
unfolding clean_loop
length-clean_loop stored seen [] l e = ground (arith, e)
length-clean_loop stored seen ((name, raw) ∷ given) l e =
    elim (Option-cases (clean_loop stored (lower (strip name) ∷ seen) given)) [
      | inl stopped ↦ ground (arith, e, stopped)
      | inr (rest, cleaned) ↦ ground (
        arith,
        e,
        cleaned,
        length-clean_loop stored (lower (strip name) ∷ seen) given rest cleaned,
      )
    ]

-- Accepted headers can be stored: at most ten, with usable and distinct names and printable values.
clean_headers-AreHeaders :
    (given stored l : Headers)
    → AreHeaders [] stored
    → clean_headers given stored ≡ some l
    → (length l ≤ max_headers) × AreHeaders [] l
unfolding clean_headers
clean_headers-AreHeaders given stored l a e = elim (Bool-cases (ltb max_headers (length given))) [
  | inl many ↦ ground (arith, e, many)
  | inr few ↦
      let done : clean_loop stored [] given ≡ some l = ground (arith, e, few) in
      (
        omega (
          arith,
          length-clean_loop stored [] given l done,
          ltb→le max_headers (length given) few,
        ),
        clean_loop-AreHeaders stored [] given l a done,
      )
]

-- Headers that were accepted, also over stored ones that were accepted before, are what is stored again
-- when they are submitted in the masked form in which they are shown: no secret is lost, or replaced by
-- its mask.
pub clean_headers-mask_headers :
    (given stored l : Headers)
    → AreHeaders [] stored
    → clean_headers given stored ≡ some l
    → clean_headers (mask_headers l) l ≡ some l
clean_headers-mask_headers given stored l a e =
    let (few, h) = clean_headers-AreHeaders given stored l a e in resubmitted l few h
