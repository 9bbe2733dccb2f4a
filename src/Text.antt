-- ===== src/Text.antt =====
-- Text as the program tests it: case-insensitive and plain substring tests, truncation and joining.
use Prim.Native.Char.{Char, code}
use Prim.Native.String.{String, ◌++◌}
use linkmoth.Prelude.{
  ℕ, zero, suc, ◌+◌, ◌-◌, Bool, true, false, ◌&&◌, ◌||◌, Option, none, some, List, leb, ◌==◌,
  if◌then◌else◌,
}
use mathlib.Core.List

-- The code points of a text.
abbrev pub codes : String → List ℕ
codes String.[] = List.[]
codes (String.◌∷◌ c s) = List.◌∷◌ (code c) (codes s)

-- `str.lower` on the ASCII letters.
pub to_lower : ℕ → ℕ
to_lower c = if leb b'A' c && leb c b'Z' then c + 32 else c

pub is_prefix : List ℕ → List ℕ → Bool
is_prefix List.[] ys = true
is_prefix (List.◌∷◌ x xs) List.[] = false
is_prefix (List.◌∷◌ x xs) (List.◌∷◌ y ys) = x == y && is_prefix xs ys

pub is_infix : List ℕ → List ℕ → Bool
is_infix xs List.[] = is_prefix xs List.[]
is_infix xs (List.◌∷◌ y ys) = is_prefix xs (List.◌∷◌ y ys) || is_infix xs ys

-- `needle in text`, with the needle as code points.
unfoldable pub contains_codes : List ℕ → String → Bool
unfolding is_prefix is_infix
contains_codes needle text = is_infix needle (codes text)

-- `needle in text.lower()`.
unfoldable pub contains_lower : String → String → Bool
unfolding is_prefix is_infix to_lower
contains_lower needle text = is_infix (codes needle) (List.map to_lower (codes text))

-- `text.lower() == other`, for an `other` in lower case.
unfoldable pub eq_lower : String → String → Bool
unfolding is_prefix to_lower
eq_lower other text =
    let lowered = List.map to_lower (codes text) in
    is_prefix (codes other) lowered && is_prefix lowered (codes other)

-- `text[:n]`.
unfoldable pub truncate : ℕ → String → String
truncate zero s = ""
truncate (suc n) String.[] = ""
truncate (suc n) (String.◌∷◌ c s) = String.◌∷◌ c (truncate n s)

abbrev pub is_empty : String → Bool
is_empty String.[] = true
is_empty (String.◌∷◌ c s) = false

-- `separator.join(texts)`.
unfoldable pub join : String → List String → String
join separator List.[] = ""
join separator (List.◌∷◌ s List.[]) = s
join separator (List.◌∷◌ s (List.◌∷◌ t ts)) = s ++ separator ++ join separator (List.◌∷◌ t ts)

abbrev pub is_space : ℕ → Bool
is_space c = c == 32 || (leb 9 c && leb c 13)

unfoldable pub strip_left : String → String
strip_left String.[] = String.[]
strip_left (String.◌∷◌ c s) =
    let rest = strip_left s in if is_space (code c) then rest else String.◌∷◌ c s

unfoldable pub strip_right : String → String
strip_right String.[] = String.[]
strip_right (String.◌∷◌ c s) =
    let rest = strip_right s in
    if is_empty rest && is_space (code c) then String.[] else String.◌∷◌ c rest

-- `text.strip()` on the ASCII white space.
unfoldable pub strip : String → String
unfolding strip_left strip_right
strip s = strip_right (strip_left s)

-- `text.startswith(prefix)`, and the text behind that prefix.
unfoldable pub has_prefix : String → String → Bool
has_prefix String.[] s = true
has_prefix (String.◌∷◌ c cs) String.[] = false
has_prefix (String.◌∷◌ c cs) (String.◌∷◌ d s) = code c == code d && has_prefix cs s

unfoldable pub drop_prefix : String → String → String
drop_prefix String.[] s = s
drop_prefix (String.◌∷◌ c cs) String.[] = String.[]
drop_prefix (String.◌∷◌ c cs) (String.◌∷◌ d s) = drop_prefix cs s

-- `text.split(separator, 1)[0]` for one character; `none` where it does not occur.
unfoldable pub before : ℕ → String → Option String
before sep String.[] = none
before sep (String.◌∷◌ c s) =
    let rest = before sep s in
    if code c == sep
    then some String.[]
    else elim rest [ none ↦ none | some t ↦ some (String.◌∷◌ c t) ]

-- `text.split(separator)` for one character.
unfoldable pub split : ℕ → String → List String
split sep String.[] = List.◌∷◌ String.[] List.[]
split sep (String.◌∷◌ c s) =
    let rest = split sep s in
    if code c == sep then List.◌∷◌ String.[] rest else elim rest [
      | List.[] ↦ List.◌∷◌ (String.◌∷◌ c String.[]) List.[]
      | List.◌∷◌ t ts ↦ List.◌∷◌ (String.◌∷◌ c t) ts
    ]

-- `text.replace(c, "")` for one character.
unfoldable pub remove : ℕ → String → String
remove c String.[] = String.[]
remove c (String.◌∷◌ d s) = let rest = remove c s in if code d == c then rest else String.◌∷◌ d rest

char_at : ℕ → String → Char → Char
char_at n String.[] default = default
char_at zero (String.◌∷◌ c s) default = c
char_at (suc n) (String.◌∷◌ c s) default = char_at n s default

lower_char : Char → Char
unfolding char_at
lower_char c =
    if leb b'A' (code c) && leb (code c) b'Z'
    then char_at (code c - b'A') "abcdefghijklmnopqrstuvwxyz" c
    else c

-- `text.lower()` on the ASCII letters.
unfoldable pub lower : String → String
unfolding lower_char
lower String.[] = String.[]
lower (String.◌∷◌ c s) = String.◌∷◌ (lower_char c) (lower s)
