-- ===== src/Webhooks/Headers.antt =====
-- The custom headers of a webhook: `_clean_headers` and `mask_header_value` of linkmoth_webhooks.py.
use linkmoth.Prelude.{
  ℕ, zero, suc, ◌-◌, String, Bool, not, ◌&&◌, ◌||◌, Option, none, some, List, [], ◌∷◌, all, length,
  ltb, leb, ◌==◌, str_eq, if◌then◌else◌,
}
use linkmoth.Text.{codes, strip, is_empty, lower}
use linkmoth.Webhooks.Data.{is_one_of}

abbrev pub Headers : Type 0
Headers = List (String × String)

abbrev pub max_headers : ℕ
max_headers = 10

abbrev pub forbidden_headers : List String
forbidden_headers =
    "connection" ∷ "content-length" ∷ "host" ∷ "keep-alive" ∷ "proxy-authenticate"
    ∷ "proxy-authorization" ∷ "te" ∷ "trailer" ∷ "transfer-encoding" ∷ "upgrade" ∷ []

-- `prefix + text`.
unfoldable pub append : String → String → String
append String.[] t = t
append (String.◌∷◌ c s) t = String.◌∷◌ c (append s t)

unfoldable pub drop_text : ℕ → String → String
drop_text zero s = s
drop_text (suc n) String.[] = String.[]
drop_text (suc n) (String.◌∷◌ c s) = drop_text n s

abbrev pub mask : String
mask = "••••••••"

-- `mask_header_value`: the last four characters of a long value are shown.
unfoldable pub mask_header_value : String → String
mask_header_value v =
    let n = length (codes v) in if ltb 8 n then append mask (drop_text (n - 4) v) else mask

unfoldable pub mask_headers : Headers → Headers
mask_headers [] = []
mask_headers ((name, v) ∷ headers) = (name, mask_header_value v) ∷ mask_headers headers

-- `[A-Za-z0-9-]`.
abbrev pub is_name_char : ℕ → Bool
is_name_char c =
    (leb b'a' c && leb c b'z')
    || ((leb b'A' c && leb c b'Z') || ((leb b'0' c && leb c b'9') || c == b'-'))

abbrev pub is_name : String → Bool
is_name name = not (is_empty name) && all is_name_char (codes name)

unfoldable pub is_value : String → Bool
is_value v = not (is_empty v) && (leb (length (codes v)) 1000 && all (λ c. leb 32 c) (codes v))

-- A name that may be used, after the names that were.
unfoldable pub is_usable : List String → String → Bool
is_usable seen name =
    is_name name
    && (not (is_one_of forbidden_headers (lower name)) && not (is_one_of seen (lower name)))

-- `stored_by_lower.get(lower_name)`: the last header of that name.
unfoldable pub find_stored : String → Headers → Option (String × String)
find_stored key [] = none
find_stored key ((name, v) ∷ headers) = elim (find_stored key headers) [
  | some h ↦ some h
  | none ↦ if str_eq (lower name) key then some (name, v) else none
]

-- A masked value that is unchanged stands for the stored one.
abbrev pub unmask : String → String → Option (String × String) → String × String
unmask name v none = (name, v)
unmask name v (some (n, secret)) =
    if str_eq v (mask_header_value secret) then (n, secret) else (name, v)

unfoldable pub clean_loop : Headers → List String → Headers → Option Headers
clean_loop stored seen [] = some []
clean_loop stored seen ((given, raw) ∷ rest) =
    let name = strip given in
    let v = strip raw in
    let later = clean_loop stored (lower name ∷ seen) rest in
    if is_usable seen name && is_value v
    then elim later [
      | none ↦ none
      | some l ↦ some (unmask name v (find_stored (lower name) stored) ∷ l)
    ]
    else none

-- `_clean_headers`; `none` for the ValueError.
unfoldable pub clean_headers : Headers → Headers → Option Headers
clean_headers value stored =
    if ltb max_headers (length value) then none else clean_loop stored [] value
