-- ===== src/Auth/Factors.antt =====
-- The second factor of linkmoth_auth.py: authenticator codes, each counter once, and one-time recovery
-- codes.
use linkmoth.Prelude.{
  ℕ, suc, ◌-◌, ◌/◌, String, Bool, true, false, not, ◌&&◌, ◌||◌, Option, none, some, List, [], ◌∷◌,
  all, ltb, leb, ◌==◌, str_eq, if◌then◌else◌,
}
use linkmoth.Text.{codes, strip, is_empty, remove, lower}
use linkmoth.Auth.Data.{Crypto, TotpUse, Auth, text_length}

is_digit : ℕ → Bool
is_digit c = leb b'0' c && leb c b'9'

is_hex : ℕ → Bool
unfolding is_digit
is_hex c = is_digit c || (leb b'a' c && leb c b'f')

-- `code.isdigit() and len(code) == 6`, on ASCII.
unfoldable pub is_code : String → Bool
unfolding is_digit
is_code code = all is_digit (codes code) && text_length code == 6

-- What the search over the counters finds.
pub data Found : Type 0 where
  at : ℕ → Found
  no_match malformed : Found

-- `range(now - window, now + window + 1)` for a window of one; a negative counter raises.
unfoldable pub match_counters : Crypto → String → String → List ℕ → Found
match_counters crypto secret code [] = no_match
match_counters crypto secret code (counter ∷ rest) =
    let later = match_counters crypto secret code rest in
    elim (crypto.totp_at secret counter) [
      | none ↦ malformed
      | some expected ↦ if str_eq expected code then at counter else later
    ]

unfoldable pub matched_counter : Crypto → String → String → ℕ → Found
matched_counter crypto secret code step =
    if step == 0
    then malformed
    else match_counters crypto secret code ((step - 1) ∷ step ∷ suc step ∷ [])

unfoldable pub find_use : String → List TotpUse → Option ℕ
find_use fingerprint [] = none
find_use fingerprint (row ∷ rows) =
    let later = find_use fingerprint rows in
    if str_eq row.fingerprint fingerprint then some row.last_counter else later

-- `INSERT … ON CONFLICT DO UPDATE … WHERE last_counter < excluded.last_counter`: the table, and
-- whether a row was written.
unfoldable pub put_use : String → ℕ → List TotpUse → List TotpUse × Bool
put_use fingerprint counter [] =
    (record { fingerprint = fingerprint; last_counter = counter } ∷ [], true)
put_use fingerprint counter (row ∷ rows) =
    let later = put_use fingerprint counter rows in
    if str_eq row.fingerprint fingerprint
    then (if ltb row.last_counter counter
        then (record row { last_counter = counter } ∷ rows, true)
        else (row ∷ rows, false))
    else (row ∷ later.0, later.1)

-- `_consume_totp`.
unfoldable pub consume_totp : Crypto → ℕ → String → String → List TotpUse → List TotpUse × Bool
consume_totp crypto now secret code uses =
    if not (is_code code)
    then (uses, false)
    else elim (matched_counter crypto secret code (now / 30)) [
      | no_match ↦ (uses, false)
      | malformed ↦ (uses, false)
      | at counter ↦ put_use (crypto.digest secret) counter uses
    ]

-- `_normalize_recovery_code`.
unfoldable pub normalize_recovery_code : String → String
normalize_recovery_code code = lower (remove b' ' (remove b'-' (strip code)))

unfoldable pub is_recovery_code : String → Bool
unfolding is_hex
is_recovery_code code = (text_length code == 8 || text_length code == 16) && all is_hex (codes code)

-- The first stored hash that the code verifies against is removed.
unfoldable pub remove_code :
    Crypto → String → List (String × String) → Option (List (String × String))
remove_code crypto code [] = none
remove_code crypto code (h ∷ rest) =
    let later = remove_code crypto code rest in
    if crypto.verify code h then some rest else elim later [ none ↦ none | some l ↦ some (h ∷ l) ]

-- `_consume_recovery_code`: what is left, when a code was used.
unfoldable pub consume_recovery_code :
    Crypto → String → List (String × String) → Option (List (String × String))
unfolding is_recovery_code
consume_recovery_code crypto code stored =
    let normalized = normalize_recovery_code code in
    if is_recovery_code normalized then remove_code crypto normalized stored else none

pub data Method : Type 0 where
  totp recovery : Method

abbrev with_recovery : Auth → List (String × String) → Auth
with_recovery a left = record a { store = record a.store { recovery = left } }

-- The recovery codes, when the authenticator's code was not accepted.
unfoldable pub try_recovery : Crypto → String → Auth → Auth × Option Method
try_recovery crypto code a = elim (consume_recovery_code crypto code a.store.recovery) [
  | none ↦ (a, none)
  | some left ↦ (with_recovery a left, some recovery)
]

-- `verify_second_factor_method`.
unfoldable pub verify_second_factor_method : Crypto → ℕ → String → Auth → Auth × Option Method
verify_second_factor_method crypto now code a = elim a.store.totp_secret [
  | none ↦ (a, none)
  | some secret ↦
      if is_empty secret
      then (a, none)
      else (let normalized = remove b' ' (strip code) in
          let (uses, accepted) = consume_totp crypto now secret normalized a.totp_uses in
          let a' : Auth = record a { totp_uses = uses } in
          if accepted then (a', some totp) else try_recovery crypto normalized a')
]
