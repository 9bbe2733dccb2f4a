-- ===== src/Auth/Replay.antt =====
-- Codes of an authenticator cannot be played again (`_consume_totp` of linkmoth_auth.py).
use linkmoth.Prelude.{
  ℕ, ◌/◌, ltb, ◌≡◌, refl, String, Bool, true, false, ◌&&◌, Option, none, some, List, [], ◌∷◌,
  str_eq, eq_iff, Bool-cases, inl, inr, if◌then◌else◌, ◌⊎◌, arith,
}
use linkmoth.Auth.Data.{Crypto, TotpUse}
use linkmoth.Auth.Factors.{
  Found, at, no_match, malformed, is_code, matched_counter, find_use, put_use, consume_totp,
}

-- A code that is tried: when, against which secret, and the code.
abbrev pub Trial : Type 0
Trial = ℕ × String × String

-- The counters of the codes that are accepted for one secret, over a sequence of trials.
unfoldable pub accepted_counters : Crypto → String → List Trial → List TotpUse → List ℕ
accepted_counters crypto fingerprint [] uses = []
accepted_counters crypto fingerprint ((now, secret, code) ∷ trials) uses =
    let (left, ok) = consume_totp crypto now secret code uses in
    let later = accepted_counters crypto fingerprint trials left in
    if ok && str_eq (crypto.digest secret) fingerprint
    then elim (matched_counter crypto secret code (now / 30)) [
      | at c ↦ c ∷ later
      | no_match ↦ later
      | malformed ↦ later
    ]
    else later

abbrev pub is_above : Option ℕ → ℕ → Bool
is_above none c = true
is_above (some b) c = ltb b c

-- Each counter is above the one before it, and the first one above the floor.
abbrev pub increasing : Option ℕ → List ℕ → Bool
increasing floor [] = true
increasing floor (c ∷ l) = is_above floor c && increasing (some c) l

put_use-accepts :
    (fp : String) (c : ℕ) (uses : List TotpUse)
    → (put_use fp c uses).1 ≡ is_above (find_use fp uses) c
unfolding put_use find_use
put_use-accepts fp c [] = refl
put_use-accepts fp c (row ∷ rows) = ground (arith, put_use-accepts fp c rows)

find_use-put_use :
    (f fp : String) (c : ℕ) (uses : List TotpUse)
    → find_use f (put_use fp c uses).0
      ≡ (if (put_use fp c uses).1 && str_eq fp f then some c else find_use f uses)
unfolding put_use find_use
find_use-put_use f fp c [] = ground (arith, eq_iff fp f)
find_use-put_use f fp c (row ∷ rows) = ground (
  arith,
  find_use-put_use f fp c rows,
  eq_iff fp f,
  eq_iff row.fingerprint fp,
  eq_iff row.fingerprint f,
)

-- A trial writes the table only where the code's counter is above the last one.
Found-cases : (m : Found) → (m ≡ no_match) ⊎ ((m ≡ malformed) ⊎ ((c : ℕ) × (m ≡ at c)))
Found-cases (at c) = inr (inr (c, refl))
Found-cases no_match = inl refl
Found-cases malformed = inr (inl refl)

consume_totp_lem :
    (crypto : Crypto) (now : ℕ) (secret code : String) (uses : List TotpUse)
    → (consume_totp crypto now secret code uses ≡ (uses, false))
      ⊎ ((c : ℕ) × ((matched_counter crypto secret code (now / 30) ≡ at c)
            × (consume_totp crypto now secret code uses ≡ put_use (crypto.digest secret) c uses)))
unfolding consume_totp
consume_totp_lem crypto now secret code uses =
    elim (Found-cases (matched_counter crypto secret code (now / 30))) [
      | inl none_found ↦ inl (ground (arith, none_found))
      | inr (inl bad) ↦ inl (ground (arith, bad))
      | inr (inr (c, found)) ↦ elim (Bool-cases (is_code code)) [
        | inl six ↦ inr (c, (found, ground (arith, six, found)))
        | inr other ↦ inl (ground (arith, other))
      ]
    ]

-- Over any sequence of trials, with any secrets, the counters accepted for one secret strictly
-- increase, from above the last counter that the table holds for it: no code is accepted twice.
pub accepted_counters-increasing :
    (crypto : Crypto) (fingerprint : String) (trials : List Trial) (uses : List TotpUse)
    → increasing (find_use fingerprint uses) (accepted_counters crypto fingerprint trials uses)
      ≡ true
unfolding accepted_counters
accepted_counters-increasing crypto f [] uses = refl
accepted_counters-increasing crypto f ((now, secret, code) ∷ trials) uses =
    let again =
      accepted_counters-increasing crypto f trials (consume_totp crypto now secret code uses).0 in
    elim (consume_totp_lem crypto now secret code uses) [
      | inl refused ↦ ground (arith, refused, again)
      | inr (c, (found, e)) ↦ ground (
        arith,
        found,
        e,
        again,
        put_use-accepts (crypto.digest secret) c uses,
        find_use-put_use f (crypto.digest secret) c uses,
        eq_iff (crypto.digest secret) f,
      )
    ]
