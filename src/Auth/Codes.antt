-- ===== src/Auth/Codes.antt =====
-- Recovery codes are used once (`_consume_recovery_code` of linkmoth_auth.py).
use linkmoth.Prelude.{
  ◌≡◌, refl, ap, String, Bool, true, false, not, ◌&&◌, none, some, List, [], ◌∷◌, ◌++◌, all, ◌⊎◌,
  inl, inr, Bool-cases, arith,
}
use linkmoth.Auth.Data.{Crypto}
use linkmoth.Auth.Factors.{
  remove_code, normalize_recovery_code, is_recovery_code, consume_recovery_code,
}

abbrev pub StoredCodes : Type 0
StoredCodes = List (String × String)

-- The code verifies against none of the hashes.
abbrev pub refuses : Crypto → String → StoredCodes → Bool
refuses crypto code l = all (λ h. not (crypto.verify code h)) l

-- The first hash that the code verifies against, with what stands before and behind it.
pub record Taken (crypto : Crypto) (code : String) (stored left : StoredCodes) : Type 0 where
  pub before : StoredCodes
  pub used : String × String
  pub behind : StoredCodes
  pub is_stored : stored ≡ before ++ used ∷ behind
  pub is_left : left ≡ before ++ behind
  pub is_used : crypto.verify code used ≡ true
  pub is_first : refuses crypto code before ≡ true

Taken-later :
    (crypto : Crypto) (code : String) (h : String × String) (stored left : StoredCodes)
    → crypto.verify code h ≡ false
    → Taken crypto code stored left
    → Taken crypto code (h ∷ stored) (h ∷ left)
Taken-later crypto code h stored left no_use t = record {
  before = h ∷ t.before;
  used = t.used;
  behind = t.behind;
  is_stored = ap (λ l. h ∷ l) t.is_stored;
  is_left = ap (λ l. h ∷ l) t.is_left;
  is_used = t.is_used;
  is_first = ground (arith, no_use, t.is_first);
}

remove_code-Taken :
    (crypto : Crypto) (code : String) (stored : StoredCodes)
    → ((remove_code crypto code stored ≡ none) × (refuses crypto code stored ≡ true))
      ⊎ ((left : StoredCodes) × ((remove_code crypto code stored ≡ some left)
            × Taken crypto code stored left))
unfolding remove_code
remove_code-Taken crypto code [] = inl (refl, refl)
remove_code-Taken crypto code (h ∷ stored) = elim (Bool-cases (crypto.verify code h)) [
  | inl used ↦ inr (
    stored,
    (
      ground (arith, used),
      record {
        before = [];
        used = h;
        behind = stored;
        is_stored = refl;
        is_left = refl;
        is_used = used;
        is_first = refl;
      },
    ),
  )
  | inr other ↦ elim (remove_code-Taken crypto code stored) [
    | inl (nothing, refused) ↦ inl (ground (arith, other, nothing), ground (arith, other, refused))
    | inr (left, (found, taken)) ↦ inr (
      h ∷ left,
      (ground (arith, other, found), Taken-later crypto code h stored left other taken),
    )
  ]
]

-- A recovery code, normalized, is refused when it has not the form of one or verifies against no stored
-- hash; else exactly the first hash that it verifies against is gone, and all others are kept in order.
pub consume_recovery_code_lem :
    (crypto : Crypto) (code : String) (stored : StoredCodes)
    → ((consume_recovery_code crypto code stored ≡ none)
        × (is_recovery_code (normalize_recovery_code code)
              && not (refuses crypto (normalize_recovery_code code) stored)
            ≡ false))
      ⊎ ((left : StoredCodes) × ((consume_recovery_code crypto code stored ≡ some left)
            × ((is_recovery_code (normalize_recovery_code code) ≡ true)
                × Taken crypto (normalize_recovery_code code) stored left)))
unfolding consume_recovery_code
consume_recovery_code_lem crypto code stored =
    elim (Bool-cases (is_recovery_code (normalize_recovery_code code))) [
      | inr other ↦ inl (ground (arith, other), ground (arith, other))
      | inl hex ↦ elim (remove_code-Taken crypto (normalize_recovery_code code) stored) [
        | inl (nothing, refused) ↦ inl (ground (arith, hex, nothing), ground (arith, refused))
        | inr (left, (found, taken)) ↦ inr (left, (ground (arith, hex, found), (hex, taken)))
      ]
    ]
