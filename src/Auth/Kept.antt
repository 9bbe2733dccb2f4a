-- ===== src/Auth/Kept.antt =====
-- What the methods of linkmoth_auth.py do to the sessions: each leaves them as they are or ends them all.
use linkmoth.Prelude.{ℕ, ◌≡◌, refl, String, List, [], Option-cases, inl, inr, ◌⊎◌, arith}
use linkmoth.Text.{strip, remove}
use linkmoth.Auth.Data.{Crypto, Auth}
use linkmoth.Auth.Sessions.{audit_event, destroy_all_sessions}
use linkmoth.Auth.Factors.{
  consume_totp, consume_recovery_code, try_recovery, verify_second_factor_method,
}
use linkmoth.Auth.Manage.{
  Race, may_onboard, complete_onboarding, store_password, set_password, change_password,
}
use linkmoth.Auth.Enrol.{
  expire_pending, go_live, activate_totp, disable_totp, disable_totp_verified,
  regenerate_recovery_codes,
}

-- The same sessions, or none.
abbrev pub Kept : Auth → Auth → Type 0
Kept a b = (b.sessions ≡ a.sessions) ⊎ (b.sessions ≡ [])

pub try_recovery_lem :
    (crypto : Crypto) (code : String) (a : Auth)
    → ((try_recovery crypto code a).0.sessions ≡ a.sessions)
      × ((try_recovery crypto code a).0.store.totp_secret ≡ a.store.totp_secret)
unfolding try_recovery
try_recovery_lem crypto code a =
    elim (Option-cases (consume_recovery_code crypto code a.store.recovery)) [
      | inl none_left ↦ ground (arith, none_left)
      | inr (l, left) ↦ ground (arith, left)
    ]

pub verify_second_factor_lem :
    (crypto : Crypto) (now : ℕ) (code : String) (a : Auth)
    → ((verify_second_factor_method crypto now code a).0.sessions ≡ a.sessions)
      × ((verify_second_factor_method crypto now code a).0.store.totp_secret ≡ a.store.totp_secret)
unfolding verify_second_factor_method
verify_second_factor_lem crypto now code a = elim (Option-cases a.store.totp_secret) [
  | inl off ↦ ground (arith, off)
  | inr (secret, on) ↦ ground (
    arith,
    on,
    try_recovery_lem crypto (remove b' ' (strip code)) (record a {
      totp_uses = (consume_totp crypto now secret (remove b' ' (strip code)) a.totp_uses).0;
    }),
  )
]

Kept-store_password :
    (now : ℕ) (event detail : String) (hashed : String × String) (fresh : String) (a : Auth)
    → Kept a (store_password now event detail hashed fresh a)
unfolding store_password audit_event destroy_all_sessions
Kept-store_password now event detail hashed fresh a = inr refl

pub Kept-set_password :
    (now : ℕ) (password : String) (hashed : String × String) (fresh : String) (a : Auth)
    → Kept a (set_password now password hashed fresh a).0
unfolding set_password
Kept-set_password now password hashed fresh a =
    ground
      (arith, Kept-store_password now "password_changed" "all sessions invalidated" hashed fresh a)

pub Kept-change_password :
    (crypto : Crypto) (now : ℕ) (current new : String) (hashed : String × String) (fresh : String)
    (a : Auth)
    → Kept a (change_password crypto now current new hashed fresh a).0
unfolding change_password
Kept-change_password crypto now current new hashed fresh a =
    ground (arith, Kept-set_password now new hashed fresh a)

pub Kept-complete_onboarding :
    (race : Race) (now : ℕ) (token password : String) (hashed : String × String) (fresh : String)
    (a : Auth)
    → Kept a (complete_onboarding race now token password hashed fresh a).0
unfolding complete_onboarding
Kept-complete_onboarding race now token password hashed fresh a =
    elim (Option-cases (may_onboard now token a.store)) [
      | inr (e, refused) ↦ ground (arith, refused)
      | inl allowed ↦ elim (Option-cases (may_onboard now token (race a.store))) [
        | inr (e, refused) ↦ ground (arith, allowed, refused)
        | inl again ↦ ground (
          arith,
          allowed,
          again,
          Kept-store_password now "onboarding_completed" "admin password created" hashed fresh
              (record a { store = race a.store }),
        )
      ]
    ]

Kept-expire : (now : ℕ) (a : Auth) → Kept a (expire_pending now a).0
unfolding expire_pending audit_event
Kept-expire now a = inl refl

Kept-go_live :
    (now : ℕ) (secret : String) (hashes : List (String × String)) (a : Auth)
    → Kept a (go_live now secret hashes a).0
unfolding go_live audit_event destroy_all_sessions
Kept-go_live now secret hashes a = elim (Option-cases a.store.pending) [
  | inl missing ↦ ground (arith, missing)
  | inr (p, waiting) ↦ ground (arith, waiting, Kept-expire now a)
]

pub Kept-activate_totp :
    (crypto : Crypto) (race : Race) (now : ℕ) (code : String) (hashes : List (String × String))
    (a : Auth)
    → Kept a (activate_totp crypto race now code hashes a).0
unfolding activate_totp
Kept-activate_totp crypto race now code hashes a = elim (Option-cases a.store.pending) [
  | inl missing ↦ ground (arith, missing)
  | inr (p, waiting) ↦ ground (
    arith,
    waiting,
    Kept-expire now a,
    Kept-go_live now p.secret hashes (record a {
      totp_uses = (consume_totp crypto now p.secret (strip code) a.totp_uses).0;
      store = race a.store;
    }),
  )
]

pub Kept-disable_totp_verified :
    (crypto : Crypto) (now : ℕ) (reauth : String) (a : Auth)
    → Kept a (disable_totp_verified crypto now reauth a).0
unfolding disable_totp_verified disable_totp audit_event destroy_all_sessions
Kept-disable_totp_verified crypto now reauth a =
    elim (Option-cases (verify_second_factor_method crypto now (strip reauth) a).1) [
      | inl refused ↦ ground (arith, refused, verify_second_factor_lem crypto now (strip reauth) a)
      | inr (m, accepted) ↦ ground (arith, accepted)
    ]

pub Kept-regenerate :
    (crypto : Crypto) (now : ℕ) (password : String) (hashes : List (String × String)) (a : Auth)
    → Kept a (regenerate_recovery_codes crypto now password hashes a).0
unfolding regenerate_recovery_codes audit_event
Kept-regenerate crypto now password hashes a = ground arith
