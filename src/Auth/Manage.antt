-- ===== src/Auth/Manage.antt =====
-- The methods of linkmoth_auth.py that change the store: onboarding and
-- the password. What is drawn at random is an argument; `Race` is what other threads do to the store
-- while the lock is not held.
use linkmoth.Prelude.{
  ℕ, ◌+◌, ◌*◌, String, Bool, true, false, not, ◌&&◌, Option, none, some, ltb, leb, str_eq,
  if◌then◌else◌,
}
use linkmoth.Text.{is_empty}
use linkmoth.Auth.Data.{Crypto, Onboarding, AuthStore, Auth, text_length}
use linkmoth.Auth.Sessions.{audit_event, destroy_all_sessions, totp_enabled}

-- `ValueError`, `PermissionError` and `RuntimeError`.
pub data AuthError : Type 0 where
  value_error permission_error runtime_error : AuthError

pub data Outcome {ℓ} (A : Type ℓ) : Type ℓ where
  done : A → Outcome A
  raised : AuthError → Outcome A

abbrev pub Race : Type 0
Race = AuthStore → AuthStore

abbrev pub min_password_length : ℕ
min_password_length = 12

abbrev pub max_password_length : ℕ
max_password_length = 1024

abbrev pub onboarding_token_ttl : ℕ
onboarding_token_ttl = 24 * 3600

abbrev pub has_password : AuthStore → Bool
has_password store = elim store.password [ none ↦ false | some p ↦ true ]

-- `verify_login_password`.
unfoldable pub verify_login_password : Crypto → String → AuthStore → Bool
verify_login_password crypto password store = elim store.password [
  | none ↦ false
  | some p ↦ crypto.verify password p
]

abbrev pub is_secret : Option String → Bool
is_secret none = false
is_secret (some s) = leb 32 (text_length s)

-- A webhook secret that is missing or too short is drawn anew.
abbrev pub with_webhook_secret : String → AuthStore → AuthStore
with_webhook_secret fresh store =
    if is_secret store.webhook_secret then store else record store { webhook_secret = some fresh }

-- `ensure_onboarding_token`: the token, and whether it is new.
abbrev usable_token : ℕ → Option Onboarding → Option String
usable_token now none = none
usable_token now (some o) =
    if leb 32 (text_length o.token) && ltb now o.expires then some o.token else none

unfoldable pub ensure_onboarding_token : ℕ → String → String → Auth → Auth × Option String
ensure_onboarding_token now fresh fresh_secret a =
    if has_password a.store then (a, none) else elim (usable_token now a.store.onboarding) [
      | some token ↦ (a, some token)
      | none ↦
          let store = with_webhook_secret fresh_secret (record a.store {
            onboarding = some (record { token = fresh; expires = now + onboarding_token_ttl });
          }) in
          (
            audit_event now "onboarding_token_created" "local" "expires in 24 hours"
                (record a { store = store }),
            some fresh,
          )
    ]

abbrev pub is_password : String → Bool
is_password password =
    leb min_password_length (text_length password) && leb (text_length password) max_password_length

-- `token_is_valid`.
abbrev pub token_is_valid : ℕ → String → AuthStore → Bool
token_is_valid now token store = elim store.onboarding [
  | none ↦ false
  | some o ↦ ltb now o.expires && (not (is_empty token) && str_eq token o.token)
]

-- The check that is made twice, before and after the password is hashed.
abbrev pub may_onboard : ℕ → String → AuthStore → Option AuthError
may_onboard now token store =
    if has_password store
    then some runtime_error
    else if token_is_valid now token store
    then none
    else some permission_error

-- The store with a new password; the set-up token is spent.
unfoldable pub with_password : String × String → String → AuthStore → AuthStore
with_password hashed fresh_secret store =
    with_webhook_secret fresh_secret (record store { password = some hashed; onboarding = none })

unfoldable pub store_password : ℕ → String → String → String × String → String → Auth → Auth
unfolding with_password
store_password now event detail hashed fresh_secret a =
    audit_event now event "local" detail
      (destroy_all_sessions (record a { store = with_password hashed fresh_secret a.store }))

unfoldable pub complete_onboarding :
    Race → ℕ → String → String → String × String → String → Auth → Auth × Outcome (Unit {0})
complete_onboarding race now token password hashed fresh_secret a =
    if not (is_password password)
    then (a, raised value_error)
    else if totp_enabled a.store
    then (a, raised runtime_error)
    else elim (may_onboard now token a.store) [
      | some e ↦ (a, raised e)
      | none ↦
          let a' : Auth = record a { store = race a.store } in
          elim (may_onboard now token a'.store) [
            | some e ↦ (a', raised e)
            | none ↦ (
              store_password now "onboarding_completed" "admin password created" hashed fresh_secret
                  a',
              done tt,
            )
          ]
    ]

unfoldable pub set_password :
    ℕ → String → String × String → String → Auth → Auth × Outcome (Unit {0})
set_password now password hashed fresh_secret a =
    if is_password password
    then (
      store_password now "password_changed" "all sessions invalidated" hashed fresh_secret a,
      done tt,
    )
    else (a, raised value_error)

unfoldable pub change_password :
    Crypto → ℕ → String → String → String × String → String → Auth → Auth × Outcome (Unit {0})
change_password crypto now current new hashed fresh_secret a =
    if verify_login_password crypto current a.store
    then set_password now new hashed fresh_secret a
    else (a, raised permission_error)
