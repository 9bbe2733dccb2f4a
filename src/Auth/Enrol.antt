-- ===== src/Auth/Enrol.antt =====
-- Switching the second factor of linkmoth_auth.py on and off.
use linkmoth.Prelude.{
  ℕ, ◌+◌, ◌-◌, ◌*◌, String, Bool, not, ◌||◌, none, some, List, [], ltb, ◌==◌, str_eq, if◌then◌else◌,
}
use linkmoth.Text.{is_empty, strip}
use linkmoth.Auth.Data.{Crypto, Pending, Auth}
use linkmoth.Auth.Sessions.{audit_event, destroy_all_sessions, totp_enabled}
use linkmoth.Auth.Factors.{consume_totp, verify_second_factor_method}
use linkmoth.Auth.Manage.{
  Race, value_error, permission_error, Outcome, done, raised, verify_login_password,
}

abbrev pub pending_totp_ttl_seconds : ℕ
pending_totp_ttl_seconds = 10 * 60

-- `begin_totp_setup`; its provisioning URI is not modelled.
unfoldable pub begin_totp_setup : ℕ → String → Auth → Auth
begin_totp_setup now secret a =
    audit_event now "totp_setup_started" "local" "pending enrollment" (record a {
      store = record a.store { pending = some (record { secret = secret; created = now }) };
    })

abbrev pub is_expired : ℕ → Pending → Bool
is_expired now p =
    p.created == 0 || ltb (now + 60) p.created || ltb pending_totp_ttl_seconds (now - p.created)

abbrev clear_pending : Auth → Auth
clear_pending a = record a { store = record a.store { pending = none } }

-- The expired branch: the pending secret is cleared, and the call raises.
unfoldable pub expire_pending : ℕ → Auth → Auth × Outcome (Unit {0})
expire_pending now a = (
  audit_event now "totp_setup_expired" "local" "pending enrollment cleared" (clear_pending a),
  raised value_error,
)

-- The second critical section of `activate_totp`.
unfoldable pub go_live : ℕ → String → List (String × String) → Auth → Auth × Outcome (Unit {0})
go_live now secret hashes a = elim a.store.pending [
  | none ↦ (a, raised value_error)
  | some p ↦
      if not (str_eq p.secret secret)
      then (a, raised value_error)
      else if is_expired now p
      then expire_pending now a
      else (
        audit_event now "totp_enabled" "local" "all sessions invalidated" (
            destroy_all_sessions (record a {
              store = record a.store {
                totp_secret = some secret;
                recovery = hashes;
                pending = none;
              };
            })),
        done tt,
      )
]

-- `activate_totp`; `hashes` are those of the fresh recovery codes.
unfoldable pub activate_totp :
    Crypto → Race → ℕ → String → List (String × String) → Auth → Auth × Outcome (Unit {0})
activate_totp crypto race now code hashes a = elim a.store.pending [
  | none ↦ (a, raised value_error)
  | some p ↦
      if is_expired now p
      then expire_pending now a
      else (let (uses, accepted) = consume_totp crypto now p.secret (strip code) a.totp_uses in
          let a' : Auth = record a { totp_uses = uses } in
          if accepted
          then go_live now p.secret hashes (record a' { store = race a'.store })
          else (a', raised value_error))
]

unfoldable pub disable_totp : ℕ → Auth → Auth
disable_totp now a = audit_event now "totp_disabled" "local" "all sessions invalidated" (
    destroy_all_sessions (record a {
      store = record a.store { totp_secret = none; recovery = []; pending = none };
      totp_uses = [];
    }))

-- `setup_totp`, the console's way.
unfoldable pub setup_totp : ℕ → String → List (String × String) → Auth → Auth
setup_totp now secret hashes a =
    audit_event now "totp_configured" "local" "all sessions invalidated" (
      destroy_all_sessions (record a {
        store = record a.store { totp_secret = some secret; recovery = hashes; pending = none };
        totp_uses = [];
      }))

-- `disable_totp_verified`: the password, or a second factor.
unfoldable pub disable_totp_verified : Crypto → ℕ → String → Auth → Auth × Outcome (Unit {0})
disable_totp_verified crypto now reauth a =
    let given = strip reauth in
    if not (totp_enabled a.store)
    then (a, raised value_error)
    else if is_empty given
    then (a, raised permission_error)
    else if verify_login_password crypto given a.store
    then (disable_totp now a, done tt)
    else (let (a', method) = verify_second_factor_method crypto now given a in
        elim method [
          | none ↦ (a', raised permission_error)
          | some m ↦ (disable_totp now a', done tt)
        ])

unfoldable pub regenerate_recovery_codes :
    Crypto → ℕ → String → List (String × String) → Auth → Auth × Outcome (Unit {0})
regenerate_recovery_codes crypto now password hashes a =
    if not (totp_enabled a.store)
    then (a, raised value_error)
    else if verify_login_password crypto password a.store
    then (
      audit_event now "recovery_codes_regenerated" "local" "previous codes invalidated"
          (record a { store = record a.store { recovery = hashes } }),
      done tt,
    )
    else (a, raised permission_error)
