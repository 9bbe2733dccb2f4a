-- ===== src/Auth/Requests.antt =====
-- The authentication requests of linkmoth_handler.py, behind the same-origin check. `slot` says whether
-- a slot for the expensive hash was free; `ip` is what `_client_ip` gives.
use linkmoth.Prelude.{
  ℕ, String, Bool, true, false, not, ◌&&◌, Option, none, some, List, str_eq, if◌then◌else◌,
}
use linkmoth.Text.{is_empty, strip}
use linkmoth.Auth.Data.{Crypto, AuthConfig, Session, Auth}
use linkmoth.Auth.Throttle.{login_allowed, record_login_failure, clear_login_failures}
use linkmoth.Auth.Sessions.{
  audit_event, create_session, destroy_session, totp_enabled, upgrade_session_totp,
}
use linkmoth.Auth.Factors.{Method, totp, recovery, verify_second_factor_method}
use linkmoth.Auth.Manage.{
  Race, value_error, permission_error, runtime_error, Outcome, done, raised, has_password,
  verify_login_password, complete_onboarding, change_password,
}
use linkmoth.Auth.Enrol.{activate_totp, disable_totp_verified, regenerate_recovery_codes}

-- The HTTP status, and the session whose cookie is set.
pub record Reply : Type 0 where
  pub status : ℕ
  pub session : Option Session

abbrev pub plain : ℕ → Reply
plain status = record { status = status; session = none }

-- A failed guess: the throttle's row and the audit row.
unfoldable pub fail_guess : AuthConfig → ℕ → String → String → String → Auth → Auth
fail_guess cfg now ip event detail a =
    audit_event now event ip detail
      (record a { attempts = record_login_failure cfg ip now a.attempts })

abbrev pub forgive : String → Auth → Auth
forgive ip a = record a { attempts = clear_login_failures ip a.attempts }

abbrev pub is_allowed : ℕ → String → Auth → Bool
is_allowed now ip a = (login_allowed ip now a.attempts).0

-- `_handle_auth_login` behind the gate.
unfoldable pub check_login :
    Crypto → AuthConfig → ℕ → String → String → String → String → Auth → Auth × Reply
check_login crypto cfg now ip password sid csrf a =
    if not (has_password a.store)
    then (a, plain 409)
    else if verify_login_password crypto password a.store
    then (let verified = not (totp_enabled a.store) in
        let (a', s) =
          create_session crypto cfg sid csrf now verified (if verified then forgive ip a else a) in
        (
          audit_event now "login_success" ip
              (if verified then "password only" else "password accepted; TOTP pending") a',
          record { status = 200; session = some s },
        ))
    else (fail_guess cfg now ip "login_failure" "invalid credentials" a, plain 401)

unfoldable pub login :
    Crypto → AuthConfig → Bool → ℕ → String → String → String → String → Auth → Auth × Reply
login crypto cfg slot now ip password sid csrf a =
    if not (is_allowed now ip a)
    then (audit_event now "login_rate_limited" ip "" a, plain 429)
    else if slot
    then check_login crypto cfg now ip password sid csrf a
    else (a, plain 503)

-- `_handle_auth_setup`; `matches` says that the password was confirmed.
unfoldable pub set_up :
    Crypto
    → AuthConfig
    → Race
    → Bool
    → Bool
    → ℕ
    → String
    → String
    → String
    → String × String
    → String
    → String
    → String
    → Auth
    → Auth × Reply
set_up crypto cfg race matches slot now ip token password hashed fresh_secret sid csrf a =
    if has_password a.store
    then (a, plain 409)
    else if not matches
    then (a, plain 400)
    else if not (is_allowed now ip a)
    then (audit_event now "onboarding_rate_limited" ip "" a, plain 429)
    else if not slot
    then (a, plain 503)
    else (let (a', outcome) =
          complete_onboarding race now (strip token) password hashed fresh_secret a in
        elim outcome [
          | raised permission_error ↦
              (fail_guess cfg now ip "onboarding_failure" "invalid bootstrap token" a', plain 401)
          | raised value_error ↦ (a', plain 400)
          | raised runtime_error ↦ (a', plain 409)
          | done u ↦
              let (a'', s) = create_session crypto cfg sid csrf now true (forgive ip a') in
              (a'', record { status = 201; session = some s })
        ])

-- `verify_csrf`; a missing header is "".
unfoldable pub verify_csrf : String → Session → Bool
verify_csrf token s =
    not (is_empty token) && (not (is_empty s.csrf_token) && str_eq token s.csrf_token)

method_event : Method → String
method_event totp = "totp_success"
method_event recovery = "recovery_code_used"

-- `_handle_auth_totp` behind the slot and the gate.
unfoldable pub check_factor :
    Crypto → AuthConfig → ℕ → String → String → Session → Auth → Auth × Reply
unfolding method_event
check_factor crypto cfg now ip code s a =
    let (a', method) = verify_second_factor_method crypto now code a in
    elim method [
      | none ↦ (fail_guess cfg now ip "totp_failure" "invalid second factor" a', plain 401)
      | some m ↦
          let (a'', fingerprint) = upgrade_session_totp crypto now s.id (forgive ip a') in
          elim fingerprint [
            | none ↦ (a'', plain 401)
            | some f ↦ (audit_event now (method_event m) ip "second factor accepted" a'', plain 200)
          ]
    ]

unfoldable pub second_factor :
    Crypto → AuthConfig → Bool → ℕ → String → String → String → Option Session → Auth → Auth × Reply
second_factor crypto cfg slot now ip token code none a = (a, plain 401)
second_factor crypto cfg slot now ip token code (some s) a =
    if not (verify_csrf token s)
    then (audit_event now "csrf_rejected" ip "TOTP" a, plain 403)
    else if not (totp_enabled a.store)
    then (a, plain 400)
    else if s.totp_verified
    then (a, plain 200)
    else if not slot
    then (a, plain 503)
    else if is_allowed now ip a
    then check_factor crypto cfg now ip code s a
    else (audit_event now "totp_rate_limited" ip "" a, plain 429)

unfoldable pub logout : ℕ → String → String → Option Session → Auth → Auth × Reply
logout now ip token none a = (a, plain 200)
logout now ip token (some s) a =
    if verify_csrf token s
    then (destroy_session s.id (audit_event now "logout" ip "session invalidated" a), plain 200)
    else (audit_event now "csrf_rejected" ip "logout" a, plain 403)

-- The routes of `_handle_security_post` that verify a password or a code, with what each draws at
-- random.
pub data Security : Type 0 where
  password_route : String → String → String × String → String → Security
  activate_route : String → List (String × String) → Security
  disable_route : String → Security
  codes_route : String → List (String × String) → Security

unfoldable pub call_security : Crypto → Race → ℕ → Security → Auth → Auth × Outcome (Unit {0})
call_security crypto race now (password_route current new hashed fresh) a =
    change_password crypto now current new hashed fresh a
call_security crypto race now (activate_route code hashes) a =
    activate_totp crypto race now code hashes a
call_security crypto race now (disable_route reauth) a = disable_totp_verified crypto now reauth a
call_security crypto race now (codes_route password hashes) a =
    regenerate_recovery_codes crypto now password hashes a

is_activate : Security → Bool
is_activate (activate_route code hashes) = true
is_activate _ = false

-- `_handle_security_post`, behind the session and the CSRF check; no route raises RuntimeError.
unfoldable pub security_post :
    Crypto → AuthConfig → Race → Bool → ℕ → String → String → Security → Auth → Auth × Reply
unfolding is_activate
security_post crypto cfg race slot now ip path request a =
    if not slot
    then (a, plain 503)
    else if not (is_allowed now ip a)
    then (audit_event now "security_rate_limited" ip path a, plain 429)
    else (let (a', outcome) = call_security crypto race now request a in
        elim outcome [
          | done u ↦ (forgive ip a', plain 200)
          | raised permission_error ↦
              (fail_guess cfg now ip "security_reauth_failed" path a', plain 401)
          | raised value_error ↦ (
            (if is_activate request
                then fail_guess cfg now ip "totp_setup_failed" "code rejected" a'
                else a'),
            plain 400,
          )
          | raised runtime_error ↦ (a', plain 500)
        ])
