-- ===== src/Auth/Routes.antt =====
-- The sessions of linkmoth_auth.py and the accepted factors over each request of linkmoth_handler.py.
use linkmoth.Prelude.{
  ℕ, ◌≡◌, refl, ◌∙◌, String, Bool, true, false, not, ◌&&◌, Option, none, some, List, Option-cases,
  inl, inr, if◌then◌else◌, arith,
}
use linkmoth.Text.{strip}
use linkmoth.Auth.Data.{Crypto, AuthConfig, AuthStore, Session, Auth}
use linkmoth.Auth.Sessions.{audit_event, totp_enabled, totp_fingerprint, upgrade_session_totp}
use linkmoth.Auth.Factors.{Method, verify_second_factor_method}
use linkmoth.Auth.Manage.{Race, complete_onboarding}
use linkmoth.Auth.Requests.{
  fail_guess, forgive, is_allowed, check_login, login, set_up, verify_csrf, check_factor,
  second_factor, logout, Security, password_route, activate_route, disable_route, codes_route,
  call_security, security_post,
}
use linkmoth.Auth.Backing.{Entry, backed, add_entry, backed-create, backed-destroy, backed-upgrade}
use linkmoth.Auth.Kept.{
  Kept, verify_second_factor_lem, Kept-change_password, Kept-complete_onboarding,
  Kept-activate_totp, Kept-disable_totp_verified, Kept-regenerate,
}

pub Kept-backed :
    (log : List Entry) (a b : Auth)
    → Kept a b
    → backed log a.sessions ≡ true
    → backed log b.sessions ≡ true
Kept-backed log a b (inl same) h = rw same h
Kept-backed log a b (inr ended) h = rw ended refl

module _ (crypto : Crypto) (cfg : AuthConfig) (log : List Entry) (now : ℕ) (a : Auth)
    (h : backed log a.sessions ≡ true) where
  backed-check_login :
      (ip password sid csrf : String)
      → backed log (check_login crypto cfg now ip password sid csrf a).0.sessions ≡ true
  unfolding check_login fail_guess audit_event
  backed-check_login ip password sid csrf = ground (
    arith,
    h,
    backed-create crypto cfg log (forgive ip a) h sid csrf now true,
    backed-create crypto cfg log a h sid csrf now false,
  )

  pub backed-login :
      (slot : Bool) (ip password sid csrf : String)
      → backed log (login crypto cfg slot now ip password sid csrf a).0.sessions ≡ true
  unfolding login audit_event
  backed-login slot ip password sid csrf =
      ground (arith, h, backed-check_login ip password sid csrf)

  pub backed-logout :
      (ip token : String) (s : Option Session)
      → backed log (logout now ip token s a).0.sessions ≡ true
  unfolding logout audit_event
  backed-logout ip token none = h
  backed-logout ip token (some s) = ground (
    arith,
    h,
    backed-destroy crypto cfg log (audit_event now "logout" ip "session invalidated" a) h s.id,
  )

  Kept-call :
      (race : Race) (request : Security) → Kept a (call_security crypto race now request a).0
  unfolding call_security
  Kept-call race (password_route current new hashed fresh) =
      Kept-change_password crypto now current new hashed fresh a
  Kept-call race (activate_route code hashes) = Kept-activate_totp crypto race now code hashes a
  Kept-call race (disable_route reauth) = Kept-disable_totp_verified crypto now reauth a
  Kept-call race (codes_route password hashes) = Kept-regenerate crypto now password hashes a

  pub backed-security_post :
      (race : Race) (slot : Bool) (ip path : String) (request : Security)
      → backed log (security_post crypto cfg race slot now ip path request a).0.sessions ≡ true
  unfolding security_post fail_guess audit_event
  backed-security_post race slot ip path request = ground (
    arith,
    h,
    Kept-backed log a (call_security crypto race now request a).0 (Kept-call race request) h,
  )

  pub backed-set_up :
      (race : Race) (matches slot : Bool) (ip token password : String) (hashed : String × String)
      (fresh sid csrf : String)
      → backed log
          (set_up crypto cfg race matches slot now ip token password hashed fresh sid csrf
            a).0.sessions
        ≡ true
  unfolding set_up fail_guess audit_event
  backed-set_up race matches slot ip token password hashed fresh sid csrf =
      let b = (complete_onboarding race now (strip token) password hashed fresh a).0 in
      let k =
        Kept-backed log a b
          (Kept-complete_onboarding race now (strip token) password hashed fresh a) h in
      ground (arith, h, k, backed-create crypto cfg log (forgive ip b) k sid csrf now true)

-- The entry that a request with a second factor adds: for the session that it came with, behind the
-- CSRF check, the free slot and the throttle, when the factor was accepted.
unfoldable pub accepted :
    Crypto → Bool → ℕ → String → String → String → Session → Auth → Option Entry
accepted crypto slot now ip token code s a =
    if verify_csrf token s
      && (totp_enabled a.store && (not s.totp_verified && (slot && is_allowed now ip a)))
    then elim (verify_second_factor_method crypto now code a).1 [
      | none ↦ none
      | some m ↦ elim (totp_fingerprint crypto a.store) [ none ↦ none | some f ↦ some (s.id, f) ]
    ]
    else none

-- What a factor that was accepted adds.
unfoldable pub proved : Crypto → String → Auth → Option Entry
proved crypto id a = elim (totp_fingerprint crypto a.store) [ none ↦ none | some f ↦ some (id, f) ]

fingerprint_same :
    (crypto : Crypto) (s t : AuthStore)
    → s.totp_secret ≡ t.totp_secret
    → totp_fingerprint crypto s ≡ totp_fingerprint crypto t
fingerprint_same crypto s t e = ground (arith, e)

upgrade_off :
    (crypto : Crypto) (now : ℕ) (id : String) (a : Auth)
    → totp_fingerprint crypto a.store ≡ none
    → (upgrade_session_totp crypto now id a).0 ≡ a
unfolding upgrade_session_totp
upgrade_off crypto now id a e = ground (arith, e)

module _ (crypto : Crypto) (cfg : AuthConfig) (log : List Entry) (now : ℕ) (a : Auth)
    (h : backed log a.sessions ≡ true) where
  abbrev tried : String → Auth
  tried code = (verify_second_factor_method crypto now code a).0

  backed-tried : (code : String) → backed log (tried code).sessions ≡ true
  backed-tried code = rw (verify_second_factor_lem crypto now code a).0 h

  backed-proved :
      (ip code id : String)
      → backed
          (add_entry (proved crypto id a) log)
          (upgrade_session_totp crypto now id (forgive ip (tried code))).0.sessions
        ≡ true
  unfolding proved
  backed-proved ip code id =
      let b = forgive ip (tried code) in
      let same =
        fingerprint_same crypto b.store a.store (verify_second_factor_lem crypto now code a).1 in
      elim (Option-cases (totp_fingerprint crypto a.store)) [
        | inl off ↦ ground (arith, off, upgrade_off crypto now id b (same ∙ off), backed-tried code)
        | inr (f, on) ↦
            ground
              (arith, on, backed-upgrade crypto cfg log b (backed-tried code) now id f (same ∙ on))
      ]

  abbrev entry_of : Option Method → String → Option Entry
  entry_of none id = none
  entry_of (some m) id = proved crypto id a

  backed-check_factor :
      (ip code : String) (s : Session)
      → backed
          (add_entry (entry_of (verify_second_factor_method crypto now code a).1 s.id) log)
          (check_factor crypto cfg now ip code s a).0.sessions
        ≡ true
  unfolding check_factor fail_guess audit_event
  backed-check_factor ip code s =
      elim (Option-cases (verify_second_factor_method crypto now code a).1) [
        | inl refused ↦ ground (arith, refused, backed-tried code)
        | inr (m, accepted_by) ↦ ground (arith, accepted_by, backed-proved ip code s.id)
      ]

  pub backed-second_factor :
      (slot : Bool) (ip token code : String) (s : Session)
      → backed
          (add_entry (accepted crypto slot now ip token code s a) log)
          (second_factor crypto cfg slot now ip token code (some s) a).0.sessions
        ≡ true
  unfolding second_factor accepted audit_event proved
  backed-second_factor slot ip token code s = ground (arith, h, backed-check_factor ip code s)
