-- ===== src/Auth/SecondFactor.antt =====
-- With a second factor in force, a session of linkmoth_auth.py is authenticated only after a second
-- factor was accepted for it: over any sequence of the requests of linkmoth_handler.py.
use linkmoth.Prelude.{
  ℕ, ◌≡◌, refl, String, Bool, true, Option, none, some, List, [], ◌∷◌, eq_iff, Option-cases, inl,
  inr, arith,
}
use linkmoth.Auth.Data.{Crypto, AuthConfig, Session, Auth}
use linkmoth.Auth.Sessions.{
  audit_event, destroy_all_sessions, use_session, find_session, get_session, purge_expired_sessions,
  totp_fingerprint, is_fully_authenticated,
}
use linkmoth.Auth.Manage.{Race, set_password}
use linkmoth.Auth.Enrol.{begin_totp_setup, setup_totp}
use linkmoth.Auth.Requests.{login, set_up, second_factor, logout, Security, security_post}
use linkmoth.Auth.Routes.{
  Kept-backed, accepted, backed-login, backed-logout, backed-security_post, backed-set_up,
  backed-second_factor,
}
use linkmoth.Auth.Backing.{Entry, has_entry, is_backed, backed, add_entry, backed-get, backed-purge}
use linkmoth.Auth.Kept.{Kept-set_password}

-- One request, or one action of the console, with the factor that it proved.
pub data Step (crypto : Crypto) (cfg : AuthConfig) (a : Auth) : Auth → Option Entry → Type 0 where
  logs_in :
      (slot : Bool) (now : ℕ) (ip password sid csrf : String)
      → Step crypto cfg a (login crypto cfg slot now ip password sid csrf a).0 none
  sets_up :
      (race : Race) (matches slot : Bool) (now : ℕ) (ip token password : String)
      (hashed : String × String) (fresh sid csrf : String)
      → Step crypto cfg a
          (set_up crypto cfg race matches slot now ip token password hashed fresh sid csrf a).0
          none
  proves :
      (slot : Bool) (now : ℕ) (ip token code : String) (s : Session)
      → Step crypto cfg a
          (second_factor crypto cfg slot now ip token code (some s) a).0
          (accepted crypto slot now ip token code s a)
  logs_out :
      (now : ℕ) (ip token : String) (s : Option Session)
      → Step crypto cfg a (logout now ip token s a).0 none
  begins : (now : ℕ) (secret : String) → Step crypto cfg a (begin_totp_setup now secret a) none
  posts :
      (race : Race) (slot : Bool) (now : ℕ) (ip path : String) (request : Security)
      → Step crypto cfg a (security_post crypto cfg race slot now ip path request a).0 none
  visits : (now : ℕ) (sid : String) → Step crypto cfg a (get_session crypto cfg now sid a).0 none
  purges : (now : ℕ) → Step crypto cfg a (purge_expired_sessions cfg now a) none
  configures :
      (now : ℕ) (secret : String) (hashes : List (String × String))
      → Step crypto cfg a (setup_totp now secret hashes a) none
  resets :
      (now : ℕ) (password : String) (hashed : String × String) (fresh : String)
      → Step crypto cfg a (set_password now password hashed fresh a).0 none

pub data Run (crypto : Crypto) (cfg : AuthConfig) (a : Auth) : Auth → List Entry → Type 0 where
  start : Run crypto cfg a a []
  then_step :
      {b c : Auth} {log : List Entry} {e : Option Entry}
      → Run crypto cfg a b log
      → Step crypto cfg b c e
      → Run crypto cfg a c (add_entry e log)

Step-backed :
    (crypto : Crypto) (cfg : AuthConfig) (log : List Entry) {a b : Auth} {e : Option Entry}
    → Step crypto cfg a b e
    → backed log a.sessions ≡ true
    → backed (add_entry e log) b.sessions ≡ true
unfolding begin_totp_setup setup_totp audit_event destroy_all_sessions
Step-backed crypto cfg log {a} (logs_in slot now ip password sid csrf) h =
    backed-login crypto cfg log now a h slot ip password sid csrf
Step-backed crypto cfg log {a}
      (sets_up race matches slot now ip token password hashed fresh sid csrf) h =
    backed-set_up crypto cfg log now a h race matches slot ip token password hashed fresh sid csrf
Step-backed crypto cfg log {a} (proves slot now ip token code s) h =
    backed-second_factor crypto cfg log now a h slot ip token code s
Step-backed crypto cfg log {a} (logs_out now ip token s) h =
    backed-logout crypto cfg log now a h ip token s
Step-backed crypto cfg log (begins now secret) h = h
Step-backed crypto cfg log {a} (posts race slot now ip path request) h =
    backed-security_post crypto cfg log now a h race slot ip path request
Step-backed crypto cfg log {a} (visits now sid) h = backed-get crypto cfg log a h now sid
Step-backed crypto cfg log {a} (purges now) h = backed-purge crypto cfg log a h now
Step-backed crypto cfg log (configures now secret hashes) h = refl
Step-backed crypto cfg log {a} (resets now password hashed fresh) h =
    Kept-backed log a (set_password now password hashed fresh a).0
      (Kept-set_password now password hashed fresh a) h

Run-backed :
    (crypto : Crypto) (cfg : AuthConfig) {a b : Auth} {log : List Entry}
    → a.sessions ≡ []
    → Run crypto cfg a b log
    → backed log b.sessions ≡ true
Run-backed crypto cfg h start = rw h refl
Run-backed crypto cfg h (then_step {log = log} run step) =
    Step-backed crypto cfg log step (Run-backed crypto cfg h run)

found-backed :
    (log : List Entry) (id : String) (l : List Session)
    → backed log l ≡ true
    → (s : Session) → find_session id l ≡ some s
    → (is_backed log s ≡ true) × (s.id ≡ id)
unfolding find_session
found-backed log id [] h s found = ground (arith, found)
found-backed log id (x ∷ l) h s found = ground (
  arith,
  found,
  λ (later : find_session id l ≡ some s). found-backed log id l (ground (arith, h)) s later,
  eq_iff x.id id,
)

used-backed :
    (cfg : AuthConfig) (log : List Entry) (now : ℕ) (id : String) (s t : Session) (a : Auth)
    → (is_backed log s ≡ true) × (s.id ≡ id)
    → (use_session cfg now id s a).1 ≡ some t
    → (is_backed log t ≡ true) × (t.id ≡ id)
unfolding use_session
used-backed cfg log now id s t a h used = ground (arith, h, used)

given-backed :
    (crypto : Crypto) (cfg : AuthConfig) (log : List Entry) (now : ℕ) (sid : String) (s : Session)
    (a : Auth)
    → backed log a.sessions ≡ true
    → (get_session crypto cfg now sid a).1 ≡ some s
    → (is_backed log s ≡ true) × (s.id ≡ crypto.digest sid)
unfolding get_session
given-backed crypto cfg log now sid s a h given =
    elim (Option-cases (find_session (crypto.digest sid) a.sessions)) [
      | inl missing ↦ ground (arith, missing, given)
      | inr (t, found) ↦
          used-backed cfg log now (crypto.digest sid) t s a
            (found-backed log (crypto.digest sid) a.sessions h t found)
            (ground (arith, found, given))
    ]

-- With an authenticator in force, over any sequence of requests and console actions that starts with no
-- session: a session that a cookie stands for is fully authenticated only if an accepted second factor,
-- checked against the very secret that is in force now, was recorded for that session's id.
pub is_fully_authenticated-has_entry :
    (crypto : Crypto) (cfg : AuthConfig) {a b : Auth} {log : List Entry} (now : ℕ)
    (sid fingerprint : String) (s : Session)
    → a.sessions ≡ []
    → Run crypto cfg a b log
    → totp_fingerprint crypto b.store ≡ some fingerprint
    → (get_session crypto cfg now sid b).1 ≡ some s
    → is_fully_authenticated crypto b.store s ≡ true
    → has_entry log (crypto.digest sid) fingerprint ≡ true
unfolding is_fully_authenticated
is_fully_authenticated-has_entry crypto cfg {b = b} {log = log} now sid fingerprint s none_yet run
      on given full =
    let (k, e) =
      given-backed crypto cfg log now sid s b (Run-backed crypto cfg none_yet run) given in
    elim (Option-cases b.store.totp_secret) [
      | inl off ↦ ground (arith, off, on)
      | inr (secret, set) ↦ elim (Option-cases s.totp_fingerprint) [
        | inl bare ↦ ground (arith, set, on, bare, full)
        | inr (f, held) ↦ ground (arith, set, on, held, full, k, e, eq_iff f fingerprint)
      ]
    ]
