-- ===== src/Auth/Sessions.antt =====
-- The sessions of linkmoth_auth.py. A session id and a CSRF token are drawn at random: arguments.
use linkmoth.Prelude.{
  ℕ, suc, ◌+◌, ◌-◌, ◌/◌, ◌*◌, String, Bool, true, false, not, ◌&&◌, ◌||◌, Option, none, some, List,
  [], ◌∷◌, ◌++◌, keep, update, min, ltb, leb, newest, str_eq, if◌then◌else◌,
}
use linkmoth.Text.{is_empty, truncate}
use linkmoth.Auth.Data.{
  Crypto, AuthConfig, session_ttl, session_idle, AuthStore, Session, Attempts, AuthEvent, Auth,
}

abbrev pub max_audit_events : ℕ
max_audit_events = 1000

abbrev pub audit_retention_seconds : ℕ
audit_retention_seconds = 90 * 86400

-- `audit_event`, for an event's name and a detail that are printable already.
unfoldable pub audit_event : ℕ → String → String → String → Auth → Auth
audit_event now event ip detail a =
    let row : AuthEvent = record {
      id = a.next_event;
      ts = now;
      event = truncate 64 event;
      ip = ip;
      detail = truncate 200 detail;
    } in
    record a {
      events = newest max_audit_events (
          keep (λ (e : AuthEvent). leb now (e.ts + audit_retention_seconds))
            (a.events ++ row ∷ []));
      next_event = suc a.next_event;
    }

new_session : Crypto → AuthConfig → String → String → ℕ → Bool → Session
new_session crypto cfg sid csrf now verified = record {
  id = crypto.digest sid;
  created = now;
  expires = now + session_ttl cfg;
  csrf_token = csrf;
  totp_verified = verified;
  totp_fingerprint = none;
  last_activity = some now;
}

-- `create_session`: the table and the new row.
unfoldable pub create_session :
    Crypto → AuthConfig → String → String → ℕ → Bool → Auth → Auth × Session
unfolding new_session
create_session crypto cfg sid csrf now verified a =
    let s = new_session crypto cfg sid csrf now verified in
    (record a { sessions = a.sessions ++ s ∷ [] }, s)

unfoldable pub find_session : String → List Session → Option Session
find_session id [] = none
find_session id (s ∷ rest) =
    let later = find_session id rest in if str_eq s.id id then some s else later

abbrev pub last_activity_of : Session → ℕ
last_activity_of s = elim s.last_activity [ none ↦ s.created | some t ↦ t ]

-- Past its lifetime or idle for too long.
abbrev pub is_stale : AuthConfig → ℕ → Session → Bool
is_stale cfg now s = leb s.expires now || ltb (session_idle cfg) (now - last_activity_of s)

unfoldable pub destroy_session : String → Auth → Auth
destroy_session id a = record a { sessions = keep (λ s. not (str_eq s.id id)) a.sessions }

unfoldable pub destroy_all_sessions : Auth → Auth
destroy_all_sessions a = record a { sessions = [] }

touch_session : ℕ → String → Auth → Auth
touch_session now id a = record a {
  sessions = update (λ s. str_eq s.id id) (λ s. record s { last_activity = some now }) a.sessions;
}

-- A session that was found: deleted when it is stale, else its idle window slides now and then.
unfoldable pub use_session : AuthConfig → ℕ → String → Session → Auth → Auth × Option Session
unfolding touch_session
use_session cfg now id s a = if is_stale cfg now s then (destroy_session id a, none) else (
  (if ltb (min 300 (session_idle cfg / 4)) (now - last_activity_of s)
      then touch_session now id a
      else a),
  some (record s { last_activity = some now }),
)

-- `get_session`; a missing cookie is "".
unfoldable pub get_session : Crypto → AuthConfig → ℕ → String → Auth → Auth × Option Session
get_session crypto cfg now sid a =
    if is_empty sid then (a, none) else elim (find_session (crypto.digest sid) a.sessions) [
      | none ↦ (a, none)
      | some s ↦ use_session cfg now (crypto.digest sid) s a
    ]

-- `_totp_fingerprint`.
abbrev pub totp_fingerprint : Crypto → AuthStore → Option String
totp_fingerprint crypto store = elim store.totp_secret [
  | none ↦ none
  | some secret ↦ if is_empty secret then none else some (crypto.digest secret)
]

abbrev pub totp_enabled : AuthStore → Bool
totp_enabled store = elim store.totp_secret [ none ↦ false | some secret ↦ not (is_empty secret) ]

abbrev pub upgradable : ℕ → String → Session → Bool
upgradable now id s = str_eq s.id id && ltb now s.expires

-- `upgrade_session_totp`, and the fingerprint when a row was updated.
unfoldable pub upgrade_session_totp : Crypto → ℕ → String → Auth → Auth × Option String
upgrade_session_totp crypto now id a = elim (totp_fingerprint crypto a.store) [
  | none ↦ (a, none)
  | some fingerprint ↦ (
    record a {
      sessions =
          update (upgradable now id)
            (λ s. record s { totp_verified = true; totp_fingerprint = some fingerprint })
            a.sessions;
    },
    elim (keep (upgradable now id) a.sessions) [ [] ↦ none | _ ↦ some fingerprint ],
  )
]

-- `is_fully_authenticated`.
unfoldable pub is_fully_authenticated : Crypto → AuthStore → Session → Bool
is_fully_authenticated crypto store s =
    if totp_enabled store
    then (s.totp_verified && elim (totp_fingerprint crypto store) [
      | none ↦ false
      | some expected ↦ elim s.totp_fingerprint [
        | none ↦ false
        | some actual ↦ str_eq actual expected
      ]
    ])
    else true

-- `purge_expired_sessions`.
unfoldable pub purge_expired_sessions : AuthConfig → ℕ → Auth → Auth
purge_expired_sessions cfg now a = record a {
  sessions =
      keep (λ s. not (ltb (last_activity_of s) (now - session_idle cfg)))
        (keep (λ s. not (leb s.expires now)) a.sessions);
  attempts = keep (λ (row : Attempts). not (ltb row.last_attempt (now - 7 * 86400))) a.attempts;
}
