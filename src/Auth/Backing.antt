-- ===== src/Auth/Backing.antt =====
-- Sessions and the second factors that were accepted for them, in linkmoth_auth.py: which calls keep a
-- fingerprint on a session only where a factor was accepted.
use linkmoth.Prelude.{
  ℕ, ◌-◌, ltb, leb, ◌≡◌, refl, String, Bool, true, not, ◌&&◌, Option, none, some, List, [], ◌∷◌,
  ◌++◌, any, all, keep, update, str_eq, eq_iff, Option-cases, inl, inr, arith,
}
use linkmoth.Auth.Data.{Crypto, AuthConfig, session_idle, Session, Auth}
use linkmoth.Auth.Sessions.{
  audit_event, create_session, find_session, use_session, get_session, destroy_session,
  totp_fingerprint, last_activity_of, upgradable, upgrade_session_totp, purge_expired_sessions,
}

-- An accepted second factor: the session, and the fingerprint of the secret that was in force.
abbrev pub Entry : Type 0
Entry = String × String

abbrev pub has_entry : List Entry → String → String → Bool
has_entry log id fingerprint = any (λ (i, f). str_eq i id && str_eq f fingerprint) log

abbrev pub is_backed : List Entry → Session → Bool
is_backed log s = elim s.totp_fingerprint [ none ↦ true | some f ↦ has_entry log s.id f ]

abbrev pub backed : List Entry → List Session → Bool
backed log sessions = all (is_backed log) sessions

-- An accepted factor is one more entry.
abbrev pub add_entry : Option Entry → List Entry → List Entry
add_entry none log = log
add_entry (some e) log = e ∷ log

backed-append :
    (log : List Entry) (l : List Session) (s : Session)
    → backed log l ≡ true
    → is_backed log s ≡ true
    → backed log (l ++ s ∷ []) ≡ true
backed-append log [] s h k = ground arith
backed-append log (x ∷ l) s h k = ground (arith, backed-append log l s)

pub backed-keep :
    (log : List Entry) (p : Session → Bool) (l : List Session)
    → backed log l ≡ true
    → backed log (keep p l) ≡ true
backed-keep log p [] h = refl
backed-keep log p (x ∷ l) h = ground (arith, backed-keep log p l)

backed-update :
    (log : List Entry) (p : Session → Bool) (f : Session → Session) (l : List Session)
    → ((s : Session) → p s ≡ true → is_backed log s ≡ true → is_backed log (f s) ≡ true)
    → backed log l ≡ true
    → backed log (update p f l) ≡ true
backed-update log p f [] h k = refl
backed-update log p f (x ∷ l) h k = ground (arith, h x, backed-update log p f l h)

is_backed-add :
    (e : Entry) (log : List Entry) (s : Session)
    → is_backed log s ≡ true
    → is_backed (e ∷ log) s ≡ true
is_backed-add e log s h = ground arith

pub backed-add :
    (e : Entry) (log : List Entry) (l : List Session)
    → backed log l ≡ true
    → backed (e ∷ log) l ≡ true
backed-add e log [] h = refl
backed-add e log (s ∷ l) h = ground (arith, is_backed-add e log s, backed-add e log l)

pub sessions-audit :
    (now : ℕ) (event ip detail : String) (a : Auth)
    → (audit_event now event ip detail a).sessions ≡ a.sessions
unfolding audit_event
sessions-audit now event ip detail a = refl

pub store-audit :
    (now : ℕ) (event ip detail : String) (a : Auth)
    → (audit_event now event ip detail a).store ≡ a.store
unfolding audit_event
store-audit now event ip detail a = refl

has_entry_self :
    (log : List Entry) (id f : String) (now : ℕ) (s : Session)
    → upgradable now id s ≡ true
    → has_entry ((id, f) ∷ log) s.id f ≡ true
has_entry_self log id f now s h = ground (arith, h, eq_iff s.id id, eq_iff id s.id, eq_iff f f)

abbrev upgrade : String → Session → Session
upgrade f s = record s { totp_verified = true; totp_fingerprint = some f }

module _ (crypto : Crypto) (cfg : AuthConfig) (log : List Entry) (a : Auth)
    (h : backed log a.sessions ≡ true) where
  pub backed-create :
      (sid csrf : String) (now : ℕ) (verified : Bool)
      → backed log (create_session crypto cfg sid csrf now verified a).0.sessions ≡ true
  unfolding create_session
  backed-create sid csrf now verified = backed-append log a.sessions _ h refl

  pub backed-destroy : (id : String) → backed log (destroy_session id a).sessions ≡ true
  unfolding destroy_session
  backed-destroy id = backed-keep log (λ s. not (str_eq s.id id)) a.sessions h

  backed-use :
      (now : ℕ) (id : String) (s : Session)
      → backed log (use_session cfg now id s a).0.sessions ≡ true
  unfolding use_session
  backed-use now id s = ground (
    arith,
    backed-destroy id,
    backed-update log (λ x. str_eq x.id id) (λ x. record x { last_activity = some now }) a.sessions
        (λ x p q. q) h,
  )

  pub backed-get :
      (now : ℕ) (sid : String) → backed log (get_session crypto cfg now sid a).0.sessions ≡ true
  unfolding get_session
  backed-get now sid = elim (Option-cases (find_session (crypto.digest sid) a.sessions)) [
    | inl missing ↦ ground (arith, missing, h)
    | inr (s, found) ↦ ground (arith, found, h, backed-use now (crypto.digest sid) s)
  ]

  pub backed-purge : (now : ℕ) → backed log (purge_expired_sessions cfg now a).sessions ≡ true
  unfolding purge_expired_sessions
  backed-purge now =
      backed-keep log (λ s. not (ltb (last_activity_of s) (now - session_idle cfg)))
        (keep (λ s. not (leb s.expires now)) a.sessions)
        (backed-keep log (λ s. not (leb s.expires now)) a.sessions h)

  -- The upgraded session has the entry that its acceptance adds.
  pub backed-upgrade :
      (now : ℕ) (id f : String)
      → totp_fingerprint crypto a.store ≡ some f
      → backed ((id, f) ∷ log) (upgrade_session_totp crypto now id a).0.sessions ≡ true
  unfolding upgrade_session_totp
  backed-upgrade now id f e = ground (
    arith,
    e,
    backed-update ((id, f) ∷ log) (upgradable now id) (upgrade f) a.sessions
        (λ s p q. has_entry_self log id f now s p) (backed-add (id, f) log a.sessions h),
  )
