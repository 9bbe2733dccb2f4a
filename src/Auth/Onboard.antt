-- ===== src/Auth/Onboard.antt =====
-- The set-up of the administrator's password (`complete_onboarding` of linkmoth_auth.py), whatever other
-- threads do to the store while the password is hashed.
use linkmoth.Prelude.{ℕ, ◌≡◌, String, Bool, true, false, not, ◌&&◌, none, some, [], ◌⊎◌, arith}
use linkmoth.Auth.Data.{AuthStore, Auth}
use linkmoth.Auth.Sessions.{audit_event, destroy_all_sessions, totp_enabled}
use linkmoth.Auth.Manage.{
  Race, AuthError, done, raised, has_password, is_password, token_is_valid, with_password,
  store_password, complete_onboarding,
}

-- What a set-up needs: of the request, of the store at first, and of the store that it then writes.
abbrev pub may_complete : Race → ℕ → String → String → AuthStore → Bool
may_complete race now token password store =
    is_password password
    && (not (totp_enabled store)
        && (not (has_password store)
            && (token_is_valid now token store
                && (not (has_password (race store)) && token_is_valid now token (race store)))))

-- The administrator's password is set, the token is spent, and no session is left.
abbrev pub IsSetUp : String × String → Auth → Type 0
IsSetUp hashed a =
    (a.store.password ≡ some hashed) × ((a.store.onboarding ≡ none) × (a.sessions ≡ []))

IsSetUp-store_password :
    (now : ℕ) (event detail : String) (hashed : String × String) (fresh : String) (a : Auth)
    → IsSetUp hashed (store_password now event detail hashed fresh a)
unfolding store_password with_password audit_event destroy_all_sessions
IsSetUp-store_password now event detail hashed fresh a = ground arith

-- The set-up succeeds exactly when the password has a legal length, no authenticator is in force, and
-- both before and after the hashing the store has no password and holds the token that was given, not
-- expired. Then the password is set, the token spent and every session ended; otherwise the call raises,
-- the sessions stay, and the store is the old one or what the other threads made of it.
pub complete_onboarding_lem :
    (race : Race) (now : ℕ) (token password : String) (hashed : String × String) (fresh : String)
    (a : Auth)
    → ((complete_onboarding race now token password hashed fresh a).1 ≡ done tt)
        × ((may_complete race now token password a.store ≡ true)
            × IsSetUp hashed (complete_onboarding race now token password hashed fresh a).0)
      ⊎ ((e : AuthError) × (((complete_onboarding race now token password hashed fresh a).1
              ≡ raised e)
            × ((may_complete race now token password a.store ≡ false)
                × (((complete_onboarding race now token password hashed fresh a).0 ≡ a)
                    ⊎ ((complete_onboarding race now token password hashed fresh a).0
                        ≡ record a { store = race a.store })))))
unfolding complete_onboarding
complete_onboarding_lem race now token password hashed fresh a = ground (
  arith,
  IsSetUp-store_password now "onboarding_completed" "admin password created" hashed fresh
      (record a { store = race a.store }),
)
