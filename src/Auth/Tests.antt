-- ===== src/Auth/Tests.antt =====
-- A login with two factors in the model, and the theorems at concrete inputs.
use linkmoth.Prelude.{
  ℕ, ◌+◌, ◌<◌, ◌≡◌, refl, String, true, false, none, some, List, [], ◌∷◌, ◌==◌, str_eq,
  if◌then◌else◌, ◌⊎◌, inr, arith,
}
use linkmoth.Auth.Data.{Crypto, AuthConfig, max_attempts, text_length, AuthStore, Session, Auth}
use linkmoth.Text.{strip, remove, split}
use linkmoth.Auth.Client.{Addresses, client_ip, parse_all}
use linkmoth.Auth.Throttle.{
  find_attempts, put_attempts, failed_row, login_allowed, record_login_failure,
  clear_login_failures,
}
use linkmoth.Auth.Window.{Gate, GateRun, begin, and_then, admits, fails, examined-lt-max_attempts}
use linkmoth.Auth.Sessions.{
  use_session, create_session, upgrade_session_totp, audit_event, get_session, find_session,
  is_fully_authenticated, totp_fingerprint,
}
use linkmoth.Auth.Factors.{
  find_use, verify_second_factor_method, consume_totp, matched_counter, match_counters, put_use,
  is_code,
}
use linkmoth.Auth.Manage.{verify_login_password, complete_onboarding, done, raised, AuthError}
use linkmoth.Auth.Requests.{verify_csrf, check_login, check_factor, login, second_factor}
use linkmoth.Auth.Backing.{Entry, add_entry, has_entry}
use linkmoth.Auth.Routes.{accepted}
use linkmoth.Auth.SecondFactor.{
  Run, start, then_step, logs_in, proves, is_fully_authenticated-has_entry,
}
use linkmoth.Auth.Replay.{Trial, accepted_counters, increasing, accepted_counters-increasing}
use linkmoth.Auth.Onboard.{may_complete, IsSetUp, complete_onboarding_lem}
use linkmoth.Auth.Forwarded.{with_item, client_ip-forwarded}

-- A password verifies against a hash that is equal to it, and the code of a secret is 123456 at counter 10.
abbrev toy : Crypto
toy = record {
  verify = λ s (salt, hash). str_eq s hash;
  digest = λ s. s;
  totp_at = λ secret counter. some (if counter == 10 then "123456" else "000000");
}

abbrev cfg : AuthConfig
cfg = record {
  session_ttl_seconds = 1000;
  session_idle_seconds = 500;
  login_max_attempts = 3;
  login_lockout_seconds = 60;
}

abbrev store : AuthStore
store = record {
  password = some ("salt", "secret password");
  onboarding = none;
  webhook_secret = some "0123456789abcdef0123456789abcdef";
  totp_secret = some "S";
  recovery = ("salt", "0123abcd") ∷ [];
  pending = none;
  readonly_tokens = [];
}

abbrev nobody : Auth
nobody = record {
  store = store;
  sessions = [];
  attempts = [];
  totp_uses = [];
  events = [];
  next_event = 0;
}

abbrev one : Auth
one = (login toy cfg true 300 "10.0.0.2" "secret password" "cookie" "csrf" nobody).0

abbrev half : Session
half = record {
  id = "cookie";
  created = 300;
  expires = 1300;
  csrf_token = "csrf";
  totp_verified = false;
  totp_fingerprint = none;
  last_activity = some 300;
}

abbrev two : Auth
two = (second_factor toy cfg true 300 "10.0.0.2" "csrf" "123456" (some half) one).0

abbrev full : Session
full = record half { totp_verified = true; totp_fingerprint = some "S" }

abbrev log : List Entry
log = add_entry (accepted toy true 300 "10.0.0.2" "csrf" "123456" half one) []

two_steps : Run toy cfg nobody two log
two_steps =
    then_step (then_step start (logs_in true 300 "10.0.0.2" "secret password" "cookie" "csrf"))
      (proves true 300 "10.0.0.2" "csrf" "123456" half)

signed_in :
    (totp_fingerprint toy two.store ≡ some "S")
    × (((get_session toy cfg 300 "cookie" two).1 ≡ some full)
        × (is_fully_authenticated toy two.store full ≡ true))
unfolding login check_login second_factor check_factor get_session use_session find_session
    create_session upgrade_session_totp audit_event is_fully_authenticated
    verify_second_factor_method consume_totp matched_counter match_counters put_use is_code
    login_allowed find_attempts clear_login_failures verify_csrf verify_login_password strip remove
signed_in = (refl, (refl, refl))

is_fully_authenticated-has_entry_example : has_entry log "cookie" "S" ≡ true
is_fully_authenticated-has_entry_example =
    is_fully_authenticated-has_entry toy cfg 300 "cookie" "S" full refl two_steps signed_in.0
      signed_in.1.0 signed_in.1.1

-- Two requests at a time: with three attempts configured, four wrong guesses are examined.
abbrev quiet_gate : Gate
quiet_gate = record { rows = []; at_work = 0; examined = 0 }

abbrev after : ℕ → ℕ → ℕ → Gate → Gate
after now at_work examined g = record {
  rows = record_login_failure cfg "10.0.0.9" now g.rows;
  at_work = at_work;
  examined = examined;
}

abbrev four : Gate
four = after 4 0 4 (after 3 1 3 (after 2 0 2 (after 1 0 1 quiet_gate)))

four_guesses : GateRun cfg "10.0.0.9" 0 2 quiet_gate four
unfolding login_allowed find_attempts record_login_failure put_attempts failed_row
four_guesses =
    and_then
      (and_then
        (and_then
          (and_then
            (and_then
              (and_then
                (and_then (and_then begin (admits 1 (omega arith) (omega arith) refl (omega arith)))
                  (fails 1 (omega arith) (omega arith) (omega arith)))
                (admits 2 (omega arith) (omega arith) refl (omega arith)))
              (fails 2 (omega arith) (omega arith) (omega arith)))
            (admits 2 (omega arith) (omega arith) refl (omega arith)))
          (admits 2 (omega arith) (omega arith) refl (omega arith)))
        (fails 3 (omega arith) (omega arith) (omega arith)))
      (fails 4 (omega arith) (omega arith) (omega arith))

examined-lt-max_attempts_example : four.examined < max_attempts cfg + 2
unfolding find_attempts
examined-lt-max_attempts_example =
    examined-lt-max_attempts cfg "10.0.0.9" 0 2 four_guesses refl (omega arith) tt

-- The same code twice.
abbrev trials : List Trial
trials = (300, "S", "123456") ∷ (301, "S", "123456") ∷ []

accepted_counters-increasing_example :
    increasing (find_use "S" []) (accepted_counters toy "S" trials []) ≡ true
accepted_counters-increasing_example = accepted_counters-increasing toy "S" trials []

-- The second trial is refused.
accepted_once : accepted_counters toy "S" trials [] ≡ 10 ∷ []
unfolding accepted_counters consume_totp matched_counter match_counters put_use is_code
accepted_once = refl

abbrev token : String
token = "0123456789abcdef0123456789abcdef"

abbrev fresh : Auth
fresh = record nobody {
  store = record store {
    password = none;
    totp_secret = none;
    onboarding = some (record { token = token; expires = 9000 });
  };
}

-- Another thread sets a password first.
abbrev overtaken : AuthStore → AuthStore
overtaken s = record s { password = some ("salt", "other") }

complete_onboarding_example :
    ((complete_onboarding overtaken 300 token "a long password"
          ("salt", "a long password")
          "w"
          fresh).1
        ≡ done tt)
      × ((may_complete overtaken 300 token "a long password" fresh.store ≡ true)
          × IsSetUp
              ("salt", "a long password")
              (complete_onboarding overtaken 300 token "a long password"
                ("salt", "a long password")
                "w"
                fresh).0)
    ⊎ ((e : AuthError) × (((complete_onboarding overtaken 300 token "a long password"
              ("salt", "a long password")
              "w"
              fresh).1
            ≡ raised e)
          × ((may_complete overtaken 300 token "a long password" fresh.store ≡ false)
              × (((complete_onboarding overtaken 300 token "a long password"
                      ("salt", "a long password")
                      "w"
                      fresh).0
                    ≡ fresh)
                  ⊎ ((complete_onboarding overtaken 300 token "a long password"
                        ("salt", "a long password")
                        "w"
                        fresh).0
                      ≡ record fresh { store = overtaken fresh.store })))))
complete_onboarding_example =
    complete_onboarding_lem overtaken 300 token "a long password" ("salt", "a long password") "w"
      fresh

-- Addresses by their length; the one of length seven is the proxy's.
abbrev net : Addresses
net = record {
  parse = λ s. some (text_length s);
  print = λ n. if n == 7 then "proxy" else "client";
  trusted = λ n. n == 7;
}

-- Behind the proxy 7.
client_ip-forwarded_example :
    client_ip net "1.2.3.4" (with_item "6.6.6.6.6" "9.9.9.99") ≡ client_ip net "1.2.3.4" "9.9.9.99"
unfolding parse_all split strip
client_ip-forwarded_example =
    client_ip-forwarded net "1.2.3.4" 7 "6.6.6.6.6" "9.9.9.99" _ refl (inr (refl, refl, refl))
