-- ===== src/Auth/Tokens.antt =====
-- The read-only tokens of linkmoth_auth.py.
use linkmoth.Prelude.{
  ℕ, String, Bool, true, false, not, ◌&&◌, [], ◌∷◌, ◌++◌, keep, any, length, leb, ◌==◌, str_eq,
  if◌then◌else◌,
}
use linkmoth.Text.{is_empty, strip, truncate, has_prefix}
use linkmoth.Auth.Data.{Crypto, ReadonlyToken, AuthStore, Auth}
use linkmoth.Auth.Sessions.{audit_event}
use linkmoth.Auth.Manage.{value_error, Outcome, done, raised}

abbrev pub readonly_token_limit : ℕ
readonly_token_limit = 10

abbrev token_name : String → String
token_name name = let short = truncate 60 (strip name) in if is_empty short then "token" else short

-- `create_readonly_token`; `value` is the token as it is shown once.
unfoldable pub create_readonly_token :
    Crypto → ℕ → String → String → String → Auth → Auth × Outcome (Unit {0})
create_readonly_token crypto now id value name a =
    if leb readonly_token_limit (length a.store.readonly_tokens) then (a, raised value_error) else (
      let entry : ReadonlyToken = record {
        id = id;
        name = token_name name;
        hash = crypto.digest value;
        created = now;
      } in
          audit_event now "readonly_token_created" "local" (token_name name) (record a {
            store = record a.store { readonly_tokens = a.store.readonly_tokens ++ entry ∷ [] };
          }),
      done tt,
    )

unfoldable pub revoke_readonly_token : ℕ → String → Auth → Auth × Bool
revoke_readonly_token now id a =
    let kept = keep (λ (t : ReadonlyToken). not (str_eq t.id id)) a.store.readonly_tokens in
    if length kept == length a.store.readonly_tokens then (a, false) else (
      audit_event now "readonly_token_revoked" "local" id
          (record a { store = record a.store { readonly_tokens = kept } }),
      true,
    )

-- `verify_readonly_token` behind the header's "Bearer ".
unfoldable pub verify_readonly_token : Crypto → String → AuthStore → Bool
verify_readonly_token crypto value store =
    has_prefix "lmro_" value
    && any (λ (t : ReadonlyToken). str_eq t.hash (crypto.digest value)) store.readonly_tokens
