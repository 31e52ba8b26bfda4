-- ===== src/Auth/Headers.antt =====
-- `authenticate_headers_core` of ugoite-core/src/auth.rs.

use ugoite.Common.{
  String, Bool, true, false, not, Option, none, some, [], ◌∷◌, Result, ok, err, guard, ok_or, ◌>>=◌,
  ◌>>◌, ◌==◌, if◌then◌else◌,
}
use ugoite.Common.Text.{trim, is_empty, starts_with, splitn_two}
use ugoite.Common.Maps.{HashMap, lookup, put}
use ugoite.Json.{Value, bool, number, pos_int, string, object}
use ugoite.Json.Object.{from_list}
use ugoite.Auth.Config.{
  CoreAuthError, auth_error, CredentialRecord, Crypto, HashSet, contains, opt_or, non_blank,
  parse_record_map, parse_key_value_map, parse_string_set, identity_from_record,
}
use ugoite.Auth.Signed.{authenticate_signed_bearer}

-- The arguments of `authenticate_headers_core`.
pub record AuthInput : Type 0 where
  pub authorization : Option String
  pub api_key : Option String
  pub bearer_tokens_json : Option String
  pub api_keys_json : Option String
  pub bearer_secrets : Option String
  pub active_kids_raw : Option String
  pub revoked_key_ids_raw : Option String
  pub bootstrap_token : Option String
  pub bootstrap_user_id : Option String

unfoldable pub bootstrap_record : Option String → CredentialRecord
bootstrap_record bootstrap_user_id = record {
  user_id = opt_or (non_blank bootstrap_user_id) "bootstrap-user";
  principal_type = "user";
  display_name = some "Local Bootstrap User";
  key_id = some "bootstrap";
  disabled = false;
  scopes = [];
  scope_enforced = false;
  service_account_id = none;
}

-- The bootstrap token stands in for a configuration without tokens.
unfoldable pub with_bootstrap : AuthInput → HashMap CredentialRecord → HashMap CredentialRecord
unfolding bootstrap_record
with_bootstrap input [] = elim (non_blank input.bootstrap_token) [
  | none ↦ []
  | some token ↦ put token (bootstrap_record input.bootstrap_user_id) []
]
with_bootstrap input (r ∷ rs) = r ∷ rs

-- `key_id.is_some_and(|key_id| revoked_key_ids.contains(key_id))`
unfoldable pub is_revoked : HashSet → CredentialRecord → Bool
is_revoked revoked_key_ids r = elim r.key_id [
  | none ↦ false
  | some key_id ↦ contains revoked_key_ids key_id
]

unfoldable pub accept_record :
    HashSet
    → Option CredentialRecord
    → CoreAuthError
    → CoreAuthError
    → String
    → Result CoreAuthError Value
unfolding is_revoked
accept_record revoked_key_ids found unknown revoked auth_method = do
  r ← ok_or found unknown
  guard (not (is_revoked revoked_key_ids r)) revoked
  guard (not r.disabled) (auth_error "disabled_identity" "Principal is disabled")
  ok (identity_from_record r auth_method)

-- `CoreAuthError::as_json`
unfoldable pub error_as_json : CoreAuthError → Value
error_as_json e = object (
    from_list (
      ("code", string e.code)
      ∷ ("detail", string e.detail)
      ∷ ("status_code", number (pos_int e.status_code))
      ∷ []))

-- The object that a result is returned as.
unfoldable pub answer : Result CoreAuthError Value → Value
unfolding error_as_json
answer (ok identity) = object (from_list (("ok", bool true) ∷ ("identity", identity) ∷ []))
answer (err e) = object (from_list (("ok", bool false) ∷ ("error", error_as_json e) ∷ []))

module _ (crypto : Crypto) where
  -- The static tokens in force.
  unfoldable pub bearer_tokens : AuthInput → HashMap CredentialRecord
  unfolding with_bootstrap
  bearer_tokens input = with_bootstrap input (parse_record_map crypto input.bearer_tokens_json)

  unfoldable pub authenticate_token : AuthInput → String → Result CoreAuthError Value
  unfolding bearer_tokens accept_record
  authenticate_token input token =
      if is_empty token
      then err (auth_error "missing_credentials" "Missing bearer token")
      else if starts_with "v1." token
      then authenticate_signed_bearer crypto token (parse_key_value_map input.bearer_secrets)
          (parse_string_set input.active_kids_raw) (parse_string_set input.revoked_key_ids_raw)
      else accept_record (parse_string_set input.revoked_key_ids_raw)
          (lookup token (bearer_tokens input))
          (auth_error "invalid_credentials" "Invalid bearer token")
          (auth_error "revoked_key" "Bearer token has been revoked") "bearer"

  -- The token of an `Authorization` header.
  unfoldable pub bearer_token : String → Result CoreAuthError String
  unfolding splitn_two trim
  bearer_token auth_header =
      let parts = splitn_two b' ' auth_header in
      elim parts.1 [
        | none ↦
            err (auth_error "invalid_credentials" "Authorization header must use Bearer scheme")
        | some rest ↦
            if crypto.to_lowercase parts.0 == "bearer"
            then ok (trim rest)
            else err
                (auth_error "invalid_credentials" "Authorization header must use Bearer scheme")
      ]

  unfoldable pub authenticate : AuthInput → Result CoreAuthError Value
  unfolding bearer_token authenticate_token accept_record
  authenticate input = elim (non_blank input.authorization) [
    | some auth_header ↦ (bearer_token auth_header >>= authenticate_token input)
    | none ↦ elim (non_blank input.api_key) [
      | some raw_key ↦
          accept_record (parse_string_set input.revoked_key_ids_raw)
            (lookup (trim raw_key) (parse_record_map crypto input.api_keys_json))
            (auth_error "invalid_credentials" "Invalid API key")
            (auth_error "revoked_key" "API key has been revoked") "api_key"
      | none ↦ err (
          auth_error "missing_credentials"
            "Authentication required. Provide Authorization: Bearer <token> or X-API-Key.")
    ]
  ]

  unfoldable pub authenticate_headers_core : AuthInput → Value
  unfolding authenticate
  authenticate_headers_core input = answer (authenticate input)
