-- ===== src/Auth/Accepted.antt =====
-- Which requests are authenticated (`authenticate_headers_core`, ugoite-core/src/auth.rs).

use ugoite.Common.{
  String, ◌≡◌, refl, sym, subst, Bool, true, false, not, Option, none, some, Result, ok, err, guard,
  ok_or, ◌>>=◌, >>=-inv, ok-injective, if◌then◌else◌, arith, ◌==◌,
}
use ugoite.Common.Text.{trim, is_empty, starts_with}
use ugoite.Common.Maps.{HashMap, lookup}
use ugoite.Json.{Value, bool}
use ugoite.Json.Object.{value_get, get, insert, from_list}
use ugoite.Auth.Config.{
  CoreAuthError, auth_error, CredentialRecord, Crypto, HashSet, non_blank, parse_record_map,
  parse_key_value_map, parse_string_set, identity_from_record,
}
use ugoite.Auth.Signed.{authenticate_signed_bearer}
use ugoite.Auth.Headers.{
  AuthInput, authenticate, authenticate_token, bearer_token, accept_record, is_revoked,
  bearer_tokens, authenticate_headers_core, answer,
}
use ugoite.Auth.Tokens.{IsSigned, authenticate_signed_bearer-IsSigned, guard-ok, ok_or-ok, not-true}

-- A credential has a record that is neither revoked nor disabled.
abbrev pub IsRecord : HashMap CredentialRecord → HashSet → String → CredentialRecord → Type 0
IsRecord records revoked credential r =
    (lookup credential records ≡ some r) × (is_revoked revoked r ≡ false) × (r.disabled ≡ false)

accept_record-IsRecord :
    (records : HashMap CredentialRecord) (revoked : HashSet) (credential : String)
    (unknown refused : CoreAuthError) (auth_method : String) (identity : Value)
    → accept_record revoked (lookup credential records) unknown refused auth_method ≡ ok identity
    → (r : CredentialRecord) × IsRecord records revoked credential r
      × (identity ≡ identity_from_record r auth_method)
unfolding accept_record
accept_record-IsRecord records revoked credential unknown refused auth_method identity h =
    >>=-inv (ok_or (lookup credential records) unknown) _ h λ r e0 h0.
      >>=-inv (guard (not (is_revoked revoked r)) refused) _ h0 λ _ e1 h1.
        >>=-inv (guard (not r.disabled) _) _ h1 λ _ e2 h2. (
          r,
          (ok_or-ok _ _ e0, not-true _ (guard-ok _ _ e1), not-true _ (guard-ok _ _ e2)),
          sym (ok-injective h2),
        )

answer-inv :
    (o : Result CoreAuthError Value)
    → value_get "ok" (answer o) ≡ some (bool true)
    → (identity : Value) × (o ≡ ok identity) × (value_get "identity" (answer o) ≡ some identity)
unfolding answer value_get from_list get insert ◌==◌
answer-inv (ok identity) h = (identity, refl, refl)
answer-inv (err e) h = ground arith

module _ (crypto : Crypto) (input : AuthInput) where
  abbrev pub revoked_keys : HashSet
  revoked_keys = parse_string_set input.revoked_key_ids_raw

  -- The three ways to an identity: a signed token, a static token, or, without an authorization
  -- header, an API key.
  pub data IsAccepted : Value → Type 0 where
    by_signed_token :
        (header token : String) (r : CredentialRecord)
        → non_blank input.authorization ≡ some header
        → bearer_token crypto header ≡ ok token
        → IsSigned crypto
            (parse_key_value_map input.bearer_secrets)
            (parse_string_set input.active_kids_raw)
            revoked_keys
            token
            r
        → IsAccepted (identity_from_record r "bearer")
    by_static_token :
        (header token : String) (r : CredentialRecord)
        → non_blank input.authorization ≡ some header
        → bearer_token crypto header ≡ ok token
        → IsRecord (bearer_tokens crypto input) revoked_keys token r
        → IsAccepted (identity_from_record r "bearer")
    by_api_key :
        (key : String) (r : CredentialRecord)
        → non_blank input.authorization ≡ none
        → non_blank input.api_key ≡ some key
        → IsRecord (parse_record_map crypto input.api_keys_json) revoked_keys (trim key) r
        → IsAccepted (identity_from_record r "api_key")

  authenticate_token-IsAccepted :
      (header token : String) (identity : Value)
      → non_blank input.authorization ≡ some header
      → bearer_token crypto header ≡ ok token
      → authenticate_token crypto input token ≡ ok identity
      → IsAccepted identity
  unfolding authenticate_token
  authenticate_token-IsAccepted header token identity a b h =
      split_on (is_empty token) (starts_with "v1." token) h
    where
      split_on :
          (blank signed : Bool)
          → (if blank
              then err (auth_error "missing_credentials" "Missing bearer token")
              else if signed
              then authenticate_signed_bearer crypto token
                  (parse_key_value_map input.bearer_secrets)
                  (parse_string_set input.active_kids_raw)
                  revoked_keys
              else accept_record revoked_keys
                  (lookup token (bearer_tokens crypto input))
                  (auth_error "invalid_credentials" "Invalid bearer token")
                  (auth_error "revoked_key" "Bearer token has been revoked")
                  "bearer")
            ≡ ok identity
          → IsAccepted identity
      split_on true signed k = cc
      split_on false true k =
          let (r, signed, e) = authenticate_signed_bearer-IsSigned crypto token _ _ _ identity k in
          subst IsAccepted (sym e) (by_signed_token header token r a b signed)
      split_on false false k =
          let (r, found, e) =
            accept_record-IsRecord (bearer_tokens crypto input) revoked_keys token _ _ "bearer"
              identity k in
          subst IsAccepted (sym e) (by_static_token header token r a b found)

  authenticate-IsAccepted :
      (identity : Value) → authenticate crypto input ≡ ok identity → IsAccepted identity
  unfolding authenticate
  authenticate-IsAccepted identity h = by_header (non_blank input.authorization) refl
    where
      by_key :
          (o : Option String)
          → non_blank input.authorization ≡ none
          → non_blank input.api_key ≡ o
          → IsAccepted identity
      by_key (some key) e f =
          let accepted : accept_record revoked_keys
                (lookup (trim key) (parse_record_map crypto input.api_keys_json))
                (auth_error "invalid_credentials" "Invalid API key")
                (auth_error "revoked_key" "API key has been revoked") "api_key"
              ≡ ok identity =
            cc in
          let (r, found, g) =
            accept_record-IsRecord (parse_record_map crypto input.api_keys_json) revoked_keys
              (trim key) _ _ "api_key" identity accepted in
          subst IsAccepted (sym g) (by_api_key key r e f found)
      by_key none e f = cc

      by_header : (o : Option String) → non_blank input.authorization ≡ o → IsAccepted identity
      by_header (some header) e =
          let accepted : (bearer_token crypto header >>= authenticate_token crypto input)
              ≡ ok identity =
            cc in
          >>=-inv (bearer_token crypto header) (authenticate_token crypto input) accepted
            λ token b j. authenticate_token-IsAccepted header token identity e b j
      by_header none e = by_key (non_blank input.api_key) e refl

  -- When the answer says `ok`, it holds an identity, and a signed token, a static token or an API
  -- key that is valid, not revoked and not disabled stands behind that identity.
  pub authenticate_headers_core-IsAccepted :
      value_get "ok" (authenticate_headers_core crypto input) ≡ some (bool true)
      → (identity : Value) × (value_get "identity" (authenticate_headers_core crypto input)
          ≡ some identity)
        × IsAccepted identity
  unfolding authenticate_headers_core
  authenticate_headers_core-IsAccepted h =
      let (identity, e, k) = answer-inv (authenticate crypto input) h in
      (identity, k, authenticate-IsAccepted identity e)
