-- ===== src/Auth/Signed.antt =====
-- `authenticate_signed_bearer` of ugoite-core/src/auth.rs.

use ugoite.Common.{
  ℕ, Ordering, String, Bool, true, false, ◌&&◌, ◌||◌, not, Option, none, some, List, [], ◌∷◌,
  Result, ok, err, guard, ok_or, ◌>>=◌, ◌>>◌, if◌then◌else◌, nat_eq,
}
use ugoite.Common.Text.{is_empty, split}
use ugoite.Common.Maps.{HashMap, lookup}
use ugoite.Json.{Value, Fields, as_object}
use ugoite.Json.Object.{get, get_str}
use ugoite.Json.Float.{f64_cmp}
use ugoite.Auth.Config.{
  CoreAuthError, auth_error, CredentialRecord, Crypto, HashSet, contains, opt_or, parse_scopes,
  flag, is_principal, identity_from_record,
}

-- `ct_eq` of two digests, which differ if their lengths do.
unfoldable pub bytes_eq : List ℕ → List ℕ → Bool
bytes_eq [] [] = true
bytes_eq (a ∷ as') (b ∷ bs) = nat_eq a b && bytes_eq as' bs
bytes_eq _ _ = false

abbrev pub is_lt : Ordering → Bool
is_lt Ordering.lt = true
is_lt _ = false

abbrev pub non_empty : Option String → Option String
non_empty none = none
non_empty (some s) = if is_empty s then none else some s

unfoldable pub token_segments : String → Result CoreAuthError (String × String)
unfolding split
token_segments token = elim (split b'.' token) [
  | _ ∷ payload_segment ∷ signature_segment ∷ [] ↦ ok (payload_segment, signature_segment)
  | _ ↦ err (auth_error "invalid_signature" "Malformed signed bearer token")
]

-- The parts of the payload that come after the checks of key, signature and time.
unfoldable pub signed_record : String → Fields → Result CoreAuthError CredentialRecord
signed_record kid payload = do
  user_id ←
      ok_or (non_empty (get_str "sub" payload))
        (auth_error "invalid_credentials" "Signed token missing subject")
  guard (not (flag "disabled" payload)) (auth_error "disabled_identity" "Principal is disabled")
  let principal_type = opt_or (get_str "principal_type" payload) "user"
  guard (is_principal principal_type) (auth_error "invalid_credentials" "Invalid principal type")
  ok (record {
    user_id = user_id;
    principal_type = principal_type;
    display_name = get_str "display_name" payload;
    key_id = some kid;
    disabled = false;
    scopes = parse_scopes (get "scopes" payload);
    scope_enforced = flag "scope_enforced" payload;
    service_account_id = get_str "service_account_id" payload;
  })

unfoldable pub is_empty_set : HashSet → Bool
is_empty_set [] = true
is_empty_set (_ ∷ _) = false

module _ (crypto : Crypto) where
  open crypto use {decode, from_slice, hmac_sha256, number_as_f64, now}

  -- The payload and the signature of a token.
  unfoldable pub decode_token : String × String → Result CoreAuthError (Fields × List ℕ)
  decode_token (payload_segment, signature_segment) = do
    payload_bytes ←
        ok_or (decode payload_segment)
          (auth_error "invalid_signature" "Malformed signed bearer token")
    signature_bytes ←
        ok_or (decode signature_segment)
          (auth_error "invalid_signature" "Malformed signed bearer token")
    payload ←
        ok_or (from_slice payload_bytes)
          (auth_error "invalid_signature" "Invalid signed token payload")
    payload_obj ←
        ok_or (as_object payload) (auth_error "invalid_signature" "Invalid signed token payload")
    ok (payload_obj, signature_bytes)

  -- The key id of a payload, if the key is active and not revoked.
  unfoldable pub accepted_kid : HashSet → HashSet → Fields → Result CoreAuthError String
  accepted_kid active_kids revoked_key_ids payload = do
    kid ←
        ok_or (non_empty (get_str "kid" payload))
          (auth_error "invalid_signature" "Signed token missing key id")
    guard (is_empty_set active_kids || contains active_kids kid)
        (auth_error "revoked_key" "Token signed by inactive key")
    guard (not (contains revoked_key_ids kid))
        (auth_error "revoked_key" "Token key id has been revoked")
    ok kid

  unfoldable pub check_signature :
      HashMap String → String → String → List ℕ → Result CoreAuthError (Unit {0})
  unfolding bytes_eq
  check_signature signing_secrets kid payload_segment signature_bytes = do
    secret ←
        ok_or (lookup kid signing_secrets)
          (auth_error "invalid_signature" "Unknown token signing key")
    expected ←
        ok_or (hmac_sha256 secret payload_segment)
          (auth_error "invalid_signature" "Invalid token signing key")
    guard (bytes_eq expected signature_bytes)
        (auth_error "invalid_signature" "Invalid bearer token signature")

  unfoldable pub check_expiry : Fields → Result CoreAuthError (Unit {0})
  unfolding f64_cmp
  check_expiry payload = do
    exp ←
        ok_or (elim (get "exp" payload) [ none ↦ none | some v ↦ number_as_f64 v ])
          (auth_error "invalid_credentials" "Signed token missing exp")
    guard (not (is_lt (f64_cmp exp now))) (auth_error "expired_token" "Bearer token has expired")

  unfoldable pub authenticate_signed_bearer :
      String → HashMap String → HashSet → HashSet → Result CoreAuthError Value
  unfolding token_segments decode_token accepted_kid check_signature check_expiry signed_record
  authenticate_signed_bearer token signing_secrets active_kids revoked_key_ids = do
    segments ← token_segments token
    (payload, signature_bytes) ← decode_token segments
    kid ← accepted_kid active_kids revoked_key_ids payload
    check_signature signing_secrets kid segments.0 signature_bytes
    check_expiry payload
    signed ← signed_record kid payload
    ok (identity_from_record signed "bearer")
