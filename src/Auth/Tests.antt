-- ===== src/Auth/Tests.antt =====
-- Runs of authentication, with one signed token and one API key.
use ugoite.Common.{String, ◌≡◌, refl, true, false, none, some, [], ◌∷◌, ok, ◌==◌}
use ugoite.Common.Text.{trim, split}
use ugoite.Common.Maps.{HashMap, lookup, put}
use ugoite.Json.{Value, object, string, number, pos_int, bool, Fields}
use ugoite.Json.Object.{get, get_str, insert, from_list, value_get}
use ugoite.Json.Float.{f64_cmp}
use ugoite.Auth.Config.{
  Crypto, CredentialRecord, contains, parse_record_map, parse_json_map, record_entries,
  parse_record, parse_scopes, flag, identity_from_record, parse_string_set, string_set_items,
}
use ugoite.Auth.Signed.{
  authenticate_signed_bearer, token_segments, decode_token, accepted_kid, check_signature,
  check_expiry, signed_record, bytes_eq, is_empty_set,
}
use ugoite.Auth.Headers.{
  AuthInput, authenticate, accept_record, is_revoked, authenticate_headers_core, answer,
}
use ugoite.Auth.Tokens.{IsSigned, authenticate_signed_bearer-IsSigned}
use ugoite.Auth.Records.{IsCredential, parse_record_map-IsCredential}
use ugoite.Auth.Capabilities.{auth_capabilities_snapshot}
use ugoite.Auth.Accepted.{IsAccepted, authenticate_headers_core-IsAccepted}

abbrev claims : Fields
claims = from_list (("kid", string "k1") ∷ ("sub", string "u1") ∷ ("exp", number (pos_int 10)) ∷ [])

abbrev keys : Value
keys = object (
    from_list (
      ("secret-key", object (from_list (("user_id", string "u2") ∷ ("key_id", string "a1") ∷ [])))
      ∷ []))

abbrev crypto : Crypto
crypto = record {
  decode = λ s. some (1 ∷ 2 ∷ []);
  from_slice = λ bytes. some (object claims);
  from_str = λ s. some keys;
  hmac_sha256 = λ key message. some (1 ∷ 2 ∷ []);
  to_lowercase = λ s. s;
  number_as_f64 = λ v. some 4621819117588971520;
  now = 4617315517961601024;
}

abbrev subject : CredentialRecord
subject = record {
  user_id = "u1";
  principal_type = "user";
  display_name = none;
  key_id = some "k1";
  disabled = false;
  scopes = [];
  scope_enforced = false;
  service_account_id = none;
}

abbrev secrets : HashMap String
secrets = ("k1", "s") ∷ []

signed_in :
    authenticate_signed_bearer crypto "v1.a.b" secrets [] []
    ≡ ok (identity_from_record subject "bearer")
unfolding authenticate_signed_bearer token_segments decode_token accepted_kid check_signature
    check_expiry signed_record bytes_eq is_empty_set contains lookup f64_cmp get get_str insert
    from_list flag parse_scopes split ◌==◌
signed_in = refl

authenticate_signed_bearer-IsSigned_example :
    (signed : CredentialRecord) × IsSigned crypto secrets [] [] "v1.a.b" signed
    × (identity_from_record subject "bearer" ≡ identity_from_record signed "bearer")
authenticate_signed_bearer-IsSigned_example =
    authenticate_signed_bearer-IsSigned crypto "v1.a.b" secrets [] []
      (identity_from_record subject "bearer") signed_in

abbrev request : AuthInput
request = record {
  authorization = some " ";
  api_key = some " secret-key";
  bearer_tokens_json = none;
  api_keys_json = some "{}";
  bearer_secrets = some "k1:s";
  active_kids_raw = none;
  revoked_key_ids_raw = some "a2, a3";
  bootstrap_token = none;
  bootstrap_user_id = none;
}

abbrev key_owner : CredentialRecord
key_owner = record {
  user_id = "u2";
  principal_type = "user";
  display_name = none;
  key_id = some "a1";
  disabled = false;
  scopes = [];
  scope_enforced = false;
  service_account_id = none;
}

configured : lookup "secret-key" (parse_record_map crypto (some "{}")) ≡ some key_owner
unfolding parse_record_map parse_json_map record_entries parse_record parse_scopes flag get get_str
    insert from_list lookup put ◌==◌
configured = refl

parse_record_map-IsCredential_example : IsCredential key_owner
parse_record_map-IsCredential_example =
    parse_record_map-IsCredential crypto (some "{}") "secret-key" key_owner configured

not_revoked : is_revoked (parse_string_set (some "a2, a3")) key_owner ≡ false
unfolding is_revoked parse_string_set string_set_items contains lookup put split trim ◌==◌
not_revoked = refl

answered : value_get "ok" (authenticate_headers_core crypto request) ≡ some (bool true)
unfolding value_get answer from_list insert get authenticate_headers_core authenticate accept_record
    is_revoked parse_record_map parse_json_map record_entries parse_record parse_scopes flag get_str
    lookup put parse_string_set string_set_items contains split trim identity_from_record ◌==◌
answered = refl

authenticate_headers_core-IsAccepted_example :
    (identity : Value) × (value_get "identity" (authenticate_headers_core crypto request)
      ≡ some identity)
    × IsAccepted crypto request identity
authenticate_headers_core-IsAccepted_example =
    authenticate_headers_core-IsAccepted crypto request answered

snapshot_version :
    value_get "version"
      (auth_capabilities_snapshot crypto none (some "{}") (some "k1:s") none (some "a2, a1"))
    ≡ some (string "m4-auth-rust-base-v1")
unfolding auth_capabilities_snapshot value_get from_list insert get ◌==◌
snapshot_version = refl
