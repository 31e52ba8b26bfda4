-- ===== src/Auth/Capabilities.antt =====
-- `auth_capabilities_snapshot` of ugoite-core/src/auth.rs.
use ugoite.Common.{String, true, Option, List, [], ◌∷◌, map, length, sort_texts}
use ugoite.Common.Maps.{HashMap}
use ugoite.Json.{Value, bool, number, pos_int, string, array, object}
use ugoite.Json.Object.{from_list}
use ugoite.Auth.Config.{
  Crypto, HashSet, texts, parse_record_map, parse_key_value_map, parse_string_set,
}

-- The texts of a set, sorted.
sorted_set : HashSet → List String
unfolding sort_texts
sorted_set set = sort_texts (map (λ e. e.0) set)

abbrev count_of {ℓ} : {V : Type ℓ} → HashMap V → Value
count_of m = number (pos_int (length m))

abbrev strings : List String → Value
strings ss = array (texts ss)

unfoldable pub auth_capabilities_snapshot :
    Crypto
    → (bearer_tokens_json api_keys_json bearer_secrets active_kids_raw revoked_key_ids_raw : Option
        String)
    → Value
unfolding sorted_set parse_record_map parse_key_value_map parse_string_set from_list
auth_capabilities_snapshot crypto bearer_tokens_json api_keys_json bearer_secrets active_kids_raw
      revoked_key_ids_raw =
    object (
      from_list (
        ("version", string "m4-auth-rust-base-v1")
        ∷ (
          "enforcement",
          object (
              from_list (
                ("mandatory_authentication", bool true)
                ∷ ("localhost_requires_authentication", bool true)
                ∷ ("remote_requires_authentication", bool true)
                ∷ [])),
        )
        ∷ (
          "providers",
          object (
              from_list (
                (
                  "bearer",
                  object (
                      from_list (
                        ("supports_static_tokens", bool true)
                        ∷ ("supports_signed_tokens", bool true)
                        ∷ (
                          "configured_static_token_count",
                          count_of (parse_record_map crypto bearer_tokens_json),
                        )
                        ∷ (
                          "configured_signing_kid_count",
                          count_of (parse_key_value_map bearer_secrets),
                        )
                        ∷ ("active_kids", strings (sorted_set (parse_string_set active_kids_raw)))
                        ∷ ("active_kids_source", string "UGOITE_AUTH_BEARER_ACTIVE_KIDS")
                        ∷ [])),
                )
                ∷ (
                  "api_key",
                  object (
                      from_list (
                        ("supports_static_api_keys", bool true)
                        ∷ ("supports_space_service_account_keys", bool true)
                        ∷ (
                          "configured_static_api_key_count",
                          count_of (parse_record_map crypto api_keys_json),
                        )
                        ∷ (
                          "revoked_key_ids",
                          strings (sorted_set (parse_string_set revoked_key_ids_raw)),
                        )
                        ∷ ("revocation_source", string "UGOITE_AUTH_REVOKED_KEY_IDS")
                        ∷ [])),
                )
                ∷ [])),
        )
        ∷ (
          "identity_model",
          object (
              from_list (
                ("principal_types", strings ("user" ∷ "service" ∷ []))
                ∷ (
                  "fields",
                  strings (
                      "user_id" ∷ "principal_type" ∷ "display_name" ∷ "auth_method" ∷ "key_id"
                      ∷ "scopes" ∷ "scope_enforced" ∷ "service_account_id" ∷ []),
                )
                ∷ [])),
        )
        ∷ (
          "channels",
          strings (
              "backend(rest)" ∷ "backend(mcp)" ∷ "cli(via backend)" ∷ "frontend(via backend)" ∷ []),
        )
        ∷ []))
