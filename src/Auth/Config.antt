-- ===== src/Auth/Config.antt =====
-- The configuration that authentication reads from texts, and the records it holds (`parse_*` and
-- `identity_from_record`, ugoite-core/src/auth.rs).

use ugoite.Common.{
  ℕ, String, Bool, true, false, ◌&&◌, ◌||◌, not, Option, none, some, List, [], ◌∷◌, ◌==◌,
  if◌then◌else◌, sort_texts, dedup,
}
use ugoite.Common.Text.{trim, is_empty, split, splitn_two}
use ugoite.Common.Maps.{HashMap, lookup, put}
use ugoite.Json.{
  F64, Value, Values, nil, cons, null, bool, string, array, object, Fields, end, field, as_object,
  as_bool, items,
}
use ugoite.Json.Object.{get, get_str, from_list}

pub record CoreAuthError : Type 0 where
  pub code : String
  pub detail : String
  pub status_code : ℕ

-- `CoreAuthError::new`
unfoldable pub auth_error : String → String → CoreAuthError
auth_error code detail = record { code = code; detail = detail; status_code = 401 }

pub record CredentialRecord : Type 0 where
  pub user_id : String
  pub principal_type : String
  pub display_name : Option String
  pub key_id : Option String
  pub disabled : Bool
  pub scopes : List String
  pub scope_enforced : Bool
  pub service_account_id : Option String

-- The crates that authentication calls, and the clock.
pub record Crypto : Type 0 where
  -- `URL_SAFE_NO_PAD.decode`
  pub decode : String → Option (List ℕ)
  -- `serde_json::from_slice` and `serde_json::from_str`
  pub from_slice : List ℕ → Option Value
  pub from_str : String → Option Value
  -- HMAC-SHA256 of a message under a key: none for a key that is refused
  pub hmac_sha256 : (key : String) → (message : String) → Option (List ℕ)
  pub to_lowercase : String → String
  -- `Value::as_f64` of a number
  pub number_as_f64 : Value → Option F64
  -- `Utc::now().timestamp() as f64`
  pub now : F64

-- A set of texts, in the order of insertion.
abbrev pub HashSet : Type 0
HashSet = HashMap (Unit {0})

unfoldable pub contains : HashSet → String → Bool
contains set k = elim (lookup k set) [ none ↦ false | some _ ↦ true ]

-- A token that is no blank.
abbrev pub non_blank : Option String → Option String
non_blank none = none
non_blank (some text) = if is_empty (trim text) then none else some text

abbrev pub opt_or {ℓ} : {A : Type ℓ} → Option A → A → A
opt_or none d = d
opt_or (some a) d = a

-- The loop of `parse_key_value_map`: a later pair replaces an earlier one.
unfoldable pub key_value_pairs : List String → HashMap String → HashMap String
unfolding trim splitn_two
key_value_pairs [] result = result
key_value_pairs (pair ∷ pairs) result =
    let parts = splitn_two b':' (trim pair) in
    key_value_pairs pairs (elim parts.1 [
      | none ↦ result
      | some v ↦
          if not (is_empty (trim parts.0)) && not (is_empty (trim v))
          then put (trim parts.0) (trim v) result
          else result
    ])

unfoldable pub parse_key_value_map : Option String → HashMap String
unfolding key_value_pairs split
parse_key_value_map none = []
parse_key_value_map (some raw_text) = key_value_pairs (split b',' raw_text) []

unfoldable pub string_set_items : List String → HashSet → HashSet
unfolding trim
string_set_items [] result = result
string_set_items (item ∷ rest) result =
    string_set_items rest (if is_empty (trim item) then result else put (trim item) tt result)

unfoldable pub parse_string_set : Option String → HashSet
unfolding string_set_items split
parse_string_set none = []
parse_string_set (some raw_text) = string_set_items (split b',' raw_text) []

unfoldable pub scope_texts : List Value → List String
unfolding trim
scope_texts [] = []
scope_texts (string s ∷ rest) =
    if is_empty (trim s) then scope_texts rest else trim s ∷ scope_texts rest
scope_texts (_ ∷ rest) = scope_texts rest

unfoldable pub parse_scopes : Option Value → List String
unfolding scope_texts sort_texts dedup
parse_scopes (some (array vs)) = dedup (sort_texts (scope_texts (items vs)))
parse_scopes _ = []

-- `.get(key).and_then(Value::as_bool).unwrap_or(false)`
unfoldable pub flag : String → Fields → Bool
flag key obj = elim (get key obj) [ none ↦ false | some v ↦ opt_or (as_bool v) false ]

abbrev pub is_principal : String → Bool
is_principal kind = (kind == "user") || (kind == "service")

-- The record of one entry of a map of credentials, if the entry is well formed.
unfoldable pub parse_record : Value → Option CredentialRecord
unfolding parse_scopes flag get_str
parse_record entry = elim (as_object entry) [
  | none ↦ none
  | some obj ↦ elim (get_str "user_id" obj) [
    | none ↦ none
    | some user_id ↦
        let principal_type = opt_or (get_str "principal_type" obj) "user" in
        if is_empty user_id || not (is_principal principal_type)
        then none
        else some (record {
          user_id = user_id;
          principal_type = principal_type;
          display_name = get_str "display_name" obj;
          key_id = get_str "key_id" obj;
          disabled = flag "disabled" obj;
          scopes = parse_scopes (get "scopes" obj);
          scope_enforced = flag "scope_enforced" obj;
          service_account_id = get_str "service_account_id" obj;
        })
  ]
]

unfoldable pub record_entries : Fields → HashMap CredentialRecord → HashMap CredentialRecord
unfolding parse_record
record_entries end records = records
record_entries (field credential entry fs) records =
    record_entries fs
      (elim (parse_record entry) [ none ↦ records | some r ↦ put credential r records ])

abbrev pub text_or_null : Option String → Value
text_or_null none = null
text_or_null (some s) = string s

abbrev pub texts : List String → Values
texts [] = nil
texts (s ∷ ss) = cons (string s) (texts ss)

-- The identity that an accepted record stands for.
unfoldable pub identity_from_record : CredentialRecord → String → Value
unfolding from_list
identity_from_record r auth_method = object (
    from_list (
      ("user_id", string r.user_id)
      ∷ ("principal_type", string r.principal_type)
      ∷ ("display_name", text_or_null r.display_name)
      ∷ ("auth_method", string auth_method)
      ∷ ("key_id", text_or_null r.key_id)
      ∷ ("scopes", array (texts r.scopes))
      ∷ ("scope_enforced", bool r.scope_enforced)
      ∷ ("service_account_id", text_or_null r.service_account_id)
      ∷ []))

module _ (crypto : Crypto) where
  unfoldable pub parse_json_map : Option String → Fields
  parse_json_map none = end
  parse_json_map (some raw_text) = elim (crypto.from_str raw_text) [
    | none ↦ end
    | some parsed ↦ opt_or (as_object parsed) end
  ]

  unfoldable pub parse_record_map : Option String → HashMap CredentialRecord
  unfolding parse_json_map record_entries
  parse_record_map raw = record_entries (parse_json_map raw) []
