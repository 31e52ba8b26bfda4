-- ===== src/Auth/Records.antt =====
-- The records of a configured map of credentials (`parse_record_map`, ugoite-core/src/auth.rs).
use ugoite.Common.{String, ◌≡◌, refl, true, false, Option, none, some, [], arith}
use ugoite.Common.Text.{is_empty}
use ugoite.Common.Maps.{HashMap, lookup, put, AllValues, AllValues-put, AllValues-lookup}
use ugoite.Json.{Value, Fields, end, field}
use ugoite.Auth.Config.{
  CredentialRecord, Crypto, parse_record, record_entries, parse_json_map, parse_record_map,
  is_principal,
}

-- A record names a user, as a user or a service.
abbrev pub IsCredential : CredentialRecord → Type 0
IsCredential r = (is_empty r.user_id ≡ false) × (is_principal r.principal_type ≡ true)

parse_record-IsCredential :
    (entry : Value) (r : CredentialRecord) → parse_record entry ≡ some r → IsCredential r
unfolding parse_record
parse_record-IsCredential entry r h = ground arith

record_entries-IsCredential :
    (fs : Fields) (records : HashMap CredentialRecord)
    → AllValues IsCredential records
    → AllValues IsCredential (record_entries fs records)
unfolding record_entries
record_entries-IsCredential end records h = h
record_entries-IsCredential (field credential entry fs) records h =
    record_entries-IsCredential fs _ (added (parse_record entry) refl)
  where
    added :
        (o : Option CredentialRecord)
        → parse_record entry ≡ o
        → AllValues IsCredential (elim o [ none ↦ records | some r ↦ put credential r records ])
    added none e = h
    added (some r) e =
        AllValues-put IsCredential credential r records (parse_record-IsCredential entry r e) h

module _ (crypto : Crypto) where
  -- Every record that a configured map of credentials yields names a user and is of a known
  -- principal type, whatever the text of the configuration.
  pub parse_record_map-IsCredential :
      (raw : Option String) (credential : String) (r : CredentialRecord)
      → lookup credential (parse_record_map crypto raw) ≡ some r
      → IsCredential r
  unfolding parse_record_map
  parse_record_map-IsCredential raw credential r h =
      AllValues-lookup IsCredential credential (parse_record_map crypto raw) h
        (record_entries-IsCredential (parse_json_map crypto raw) [] tt)
