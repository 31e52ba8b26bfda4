-- ===== src/Audit/Tests.antt =====
-- Runs of the audit log, with one event, under a digest and a JSON codec of one text.
use Prim.Native.String.{count}
use ugoite.Common.{
  String, ◌≡◌, ◌⊎◌, refl, none, some, List, [], ◌∷◌, ok, ◌==◌, length, All, last?, ◌≤◌, retain, min,
  ◌-◌, sort_by, Among, Bool, true, false, if◌then◌else◌,
}
use ugoite.Common.Text.{trim}
use ugoite.External.{External}
use ugoite.Json.{Value, object, string, Fields}
use ugoite.Json.Object.{get, get_str, insert, remove, from_list}
use ugoite.Audit.Space.{
  AuditListOptions, default_options, normalize_retention_limit, validate_space_id, is_space_id,
  all_space_chars, is_space_char, is_alnum,
}
use ugoite.Audit.Hash.{
  last_hash, event_hash, verify_event, verify_from, verify_chain, relink, relink_hash, rehash_from,
  rehash_chain, seal,
}
use ugoite.Audit.Log.{
  Files, Fresh, AuditPage, audit_file_path, required_text, metadata_of, or_null, normalize_outcome,
  parse_lines, read_events, draft_event, apply_retention, prepare_append, append_audit_event,
  list_audit_events, is_selected, page_of, field_matches, filter_text, outcome_filter,
}
use ugoite.Audit.Chain.{verify_chain-rehash_chain}
use ugoite.Audit.Tamper.{SameEvents, Collides, verify_chain-SameEvents}
use ugoite.Audit.Append.{append-read_events}
use ugoite.Audit.Listing.{list-page, IsWanted}

abbrev digest : String
digest = "0123456789abcdef0123456789abcdef0123456789abcdef0123456789abcdef"

abbrev other_digest : String
other_digest = "f123456789abcdef0123456789abcdef0123456789abcdef0123456789abcdef"

abbrev one_text : External
one_text = record {
  to_string = λ v. "{}";
  from_str = λ s. none;
  sha256_hex = λ s. digest;
  to_lowercase = λ s. s;
}

abbrev noon : Fresh
noon = record { uuid = "1"; now_iso = "2026-01-01T12:00:00Z" }

abbrev payload : Fields
payload = from_list (("action", string "entry.create") ∷ ("actor_user_id", string "u1") ∷ [])

abbrev first_event : Value
first_event = seal one_text (draft_event one_text noon "s1" "entry.create" "u1" payload "root")

-- The codec that reads every line as the first event.
abbrev crates : External
crates = record {
  to_string = λ v. "{}";
  from_str = λ s. some first_event;
  sha256_hex = λ s. digest;
  to_lowercase = λ s. s;
}

abbrev no_files : Files
no_files = λ path. none

abbrev log_file : Files
log_file = λ path. some ("{}" ∷ [])

-- Every event of one user, on a page of no size, which is raised to one.
abbrev everything : AuditListOptions
everything = record default_options { limit = 0; actor_user_id = some "u1" }

prepared :
    prepare_append crates noon no_files " s1 " (object payload) none
    ≡ ok ("s1", first_event, first_event ∷ [])
unfolding prepare_append validate_space_id required_text read_events verify_chain verify_from seal
    draft_event apply_retention get insert from_list get_str last_hash metadata_of or_null
    normalize_outcome event_hash is_space_id all_space_chars is_space_char is_alnum trim ◌==◌
    normalize_retention_limit last? audit_file_path
prepared = refl

verified : verify_chain crates (first_event ∷ []) ≡ ok tt
unfolding verify_chain verify_from verify_event seal draft_event get insert from_list get_str remove
    last_hash metadata_of or_null normalize_outcome event_hash ◌==◌ trim
verified = refl

append-read_events_example :
    ((append_audit_event crates noon none no_files " s1 " (object payload) none).0 ≡ ok first_event)
    × (read_events crates
          (append_audit_event crates noon none no_files " s1 " (object payload) none).1
          "s1"
        ≡ ok (first_event ∷ []))
    × (verify_chain crates (first_event ∷ []) ≡ ok tt)
    × (last? (first_event ∷ []) ≡ some first_event)
    × (length (first_event ∷ []) ≤ normalize_retention_limit none)
unfolding trim
append-read_events_example =
    append-read_events crates noon no_files " s1 " (object payload) none "s1" first_event
      (first_event ∷ []) prepared ((refl, refl), tt)

-- A digest that tells the text of the first event from others.
abbrev telling : External
telling = record crates { sha256_hex = λ s. if s == "root:{}" then digest else other_digest }

telling_width : (s : String) → count (telling.sha256_hex s) ≡ 64
telling_width s = width (s == "root:{}")
  where
    width : (b : Bool) → count (if b then digest else other_digest) ≡ 64
    width true = refl
    width false = refl

told : verify_chain telling (first_event ∷ []) ≡ ok tt
unfolding verify_chain verify_from verify_event seal draft_event get insert from_list get_str remove
    last_hash metadata_of or_null normalize_outcome event_hash ◌==◌ trim
told = refl

verify_chain-SameEvents_example :
    SameEvents telling (first_event ∷ []) (first_event ∷ [])
    ⊎ Collides telling "root" "root" (first_event ∷ []) (first_event ∷ [])
verify_chain-SameEvents_example =
    verify_chain-SameEvents telling telling_width (first_event ∷ []) (first_event ∷ []) told told
      refl refl

rehashed : rehash_chain crates (first_event ∷ []) ≡ ok (first_event ∷ [])
unfolding rehash_chain rehash_from relink relink_hash event_hash seal draft_event get insert
    from_list get_str remove last_hash metadata_of or_null normalize_outcome ◌==◌ trim
rehashed = refl

verify_chain-rehash_chain_example :
    (verify_chain crates (first_event ∷ []) ≡ ok tt)
    × (length (first_event ∷ []) ≡ length (first_event ∷ []))
verify_chain-rehash_chain_example = verify_chain-rehash_chain crates (first_event ∷ []) rehashed

abbrev first_page : AuditPage
first_page = record { items = first_event ∷ []; total = 1; offset = 0; limit = 1 }

listed : list_audit_events crates log_file "s1" everything ≡ ok first_page
unfolding list_audit_events validate_space_id read_events parse_lines verify_chain verify_from
    verify_event page_of is_selected field_matches filter_text outcome_filter is_space_id
    all_space_chars is_space_char is_alnum trim seal draft_event get insert from_list get_str remove
    last_hash metadata_of or_null normalize_outcome event_hash ◌==◌ audit_file_path retain sort_by
listed = refl

list-page_example :
    (safe_id : String) × (events : List Value) × (validate_space_id "s1" ≡ ok safe_id)
    × (read_events crates log_file safe_id ≡ ok events)
    × (verify_chain crates events ≡ ok tt)
    × All (λ event. IsWanted crates everything event × Among event events) first_page.items
    × (1 ≤ first_page.limit)
    × (first_page.limit ≤ 500)
    × (first_page.total ≡ length (retain (is_selected crates everything) events))
    × (length first_page.items ≡ min first_page.limit (first_page.total - everything.offset))
list-page_example = list-page crates log_file "s1" everything first_page listed
