-- ===== src/Audit/Log.antt =====
-- Reading, appending to and listing the audit log (`read_events`, `append_audit_event` and
-- `list_audit_events`, ugoite-core/src/audit.rs). A file is the sequence of its lines.

use Prim.Native.String.{compare}
use ugoite.Common.{
  ℕ, ◌-◌, Ordering, String, Bool, true, false, ◌&&◌, ◌||◌, not, Option, none, some, List, [], ◌∷◌,
  ◌++◌, map, Result, ok, err, guard, ok_or, ◌>>=◌, ◌>>◌, ◌==◌, ltb, if◌then◌else◌, length, take,
  drop, last?, retain, sort_by,
}
use ugoite.Common.Text.{◌⧺◌, trim, is_empty}
use ugoite.External.{External}
use ugoite.Json.{Value, null, string, object, Fields, as_object, is_object}
use ugoite.Json.Object.{get, get_str, from_list}
use ugoite.Audit.Space.{
  max_audit_limit, AuditListOptions, clamp, unwrap_or, normalize_retention_limit, validate_space_id,
}
use ugoite.Audit.Hash.{last_hash, verify_chain, rehash_chain, seal}

-- A file is the sequence of its lines; `none` is a file that does not exist.
abbrev pub Files : Type 0
Files = String → Option (List String)

unfoldable pub audit_file_path : String → String
audit_file_path space_id = "spaces/" ⧺ space_id ⧺ "/audit/events.jsonl"

-- What a call takes from its surroundings: a fresh identifier and the time.
pub record Fresh : Type 0 where
  pub uuid : String
  pub now_iso : String

-- `.get(key).and_then(Value::as_str).map(str::trim).filter(|value| !value.is_empty())`
unfoldable pub required_text : String → Fields → String → Result String String
required_text key payload message = do
  text ← ok_or (get_str key payload) message
  guard (not (is_empty (trim text))) message
  ok (trim text)

unfoldable pub metadata_of : Fields → Value
metadata_of payload = elim (get "metadata" payload) [
  | some (object fs) ↦ object fs
  | _ ↦ object (from_list [])
]

unfoldable pub or_null : Option Value → Value
or_null v = unwrap_or v null

-- A filter of `list_audit_events`: trimmed, and dropped if nothing is left.
unfoldable pub filter_text : Option String → Option String
filter_text none = none
filter_text (some text) = if is_empty (trim text) then none else some (trim text)

-- `obj.get(key).and_then(Value::as_str) != Some(value)` returns false from the closure.
unfoldable pub field_matches : String → Option String → Fields → Bool
field_matches key none obj = true
field_matches key (some expected) obj = elim (get_str key obj) [
  | none ↦ false
  | some text ↦ text == expected
]

unfoldable pub timestamp_of : Value → String
timestamp_of (object obj) = unwrap_or (get_str "timestamp" obj) ""
timestamp_of _ = ""

unfoldable pub newest_first : Value → Value → Ordering
newest_first left right = compare (timestamp_of right) (timestamp_of left)

pub record AuditPage : Type 0 where
  pub items : List Value
  pub total : ℕ
  pub offset : ℕ
  pub limit : ℕ

unfoldable pub page_of : AuditListOptions → List Value → AuditPage
page_of options events =
    let limit = clamp 1 max_audit_limit options.limit in
    record {
      items = take limit (drop options.offset events);
      total = length events;
      offset = options.offset;
      limit = limit;
    }

module _ (x : External) where
  open x use {to_string, from_str, to_lowercase}

  unfoldable pub normalize_outcome : Option String → String
  normalize_outcome outcome =
      let normalized = to_lowercase (trim (unwrap_or outcome "success")) in
      if normalized == "success" || normalized == "deny" || normalized == "error"
      then normalized
      else "success"

  -- The loop of `read_events`: blank lines and values that are no objects are passed over.
  unfoldable pub parse_lines : List String → Result String (List Value)
  parse_lines [] = ok []
  parse_lines (line ∷ lines) =
      let trimmed = trim line in
      let rest = parse_lines lines in
      if is_empty trimmed then rest else do
        parsed ← ok_or (from_str trimmed) "Audit log contains malformed JSON"
        more ← rest
        ok (if is_object parsed then parsed ∷ more else more)

  unfoldable pub read_events : Files → String → Result String (List Value)
  read_events files space_id = elim (files (audit_file_path space_id)) [
    | none ↦ ok []
    | some lines ↦ parse_lines lines
  ]

  unfoldable pub write_events : Files → String → List Value → Files
  write_events files space_id events path =
      if path == audit_file_path space_id then some (map to_string events) else files path

  -- The new event, before its own hash.
  unfoldable pub draft_event : Fresh → String → String → String → Fields → String → Fields
  draft_event fresh space_id action actor_user_id payload prev_hash = from_list (
      ("id", string ("audit-" ⧺ fresh.uuid))
      ∷ ("timestamp", string fresh.now_iso)
      ∷ ("space_id", string space_id)
      ∷ ("action", string action)
      ∷ ("actor_user_id", string actor_user_id)
      ∷ ("outcome", string (normalize_outcome (get_str "outcome" payload)))
      ∷ ("target_type", or_null (get "target_type" payload))
      ∷ ("target_id", or_null (get "target_id" payload))
      ∷ ("request_method", or_null (get "request_method" payload))
      ∷ ("request_path", or_null (get "request_path" payload))
      ∷ ("request_id", or_null (get "request_id" payload))
      ∷ ("metadata", metadata_of payload)
      ∷ ("prev_hash", string prev_hash)
      ∷ [])

  -- The events that are kept and the event that is returned, once the log has outgrown its limit.
  unfoldable pub apply_retention : ℕ → Value → List Value → Result String (Value × List Value)
  apply_retention retention event events =
      if ltb retention (length events)
      then (do
        kept ← rehash_chain x (drop (length events - retention) events)
        ok (unwrap_or (last? kept) event, kept))
      else ok (event, events)

  -- All of `append_audit_event` up to the write: the space, the event and the events to be written.
  unfoldable pub prepare_append :
      Fresh → Files → String → Value → Option ℕ → Result String (String × Value × List Value)
  prepare_append fresh files space_id payload retention_limit = do
    safe_space_id ← validate_space_id space_id
    payload_obj ← ok_or (as_object payload) "audit payload must be an object"
    action ← required_text "action" payload_obj "audit action must not be empty"
    actor ← required_text "actor_user_id" payload_obj "actor_user_id must not be empty"
    events ← read_events files safe_space_id
    verify_chain x events
    let event = seal x (draft_event fresh safe_space_id action actor payload_obj (last_hash events))
    (returned, kept) ←
        apply_retention (normalize_retention_limit retention_limit) event (events ++ event ∷ [])
    ok (safe_space_id, returned, kept)

  -- The write, which may fail: `failed` is its error then, with the files that it leaves.
  unfoldable pub commit_append :
      Option (String × Files)
      → Files
      → Result String (String × Value × List Value)
      → Result String Value × Files
  commit_append failed files (err message) = (err message, files)
  commit_append none files (ok (space_id, event, events)) =
      (ok event, write_events files space_id events)
  commit_append (some (message, left)) files (ok (space_id, event, events)) = (err message, left)

  unfoldable pub append_audit_event :
      Fresh
      → Option (String × Files)
      → Files
      → String
      → Value
      → Option ℕ
      → Result String Value × Files
  append_audit_event fresh failed files space_id payload retention_limit =
      commit_append failed files (prepare_append fresh files space_id payload retention_limit)

  unfoldable pub outcome_filter : Option String → Option String
  outcome_filter none = none
  outcome_filter (some text) =
      let lowered = to_lowercase (trim text) in if is_empty lowered then none else some lowered

  unfoldable pub is_selected : AuditListOptions → Value → Bool
  is_selected options (object obj) =
      field_matches "action" (filter_text options.action) obj
      && field_matches "actor_user_id" (filter_text options.actor_user_id) obj
      && field_matches "outcome" (outcome_filter options.outcome) obj
  is_selected options _ = false

  unfoldable pub list_audit_events : Files → String → AuditListOptions → Result String AuditPage
  list_audit_events files space_id options = do
    safe_space_id ← validate_space_id space_id
    events ← read_events files safe_space_id
    verify_chain x events
    ok (page_of options (sort_by newest_first (retain (is_selected options) events)))
