-- ===== src/Audit/Hash.antt =====
-- The hash chain of the audit log: its verification, and the writing of its links (`event_hash`,
-- `verify_chain` and `rehash_chain`, ugoite-core/src/audit.rs).
use ugoite.Common.Text.{◌⧺◌}
use ugoite.Common.{
  String, none, some, List, [], ◌∷◌, Result, ok, guard, ok_or, ◌>>=◌, ◌>>◌, ◌==◌, last?,
}
use ugoite.External.{External}
use ugoite.Json.{Value, string, object, Fields, as_object}
use ugoite.Json.Object.{get_str, insert, remove}
use ugoite.Audit.Space.{unwrap_or}

unfoldable pub last_hash : List Value → String
last_hash events = elim (last? events) [
  | none ↦ "root"
  | some item ↦ elim (as_object item) [
    | none ↦ "root"
    | some obj ↦ unwrap_or (get_str "event_hash" obj) "root"
  ]
]

module _ (x : External) where
  open x use {to_string, sha256_hex}

  unfoldable pub event_hash : Value → String → String
  event_hash payload prev_hash = sha256_hex (prev_hash ⧺ ":" ⧺ to_string payload)

  -- One round of the loop of `verify_chain`: the hash of the event, for the next round.
  unfoldable pub verify_event : String → Value → Result String String
  verify_event prev_hash event = do
    candidate ← ok_or (as_object event) "Audit log contains malformed JSON"
    expected_hash ← ok_or (get_str "event_hash" candidate) "Audit event missing event_hash"
    let rest = remove "event_hash" candidate
    guard (unwrap_or (get_str "prev_hash" rest) "root" == prev_hash)
        "Audit chain prev_hash mismatch"
    guard (event_hash (object rest) prev_hash == expected_hash) "Audit chain integrity check failed"
    ok expected_hash

  unfoldable pub verify_from : String → List Value → Result String (Unit {0})
  verify_from prev_hash [] = ok tt
  verify_from prev_hash (event ∷ events) =
      verify_event prev_hash event >>= λ next. verify_from next events

  unfoldable pub verify_chain : List Value → Result String (Unit {0})
  verify_chain events = verify_from "root" events

  -- The event with its two hashes written anew.
  unfoldable pub relink : String → Fields → Value
  relink prev_hash obj =
      let linked = remove "event_hash" (insert "prev_hash" (string prev_hash) obj) in
      object (insert "event_hash" (string (event_hash (object linked) prev_hash)) linked)

  -- The hash that `relink` writes.
  unfoldable pub relink_hash : String → Fields → String
  relink_hash prev_hash obj =
      event_hash (object (remove "event_hash" (insert "prev_hash" (string prev_hash) obj)))
        prev_hash

  unfoldable pub rehash_from : String → List Value → Result String (List Value)
  rehash_from prev_hash [] = ok []
  rehash_from prev_hash (event ∷ events) = do
    obj ← ok_or (as_object event) "Audit log contains malformed JSON"
    rest ← rehash_from (relink_hash prev_hash obj) events
    ok (relink prev_hash obj ∷ rest)

  unfoldable pub rehash_chain : List Value → Result String (List Value)
  rehash_chain events = rehash_from "root" events

  unfoldable pub seal : Fields → Value
  seal draft =
      let prev_hash = unwrap_or (get_str "prev_hash" draft) "root" in
      object (insert "event_hash" (string (event_hash (object draft) prev_hash)) draft)
