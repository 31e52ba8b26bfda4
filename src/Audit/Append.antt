-- ===== src/Audit/Append.antt =====
-- Appending to the audit log (`append_audit_event` of ugoite-core/src/audit.rs).
use native.Mathlib.Nat.{le_trans}
use ugoite.Common.{
  ℕ, ◌-◌, ◌≤◌, ◌<◌, String, ◌≡◌, refl, ap, true, false, Option, none, some, List, [], ◌∷◌, ◌++◌,
  map, arith, Result, ok, ok_or, ◌==◌, str_eq_refl, length, drop, length-drop, last?, last?-concat,
  >>=-parts, >>=-inv, ◌∙◌, Bool-cases, inl, inr, ltb, All,
}
use ugoite.Common.Text.{trim, is_empty}
use ugoite.External.{External}
use ugoite.Json.{Value, Fields, is_object, as_object}
use ugoite.Json.Object.{get, get_str, from_list, get-insert, get_str-insert}
use ugoite.Audit.Space.{normalize_retention_limit, validate_space_id, unwrap_or}
use ugoite.Audit.Hash.{last_hash, verify_event, verify_from, verify_chain, rehash_chain, seal}
use ugoite.Audit.Log.{
  Files, Fresh, audit_file_path, required_text, parse_lines, read_events, write_events, draft_event,
  apply_retention, prepare_append, commit_append, append_audit_event,
}
use ugoite.Audit.Chain.{verify_chain-rehash_chain, verify_chain-seal, verify_event-Checked}

last?_of_pos : (xs : List Value) → 0 < length xs → (v : Value) × (last? xs ≡ some v)
unfolding last?
last?_of_pos [] h = absurd (omega arith)
last?_of_pos (v ∷ []) h = (v, refl)
last?_of_pos (v ∷ w ∷ xs) h = last?_of_pos (w ∷ xs) (omega arith)

retention_pos : (limit : Option ℕ) → 100 ≤ normalize_retention_limit limit
unfolding normalize_retention_limit
retention_pos limit = ground arith

module _ (x : External) where
  -- What the log is read back from, for one event: `serde_json` parses the line that it wrote.
  abbrev pub IsReadable : Value → Type 0
  IsReadable v =
      (x.from_str (trim (x.to_string v)) ≡ some v) × (is_empty (trim (x.to_string v)) ≡ false)

  draft_prev_hash :
      (fresh : Fresh) (s a u : String) (payload : Fields) (prev : String)
      → get_str "prev_hash" (draft_event x fresh s a u payload prev) ≡ some prev
  unfolding draft_event from_list ◌==◌
  draft_prev_hash fresh s a u payload prev = simp get_str-insert

  draft_fresh :
      (fresh : Fresh) (s a u : String) (payload : Fields) (prev : String)
      → get "event_hash" (draft_event x fresh s a u payload prev) ≡ none
  unfolding draft_event from_list get ◌==◌
  draft_fresh fresh s a u payload prev = simp get-insert

  verify_from-objects :
      (prev : String) (events : List Value)
      → verify_from x prev events ≡ ok tt
      → All (λ v. is_object v ≡ true) events
  unfolding verify_from
  verify_from-objects prev [] h = tt
  verify_from-objects prev (event ∷ events) h =
      let (next, checked, rest) = >>=-parts (verify_event x prev event) _ h in
      let c = verify_event-Checked x prev event checked in
      (rw c.shape refl, verify_from-objects next events rest)

  parse_lines-map :
      (events : List Value)
      → All IsReadable events
      → All (λ v. is_object v ≡ true) events
      → parse_lines x (map x.to_string events) ≡ ok events
  unfolding parse_lines
  parse_lines-map [] h k = refl
  parse_lines-map (v ∷ vs) ((parsed, shown), h) (o, k) =
      rw (shown, parsed, parse_lines-map vs h k, o)

  read-write :
      (files : Files) (space_id : String) (events : List Value)
      → All IsReadable events
      → All (λ v. is_object v ≡ true) events
      → read_events x (write_events x files space_id events) space_id ≡ ok events
  unfolding read_events write_events
  read-write files space_id events h k =
      rw (str_eq_refl (audit_file_path space_id), read_events) (parse_lines-map events h k)

  rehashed_lem :
      (n retention : ℕ) (event : Value) (all out : List Value) {returned : Value}
      {kept : List Value}
      → 0 < retention
      → length all - n ≡ retention
      → rehash_chain x (drop n all) ≡ ok out
      → unwrap_or (last? out) event ≡ returned
      → out ≡ kept
      → (verify_chain x kept ≡ ok tt) × (last? kept ≡ some returned) × (length kept ≤ retention)
  rehashed_lem n retention event all out pos size rehashed ends same =
      let (checked, sized) = verify_chain-rehash_chain x (drop n all) rehashed in
      let long : length out ≡ retention = omega (arith, sized, length-drop n all) in
      let (newest, at_end) = last?_of_pos out (omega arith) in
      rw (← same) (checked, at_end ∙ ap some (rw at_end at ends), omega arith)

  apply_retention_lem :
      (retention : ℕ) (event : Value) (events : List Value) {returned : Value} {kept : List Value}
      → 0 < retention
      → verify_chain x (events ++ event ∷ []) ≡ ok tt
      → apply_retention x retention event (events ++ event ∷ []) ≡ ok (returned, kept)
      → (verify_chain x kept ≡ ok tt) × (last? kept ≡ some returned) × (length kept ≤ retention)
  unfolding apply_retention
  apply_retention_lem retention event events {returned} {kept} pos verified h =
      let all : List Value = events ++ event ∷ [] in
      elim (Bool-cases (ltb retention (length all))) [
        | inl over ↦
            >>=-inv (rehash_chain x (drop (length all - retention) all)) _
              (rw (over, apply_retention) at h)
              λ out rehashed same.
                rehashed_lem (length all - retention) retention event all out pos (ground arith)
                  rehashed (cc same) (cc same)
        | inr fits ↦
            let same : ◌≡◌ {A = Result String (Value × List Value)} (ok (event, all))
                (ok (returned, kept)) =
              rw (fits, apply_retention) at h in
            let kept_all : all ≡ kept = cc same in
            (
              rw (← kept_all) verified,
              rw (← kept_all) (last?-concat events event ∙ ap some (cc same)),
              rw (← kept_all) (ground arith),
            )
      ]

  -- Up to the write: the events verify, the last one is the one that is returned, and there are no
  -- more than the limit.
  prepare_append_lem :
      (fresh : Fresh) (files : Files) (space_id : String) (payload : Value) (limit : Option ℕ)
      {safe_id : String} {event : Value} {kept : List Value}
      → prepare_append x fresh files space_id payload limit ≡ ok (safe_id, event, kept)
      → (validate_space_id space_id ≡ ok safe_id)
        × (verify_chain x kept ≡ ok tt)
        × (last? kept ≡ some event)
        × (length kept ≤ normalize_retention_limit limit)
  unfolding prepare_append
  prepare_append_lem fresh files space_id payload limit {kept = kept} h =
      >>=-inv (validate_space_id space_id) _ h λ safe e0 h0.
        >>=-inv (ok_or (as_object payload) _) _ h0 λ obj e1 h1.
          >>=-inv (required_text "action" obj _) _ h1 λ action e2 h2.
            >>=-inv (required_text "actor_user_id" obj _) _ h2 λ actor e3 h3.
              >>=-inv (read_events x files safe) _ h3 λ events e4 h4.
                >>=-inv (verify_chain x events) _ h4 λ done verified h5.
                  let draft : Fields =
                    draft_event x fresh safe action actor obj (last_hash events) in
                  >>=-inv
                    (apply_retention x (normalize_retention_limit limit) (seal x draft)
                      (events ++ seal x draft ∷ []))
                    _ h5
                    λ chosen e6 h6.
                      let extended =
                        verify_chain-seal x events draft verified
                          (draft_prev_hash fresh safe action actor obj (last_hash events))
                          (draft_fresh fresh safe action actor obj (last_hash events)) in
                      let (checked, newest, few) =
                        apply_retention_lem (normalize_retention_limit limit) (seal x draft) events
                          {returned = chosen.0} {kept = chosen.1}
                          (le_trans (omega arith) (retention_pos limit)) extended e6 in
                      let same : chosen.1 ≡ kept = cc h6 in
                      (
                        e0 ∙ cc h6,
                        rw (← same) checked,
                        rw (← same) (newest ∙ ap some (cc h6)),
                        rw (← same) few,
                      )

  -- An append whose write succeeds: what is read back from the file afterwards are the events that were
  -- written. They verify, the last of them is the event that is returned, and their number is at
  -- most the limit. The texts of these events are read back by the JSON parser as what was printed.
  pub append-read_events :
      (fresh : Fresh) (files : Files) (space_id : String) (payload : Value) (limit : Option ℕ)
      (safe_id : String) (event : Value) (kept : List Value)
      → prepare_append x fresh files space_id payload limit ≡ ok (safe_id, event, kept)
      → All IsReadable kept
      → ((append_audit_event x fresh none files space_id payload limit).0 ≡ ok event)
        × (read_events x (append_audit_event x fresh none files space_id payload limit).1 safe_id
            ≡ ok kept)
        × (verify_chain x kept ≡ ok tt)
        × (last? kept ≡ some event)
        × (length kept ≤ normalize_retention_limit limit)
  unfolding append_audit_event commit_append verify_chain
  append-read_events fresh files space_id payload limit safe_id event kept h readable =
      let (valid, checked, newest, few) = prepare_append_lem fresh files space_id payload limit h in
      (
        rw (h, commit_append),
        rw (h, commit_append)
            (read-write files safe_id kept readable (verify_from-objects "root" kept checked)),
        checked,
        newest,
        few,
      )
