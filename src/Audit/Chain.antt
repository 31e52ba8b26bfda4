-- ===== src/Audit/Chain.antt =====
-- The hash chain: `verify_chain` and `rehash_chain` of ugoite-core/src/audit.rs.
use ugoite.Common.{
  String, ◌≡◌, refl, false, none, some, List, [], ◌∷◌, ◌++◌, arith, ok, ◌==◌, str_eq_iff,
  str_eq_refl, length, last?, >>=-parts, ok-injective, ap, suc,
}
use ugoite.External.{External}
use ugoite.Json.{Value, object, string, Fields}
use ugoite.Json.Object.{get, get_str, remove_of_none, remove, object_laws}
use ugoite.Audit.Hash.{
  event_hash, verify_event, verify_from, verify_chain, relink, relink_hash, rehash_from,
  rehash_chain, last_hash, seal,
}

hash_ne_prev : ("event_hash" == "prev_hash") ≡ false
unfolding ◌==◌
hash_ne_prev = refl

module _ (x : External) where
  verify_event-relink :
      (prev : String) (obj : Fields)
      → verify_event x prev (relink x prev obj) ≡ ok (relink_hash x prev obj)
  unfolding verify_event relink relink_hash
  verify_event-relink prev obj = simp (object_laws, hash_ne_prev, str_eq_refl)

  verify-rehash :
      (prev : String) (events : List Value) {out : List Value}
      → rehash_from x prev events ≡ ok out
      → (verify_from x prev out ≡ ok tt) × (length out ≡ length events)
  unfolding rehash_from verify_from
  verify-rehash prev [] h = rw (← ok-injective h) (refl, refl)
  verify-rehash prev (object obj ∷ events) h =
      let (rest, again, same) = >>=-parts (rehash_from x (relink_hash x prev obj) events) _ h in
      let (checked, sized) = verify-rehash (relink_hash x prev obj) events again in
      rw (← ok-injective same) (rw (verify_event-relink prev obj) checked, ap suc sized)
  verify-rehash prev (_ ∷ events) h = cc

  -- A log that rehashes to `out` verifies as `out`, event for event.
  pub verify_chain-rehash_chain :
      (events : List Value) {out : List Value}
      → rehash_chain x events ≡ ok out
      → (verify_chain x out ≡ ok tt) × (length out ≡ length events)
  unfolding rehash_chain verify_chain
  verify_chain-rehash_chain events h = verify-rehash "root" events h

-- The hash that the chain has reached after a list of events.
unfoldable pub end_hash : String → List Value → String
end_hash prev [] = prev
end_hash prev (event ∷ events) = end_hash (last_hash (event ∷ [])) events

end_hash-last_hash :
    (prev : String) (event : Value) (events : List Value)
    → end_hash prev (event ∷ events) ≡ last_hash (event ∷ events)
unfolding end_hash last_hash last?
end_hash-last_hash prev event [] = refl
end_hash-last_hash prev event (next ∷ events) =
    end_hash-last_hash (last_hash (event ∷ [])) next events

pub end_hash_root : (events : List Value) → end_hash "root" events ≡ last_hash events
unfolding end_hash last_hash last?
end_hash_root [] = refl
end_hash_root (event ∷ events) = end_hash-last_hash "root" event events

module _ (x : External) where
  -- What the verification of one event has established.
  pub record Checked (prev : String) (event : Value) (next : String) : Type 0 where
    pub fields : Fields
    pub shape : event ≡ object fields
    pub stored : get_str "event_hash" fields ≡ some next
    pub computed : event_hash x (object (remove "event_hash" fields)) prev ≡ next

  pub verify_event-Checked :
      (prev : String) (event : Value) {next : String}
      → verify_event x prev event ≡ ok next
      → Checked prev event next
  unfolding verify_event
  verify_event-Checked prev (object obj) {next} h = record {
    fields = obj;
    shape = refl;
    stored = ground arith;
    computed =
        ground (arith, str_eq_iff (event_hash x (object (remove "event_hash" obj)) prev) next);
  }
  verify_event-Checked prev (string s) h = cc
  verify_event-Checked prev _ h = cc

  pub last_hash_of_Checked :
      {prev next : String} {event : Value} → Checked prev event next → last_hash (event ∷ []) ≡ next
  unfolding last_hash last?
  last_hash_of_Checked c = rw (c.shape, c.stored)

  verify-extend :
      (prev : String) (events : List Value) (event : Value) {next : String}
      → verify_from x prev events ≡ ok tt
      → verify_event x (end_hash prev events) event ≡ ok next
      → verify_from x prev (events ++ event ∷ []) ≡ ok tt
  unfolding verify_from end_hash
  verify-extend prev [] event h e = rw e
  verify-extend prev (first ∷ events) event h e =
      let (next, checked, rest) = >>=-parts (verify_event x prev first) _ h in
      let reached = last_hash_of_Checked (verify_event-Checked prev first checked) in
      rw checked (verify-extend next events event rest (rw reached at e))

  verify_event-seal :
      (prev : String) (draft : Fields)
      → get_str "prev_hash" draft ≡ some prev
      → get "event_hash" draft ≡ none
      → verify_event x prev (seal x draft) ≡ ok (event_hash x (object draft) prev)
  unfolding verify_event seal
  verify_event-seal prev draft linked fresh =
      simp (linked, object_laws, str_eq_refl, remove_of_none _ _ fresh)

  -- A sealed draft that names the hash of the last event extends a log that verifies.
  pub verify_chain-seal :
      (events : List Value) (draft : Fields)
      → verify_chain x events ≡ ok tt
      → get_str "prev_hash" draft ≡ some (last_hash events)
      → get "event_hash" draft ≡ none
      → verify_chain x (events ++ seal x draft ∷ []) ≡ ok tt
  unfolding verify_chain
  verify_chain-seal events draft h linked fresh =
      verify-extend "root" events (seal x draft)
        {next = event_hash x (object draft) (last_hash events)} h
        (rw end_hash_root (verify_event-seal (last_hash events) draft linked fresh))
