-- ===== src/Audit/Tamper.antt =====
-- What a verified audit log proves about its past (`verify_chain` of ugoite-core/src/audit.rs).
use Prim.Native.String
use Prim.Native.String.{count}
use text.Mathlib.TextLemmas.{append_inj, append_cancel_left}
use ugoite.Common.{
  String, ◌≡◌, ◌≢◌, ◌⊎◌, inl, inr, refl, sym, ◌∙◌, List, [], ◌∷◌, arith, ok, ◌==◌, str_eq_iff,
  length, >>=-parts, Bool-cases,
}
use ugoite.External.{External}
use ugoite.Json.{Value, object}
use ugoite.Json.Object.{remove}
use ugoite.Audit.Hash.{event_hash, verify_event, verify_from, verify_chain, last_hash}
use ugoite.Audit.Chain.{
  Checked, verify_event-Checked, last_hash_of_Checked, end_hash, end_hash_root,
}

module _ (x : External) where
  -- The text of an event that its hash covers.
  abbrev pub hashed_text : Value → String
  hashed_text (object fields) = x.to_string (object (remove "event_hash" fields))
  hashed_text _ = ""

  -- The text of an event whose digest is its hash, after the hash of the event before it.
  abbrev pub digested : String → Value → String
  digested prev event = String.◌++◌ prev (String.◌++◌ ":" (hashed_text event))

  -- At some place in the two logs, the texts behind the hashes of the events there differ and have one
  -- digest.
  abbrev pub Collides : String → String → List Value → List Value → Type 0
  Collides p q [] _ = ⊥
  Collides p q (_ ∷ _) [] = ⊥
  Collides p q (e ∷ es) (f ∷ fs) =
      ((digested p e ≢ digested q f) × (x.sha256_hex (digested p e) ≡ x.sha256_hex (digested q f)))
      ⊎ Collides (last_hash (e ∷ [])) (last_hash (f ∷ [])) es fs

  -- Two logs that hold, event for event, the same hashed text and the same stored hash.
  abbrev pub SameEvents : List Value → List Value → Type 0
  SameEvents [] [] = Unit
  SameEvents [] (_ ∷ _) = ⊥
  SameEvents (_ ∷ _) [] = ⊥
  SameEvents (e ∷ es) (f ∷ fs) =
      (hashed_text e ≡ hashed_text f) × (last_hash (e ∷ []) ≡ last_hash (f ∷ [])) × SameEvents es fs

  event_hash_inj :
      (p q : String) (v w : Value)
      → count p ≡ count q
      → event_hash x v p ≡ event_hash x w q
      → ((p ≡ q) × (x.to_string v ≡ x.to_string w))
        ⊎ ((String.◌++◌ p (String.◌++◌ ":" (x.to_string v))
              ≢ String.◌++◌ q (String.◌++◌ ":" (x.to_string w)))
            × (x.sha256_hex (String.◌++◌ p (String.◌++◌ ":" (x.to_string v)))
                ≡ x.sha256_hex (String.◌++◌ q (String.◌++◌ ":" (x.to_string w)))))
  unfolding event_hash
  event_hash_inj p q v w same h =
      let left : String = String.◌++◌ p (String.◌++◌ ":" (x.to_string v)) in
      let right : String = String.◌++◌ q (String.◌++◌ ":" (x.to_string w)) in
      elim (Bool-cases (left == right)) [
        | inl e ↦
            let (prefix, rest) = append_inj ((str_eq_iff left right).0 e) same in
            inl (prefix, append_cancel_left ":" _ _ rest)
        | inr e ↦ inr ((λ s. cc (e, (str_eq_iff left right).1 s)), h)
      ]

  module _ (digest_width : (s : String) → count (x.sha256_hex s) ≡ 64) where
    width_of_Checked :
        {prev next : String} {event : Value} → Checked x prev event next → count next ≡ 64
    unfolding event_hash
    width_of_Checked c = rw (← c.computed) (digest_width _)

    same_from :
        (p q : String) (xs ys : List Value)
        → verify_from x p xs ≡ ok tt
        → verify_from x q ys ≡ ok tt
        → length xs ≡ length ys
        → count p ≡ count q
        → end_hash p xs ≡ end_hash q ys
        → ((p ≡ q) × SameEvents xs ys) ⊎ Collides p q xs ys
    unfolding verify_from end_hash
    same_from p q [] [] h k n w e = inl (e, tt)
    same_from p q [] (f ∷ fs) h k n w e = absurd (omega arith)
    same_from p q (v ∷ vs) [] h k n w e = absurd (omega arith)
    same_from p q (v ∷ vs) (f ∷ fs) h k n w e =
        let (nv, hv, restv) = >>=-parts (verify_event x p v) _ h in
        let (nf, hf, restf) = >>=-parts (verify_event x q f) _ k in
        let cv = verify_event-Checked x p v hv in
        let cf = verify_event-Checked x q f hf in
        let lv = last_hash_of_Checked x cv in
        let lf = last_hash_of_Checked x cf in
        let rec =
          same_from nv nf vs fs restv restf (omega arith)
            (width_of_Checked cv ∙ sym (width_of_Checked cf)) (rw (lv, lf) at e) in
        let hashes : nv ≡ nf
            → event_hash x (object (remove "event_hash" cv.fields)) p
              ≡ event_hash x (object (remove "event_hash" cf.fields)) q =
          λ s. cv.computed ∙ s ∙ sym cf.computed in
        elim rec [
          | inr c ↦ inr (inr (rw (lv, lf) c))
          | inl (next, later) ↦ elim (event_hash_inj p q _ _ w (hashes next)) [
            | inr c ↦ inr (inl (rw (cv.shape, cf.shape) c))
            | inl (prefix, texts) ↦
                inl (prefix, (rw (cv.shape, cf.shape) texts, lv ∙ next ∙ sym lf, later))
          ]
        ]

  -- Two verified logs of one length that end in the same hash agree in every event, in the text
  -- that is hashed and in the hash that is stored, or at some place the texts behind the hashes of
  -- their events differ and have one digest. Every digest has 64 characters.
  pub verify_chain-SameEvents :
      (digest_width : (s : String) → count (x.sha256_hex s) ≡ 64) (xs ys : List Value)
      → verify_chain x xs ≡ ok tt
      → verify_chain x ys ≡ ok tt
      → length xs ≡ length ys
      → last_hash xs ≡ last_hash ys
      → SameEvents xs ys ⊎ Collides "root" "root" xs ys
  unfolding verify_chain
  verify_chain-SameEvents digest_width xs ys h k n e =
      elim (same_from digest_width "root" "root" xs ys h k n refl
        (end_hash_root xs ∙ e ∙ sym (end_hash_root ys))) [ inl s ↦ inl s.1 | inr c ↦ inr c ]
