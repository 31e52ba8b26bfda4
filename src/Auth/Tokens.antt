-- ===== src/Auth/Tokens.antt =====
-- What stands behind an accepted signed token (`authenticate_signed_bearer`, ugoite-core/src/auth.rs).
use ugoite.Common.{
  ℕ, String, ◌≡◌, refl, sym, ap, ◌∙◌, subst, Bool, true, false, ◌||◌, not, Option, none, some, List,
  [], ◌∷◌, ok, guard, ok_or, >>=-inv, ok-injective, arith, ◌⊎◌,
}
use ugoite.Common.Maps.{HashMap, lookup}
use ugoite.Json.{F64, Value, Fields}
use ugoite.Json.Object.{get, get_str}
use ugoite.Json.Float.{f64_cmp}
use ugoite.Auth.Config.{
  CredentialRecord, Crypto, HashSet, contains, identity_from_record, flag, opt_or, is_principal,
}
use ugoite.Auth.Signed.{
  authenticate_signed_bearer, token_segments, decode_token, accepted_kid, check_signature,
  check_expiry, signed_record, bytes_eq, is_lt, is_empty_set, non_empty,
}

pub guard-ok : {E : Type 0} (b : Bool) (e : E) {u : Unit {0}} → guard b e ≡ ok u → b ≡ true
guard-ok true e h = refl
guard-ok false e h = cc

pub ok_or-ok : {E A : Type 0} (o : Option A) (e : E) {a : A} → ok_or o e ≡ ok a → o ≡ some a
ok_or-ok none e h = cc
ok_or-ok (some a) e h = cc

bytes_eq-≡ : (a b : List ℕ) → bytes_eq a b ≡ true → a ≡ b
unfolding bytes_eq
bytes_eq-≡ [] [] h = refl
bytes_eq-≡ [] (b ∷ bs) h = cc
bytes_eq-≡ (a ∷ as') [] h = cc
bytes_eq-≡ (a ∷ as') (b ∷ bs) h = ground (arith, bytes_eq-≡ as' bs)

pub not-true : (b : Bool) → not b ≡ true → b ≡ false
not-true b h = ground arith

or-true : (a b : Bool) → (a || b) ≡ true → (a ≡ true) ⊎ (b ≡ true)
or-true a b h = ground arith

module _ (crypto : Crypto) where
  open crypto use {decode, from_slice, hmac_sha256, number_as_f64, now}

  -- A token whose signature and key hold, for a subject that is not disabled, at the present time.
  pub record IsSigned (secrets : HashMap String) (active revoked : HashSet) (token : String)
      (signed : CredentialRecord) : Type 0 where
    pub payload_segment : String
    pub signature_segment : String
    pub payload : Fields
    pub signature : List ℕ
    pub kid : String
    pub secret : String
    pub exp : F64
    pub segments : token_segments token ≡ ok (payload_segment, signature_segment)
    pub decoded : decode_token crypto (payload_segment, signature_segment) ≡ ok (payload, signature)
    pub key : accepted_kid crypto active revoked payload ≡ ok kid
    pub is_active : (is_empty_set active ≡ true) ⊎ (contains active kid ≡ true)
    pub is_kept : contains revoked kid ≡ false
    pub has_secret : lookup kid secrets ≡ some secret
    pub is_signature : hmac_sha256 secret payload_segment ≡ some signature
    pub has_exp : (elim (get "exp" payload) [ none ↦ none | some v ↦ number_as_f64 v ]) ≡ some exp
    pub is_current : is_lt (f64_cmp exp now) ≡ false
    pub is_enabled : flag "disabled" payload ≡ false
    pub subject : get_str "sub" payload ≡ some signed.user_id
    pub key_id : signed.key_id ≡ some kid

  accepted_kid-inv :
      (active revoked : HashSet) (payload : Fields) (kid : String)
      → accepted_kid crypto active revoked payload ≡ ok kid
      → ((is_empty_set active ≡ true) ⊎ (contains active kid ≡ true))
        × (contains revoked kid ≡ false)
  unfolding accepted_kid
  accepted_kid-inv active revoked payload kid h =
      >>=-inv (ok_or (non_empty (get_str "kid" payload)) _) _ h λ k e0 h0.
        >>=-inv (guard (is_empty_set active || contains active k) _) _ h0 λ _ e1 h1.
          >>=-inv (guard (not (contains revoked k)) _) _ h1 λ _ e2 h2.
            subst
              (λ j.
                ((is_empty_set active ≡ true) ⊎ (contains active j ≡ true))
                × (contains revoked j ≡ false))
              (ok-injective h2) (or-true _ _ (guard-ok _ _ e1), not-true _ (guard-ok _ _ e2))

  check_signature-inv :
      (secrets : HashMap String) (kid segment : String) (signature : List ℕ) {u : Unit {0}}
      → check_signature crypto secrets kid segment signature ≡ ok u
      → (secret : String) × (lookup kid secrets ≡ some secret)
        × (hmac_sha256 secret segment ≡ some signature)
  unfolding check_signature
  check_signature-inv secrets kid segment signature h =
      >>=-inv (ok_or (lookup kid secrets) _) _ h λ secret e0 h0.
        >>=-inv (ok_or (hmac_sha256 secret segment) _) _ h0 λ expected e1 h1. (
          secret,
          ok_or-ok _ _ e0,
          ok_or-ok _ _ e1 ∙ ap some (bytes_eq-≡ expected signature (guard-ok _ _ h1)),
        )

  check_expiry-inv :
      (payload : Fields) {u : Unit {0}}
      → check_expiry crypto payload ≡ ok u
      → (exp : F64) × ((elim (get "exp" payload) [ none ↦ none | some v ↦ number_as_f64 v ])
          ≡ some exp)
        × (is_lt (f64_cmp exp now) ≡ false)
  unfolding check_expiry
  check_expiry-inv payload h =
      >>=-inv (ok_or (elim (get "exp" payload) [ none ↦ none | some v ↦ number_as_f64 v ]) _) _ h
        λ exp e0 h0. (exp, ok_or-ok _ _ e0, not-true _ (guard-ok _ _ h0))

  non_empty-some : (o : Option String) (s : String) → non_empty o ≡ some s → o ≡ some s
  non_empty-some none s h = cc
  non_empty-some (some t) s h = ground arith

  signed_record-inv :
      (kid : String) (payload : Fields) (signed : CredentialRecord)
      → signed_record kid payload ≡ ok signed
      → (flag "disabled" payload ≡ false)
        × (get_str "sub" payload ≡ some signed.user_id)
        × (signed.key_id ≡ some kid)
  unfolding signed_record
  signed_record-inv kid payload signed h =
      >>=-inv (ok_or (non_empty (get_str "sub" payload)) _) _ h λ user_id e0 h0.
        >>=-inv (guard (not (flag "disabled" payload)) _) _ h0 λ _ e1 h1.
          >>=-inv (guard (is_principal (opt_or (get_str "principal_type" payload) "user")) _) _ h1
            λ _ e2 h2.
              subst
                (λ r.
                  (flag "disabled" payload ≡ false)
                  × (get_str "sub" payload ≡ some r.user_id)
                  × (r.key_id ≡ some kid))
                (ok-injective h2)
                (not-true _ (guard-ok _ _ e1), non_empty-some _ _ (ok_or-ok _ _ e0), refl)

  -- A signed bearer token that is accepted gives the identity of a record for which the token is
  -- signed.
  pub authenticate_signed_bearer-IsSigned :
      (token : String) (secrets : HashMap String) (active revoked : HashSet) (identity : Value)
      → authenticate_signed_bearer crypto token secrets active revoked ≡ ok identity
      → (signed : CredentialRecord) × IsSigned secrets active revoked token signed
        × (identity ≡ identity_from_record signed "bearer")
  unfolding authenticate_signed_bearer
  authenticate_signed_bearer-IsSigned token secrets active revoked identity h =
      >>=-inv (token_segments token) _ h λ segments e0 h0.
        >>=-inv (decode_token crypto segments) _ h0 λ parts e1 h1.
          >>=-inv (accepted_kid crypto active revoked parts.0) _ h1 λ kid e2 h2.
            >>=-inv (check_signature crypto secrets kid segments.0 parts.1) _ h2 λ _ e3 h3.
              >>=-inv (check_expiry crypto parts.0) _ h3 λ _ e4 h4.
                >>=-inv (signed_record kid parts.0) _ h4 λ signed e5 h5.
                  let (is_active, is_kept) = accepted_kid-inv active revoked parts.0 kid e2 in
                  let (secret, has_secret, is_signature) =
                    check_signature-inv secrets kid segments.0 parts.1 e3 in
                  let (exp, has_exp, is_current) = check_expiry-inv parts.0 e4 in
                  let (is_enabled, subject, key_id) = signed_record-inv kid parts.0 signed e5 in
                  (
                    signed,
                    record {
                      payload_segment = segments.0;
                      signature_segment = segments.1;
                      payload = parts.0;
                      signature = parts.1;
                      kid = kid;
                      secret = secret;
                      exp = exp;
                      segments = e0;
                      decoded = e1;
                      key = e2;
                      is_active = is_active;
                      is_kept = is_kept;
                      has_secret = has_secret;
                      is_signature = is_signature;
                      has_exp = has_exp;
                      is_current = is_current;
                      is_enabled = is_enabled;
                      subject = subject;
                      key_id = key_id;
                    },
                    sym (ok-injective h5),
                  )
