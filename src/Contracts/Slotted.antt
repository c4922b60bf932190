-- ===== src/Contracts/Slotted.antt =====
-- The slot of a revision that `validateRevision` of packages/domain/index.ts accepts is well-formed.
use knowledger.Base.{
  ◌≡◌, subst, arith, ℕ, Bool, true, List, [], ◌∷◌, Option, some, Text, text, text_eq, length, ltb,
  map,
}
use knowledger.Fault.{
  ok_eq, >>=-eq-ok, Result, ok, invalid, failure, digest_mismatch, require, fail_if, traverse,
  ◌>>=◌,
}
use knowledger.Unicode.{byte_length}
use knowledger.Json.{
  Json, str, obj, prop, assert_record, assert_array, assert_keys, is_text, is_number,
}
use knowledger.Json.Canonical.{canonicalize, assert_unique_canonical}
use knowledger.Contracts.Identifiers.{
  is_id, is_usage_scope, assert_id, assert_text, assert_digest, assert_usage_scope,
  assert_non_empty_string,
}
use knowledger.Contracts.Slot.{is_slot}
use knowledger.Contracts.Revision.{
  DocumentRevisionPayload, DocumentRevision, encode_dependency, validate_dependency,
  validate_metadata, no_agreement_id, encode_payload, validate_payload, digest_payload,
  validate_revision,
}

-- A field that passed its test.
pub assert_text-passes :
    (test : Text → Bool) (v : Option Json) {t : Text} → assert_text test v ≡ ok t → test t ≡ true
unfolding assert_text
assert_text-passes test (some (str t)) e = ground arith
assert_text-passes test v e = ground arith

-- What a call returns, when it returns, has the property.
abbrev pub Ensures : {A : Type 0} → (A → Type 0) → Result A → Type 0
Ensures {A} P r = (a : A) → r ≡ ok a → P a

-- The next step knows what the first one returned.
pub follow :
    {A B : Type 0} (P : B → Type 0) (first : Result A) (next : A → Result B)
    → ((a : A) → first ≡ ok a → Ensures P (next a))
    → Ensures P (first >>= next)
follow P first next f b h = let (a, e, k) = >>=-eq-ok first next h in f a e b k

pub give : {A : Type 0} (P : A → Type 0) (a : A) → P a → Ensures P (ok a)
give P a h b e = subst P (ok_eq e) h

pub validate_payload-slot :
    (value : Option Json) → Ensures (λ p. is_slot p.slot ≡ true) (validate_payload value)
unfolding validate_payload is_slot assert_id assert_usage_scope
validate_payload-slot value =
    let P = λ (q : DocumentRevisionPayload). is_slot q.slot ≡ true in
    follow P (assert_record value) _ (λ fs e1.
      follow P
        (assert_keys fs
          (text "contract_type"
            ∷ text "contract_version"
            ∷ text "revision_id"
            ∷ text "document_id"
            ∷ text "context_id"
            ∷ text "scope_id"
            ∷ text "usage_scope"
            ∷ text "channel_id"
            ∷ text "visibility"
            ∷ text "title"
            ∷ text "body_markdown"
            ∷ text "parents"
            ∷ text "dependencies"
            ∷ text "metadata"
            ∷ [])
          [])
        _
        (λ u2 e2.
          follow P
            (require (is_text (prop (text "contract_type") fs) (text "DocumentRevision")) invalid) _
            (λ u3 e3.
              follow P (require (is_number (prop (text "contract_version") fs) 1) invalid) _
                (λ u4 e4. follow P (assert_id (prop (text "revision_id") fs)) _ (λ revision_id e5.
                  follow P (assert_id (prop (text "document_id") fs)) _ (λ document_id e6.
                    follow P (assert_id (prop (text "context_id") fs)) _ (λ context_id e7.
                      follow P (assert_id (prop (text "scope_id") fs)) _ (λ scope_id e8.
                        follow P (assert_usage_scope (prop (text "usage_scope") fs)) _
                          (λ usage_scope e9.
                            follow P (assert_id (prop (text "channel_id") fs)) _ (λ channel_id e10.
                              follow P
                                (require
                                  (is_text (prop (text "visibility") fs) (text "shared_channel"))
                                  invalid)
                                _
                                (λ u11 e11.
                                  follow P (assert_non_empty_string (prop (text "title") fs) 200) _
                                    (λ title e12.
                                      follow P
                                        (assert_non_empty_string (prop (text "body_markdown") fs)
                                          262144)
                                        _
                                        (λ body_markdown e13.
                                          follow P
                                            (fail_if (ltb 262144 (byte_length body_markdown))
                                              invalid)
                                            _
                                            (λ u14 e14.
                                              follow P (assert_array (prop (text "parents") fs)) _
                                                (λ parent_values e15.
                                                  follow P
                                                    (fail_if (ltb 2 (length parent_values)) invalid)
                                                    _
                                                    (λ u16 e16.
                                                      follow P
                                                        (traverse (λ v. assert_digest (some v))
                                                          parent_values)
                                                        _
                                                        (λ parents e17.
                                                          follow P
                                                            (assert_unique_canonical
                                                            (map str parents))
                                                            _
                                                            (λ u18 e18.
                                                            follow P
                                                            (assert_array
                                                            (prop (text "dependencies") fs))
                                                            _
                                                            (λ dependency_values e19.
                                                            follow P
                                                            (fail_if
                                                            (ltb 32 (length dependency_values))
                                                            invalid)
                                                            _
                                                            (λ u20 e20.
                                                            follow P
                                                            (traverse
                                                            (validate_dependency channel_id)
                                                            dependency_values)
                                                            _
                                                            (λ dependencies e21.
                                                            follow P
                                                            (assert_unique_canonical
                                                            (map encode_dependency dependencies))
                                                            _
                                                            (λ u22 e22.
                                                            follow P
                                                            (validate_metadata
                                                            (prop (text "metadata") fs))
                                                            _
                                                            (λ metadata e23.
                                                            follow P
                                                            (require (no_agreement_id (obj fs))
                                                            invalid)
                                                            _
                                                            (λ u24 e24. give P _ (
                                                            ground (
                                                            arith,
                                                            assert_text-passes is_id
                                                            (prop (text "document_id") fs) e6,
                                                            assert_text-passes is_id
                                                            (prop (text "context_id") fs) e7,
                                                            assert_text-passes is_id
                                                            (prop (text "scope_id") fs) e8,
                                                            assert_text-passes is_usage_scope
                                                            (prop (text "usage_scope") fs) e9,
                                                            assert_text-passes is_id
                                                            (prop (text "channel_id") fs) e10,
                                                            ))))))))))))))))))))))))))

pub validate_revision-slot :
    (sha256 : List ℕ → Text) (value : Json)
    → Ensures (λ r. is_slot r.payload.slot ≡ true) (validate_revision sha256 value)
unfolding validate_revision
validate_revision-slot sha256 value =
    let P = λ (q : DocumentRevision). is_slot q.payload.slot ≡ true in
    follow P (assert_record (some value)) _ (λ fs e1.
      follow P (assert_keys fs (text "revision_digest" ∷ text "payload" ∷ []) []) _ (λ u2 e2.
        follow P (assert_digest (prop (text "revision_digest") fs)) _ (λ revision_digest e3.
          follow P (validate_payload (prop (text "payload") fs)) _ (λ payload e4.
            follow P (canonicalize (encode_payload payload)) _ (λ canonical e5.
              follow P (fail_if (ltb 524288 (byte_length canonical)) invalid) _ (λ u6 e6.
                follow P (digest_payload sha256 payload) _ (λ expected_digest e7.
                  follow P
                    (require (text_eq revision_digest expected_digest)
                      (failure digest_mismatch 400))
                    _
                    (λ u8 e8.
                      give P _ (validate_payload-slot (prop (text "payload") fs) payload e4)))))))))
