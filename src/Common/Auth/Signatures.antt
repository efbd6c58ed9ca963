-- ===== src/Common/Auth/Signatures.antt =====
-- What an accepted signature says.
use bastionlab.Prelude.{
  ℕ, String, ◌≡◌, ap, ◌∙◌, ◌↔◌, inl, inr, true, some, List, [], ◌∷◌, arith, Option-cases, ok,
  nat_eq, string_eq, list_eq, lookup, lookup-append, concat,
}
use bastionlab.Common.Auth.{
  MetadataMap, get_bin, KeyManagement, Crypto, find_key, verify_signature, verify_owner,
}

-- The request carries, under the key's hash, a signature of the message that verifies with the
-- registered key of that hash.
pub record Signed (crypto : Crypto) (keys : KeyManagement) (hash : String) (message : List ℕ)
    (header : MetadataMap) : Type 0 where
  pub raw_pub : List ℕ
  pub public_key : List ℕ
  pub sign : List ℕ
  pub registered : find_key keys hash ≡ some raw_pub
  pub decoded : crypto.subject_public_key raw_pub ≡ some public_key
  pub carried : get_bin header (concat ("signature-" ∷ hash ∷ "-bin" ∷ [])) ≡ some (some sign)
  pub verified : crypto.verifies public_key message sign ≡ true

module _ (crypto : Crypto) (keys : KeyManagement) (hash : String) (message : List ℕ)
    (header : MetadataMap) where
  pub verify_signature-Signed :
      verify_signature crypto keys hash message header ≡ ok tt
      → Signed crypto keys hash message header
  unfolding verify_signature
  verify_signature-Signed h =
      elim (Option-cases (get_bin header (concat ("signature-" ∷ hash ∷ "-bin" ∷ [])))) [
        | inl e ↦ ground arith
        | inr (value, carries) ↦ elim (Option-cases (find_key keys hash)) [
          | inl e ↦ ground arith
          | inr (raw, e) ↦ elim (Option-cases (crypto.subject_public_key raw)) [
            | inl f ↦ ground arith
            | inr (key, f) ↦ elim (Option-cases value) [
              | inl g ↦ ground arith
              | inr (sign, g) ↦ record {
                raw_pub = raw;
                public_key = key;
                sign = sign;
                registered = e;
                decoded = f;
                carried = carries ∙ ap some g;
                verified = ground arith;
              }
            ]
          ]
        ]
      ]

  Signed-verify_signature :
      Signed crypto keys hash message header
      → verify_signature crypto keys hash message header ≡ ok tt
  unfolding verify_signature
  Signed-verify_signature v = ground arith

  -- `verify_signature` accepts exactly the requests that carry a signature, under the name of the
  -- key, which verifies over the message with the registered key.
  pub verify_signature_iff :
      (verify_signature crypto keys hash message header ≡ ok tt)
      ↔ Signed crypto keys hash message header
  verify_signature_iff = (verify_signature-Signed, Signed-verify_signature)

-- An owner's key is registered; so owners and users alike can open sessions.
pub verify_owner-find_key :
    (keys : KeyManagement) (hash : String)
    → verify_owner keys hash ≡ true
    → (raw : List ℕ) × (find_key keys hash ≡ some raw)
unfolding verify_owner find_key
verify_owner-find_key keys hash h = elim (Option-cases (lookup hash keys.owners)) [
  | inl e ↦ ground arith
  | inr (raw, e) ↦ (raw, rw (lookup-append, e))
]
