-- ===== src/Common/Auth.antt =====
-- server/bastionlab_common/src/auth.rs: the owners' and users' public keys, and the check of a
-- request's signature. Keys and messages are byte strings.
pub mod Signatures
use bastionlab.Prelude.{
  ◌>>=◌, ℕ, String, Bool, true, false, not, Option, none, some, List, [], ◌∷◌, ◌++◌, err, ok_or,
  ensure, nat_eq, string_eq, list_eq, HashMap, lookup, concat,
}
use bastionlab.Common.Status.{Status, status, Fallible, invalid_argument, permission_denied}

-- `MetadataMap`, its binary entries: the raw value of each key in order, which may not decode.
pub record MetadataMap : Type 0 where
  pub binary : HashMap String (Option (List ℕ))

-- `get_bin`, and `to_bytes` of the value found.
abbrev pub get_bin : MetadataMap → String → Option (Option (List ℕ))
get_bin m k = lookup k m.binary

abbrev pub to_bytes : Option (List ℕ) → Status → Fallible (List ℕ)
to_bytes v e = ok_or v e

pub record KeyManagement : Type 0 where
  pub owners : HashMap String (List ℕ)
  pub users : HashMap String (List ℕ)

-- What the server takes from `spki` and `ring`: the key that a DER document holds, the verdict on a
-- signature (key, message, signature), and `hex::encode`.
pub record Crypto : Type 0 where
  pub subject_public_key : List ℕ → Option (List ℕ)
  pub verifies : List ℕ → List ℕ → List ℕ → Bool
  pub hex_encode : String → String

-- `owners.iter().chain(users.iter()).find(..)`
unfoldable pub find_key : KeyManagement → String → Option (List ℕ)
find_key keys hash = lookup hash (keys.owners ++ keys.users)

module _ (crypto : Crypto) where
  unfoldable pub verify_signature :
      KeyManagement → String → List ℕ → MetadataMap → Fallible (Unit {0})
  verify_signature keys hash message header =
      elim (get_bin header (concat ("signature-" ∷ hash ∷ "-bin" ∷ []))) [
        | none ↦ err (
            status permission_denied
              (concat ("No signature provided for public key " ∷ crypto.hex_encode hash ∷ [])))
        | some signature ↦ elim (find_key keys hash) [
          | none ↦
              err (status permission_denied (concat ("\"" ∷ hash ∷ "\" not authenticated!" ∷ [])))
          | some raw_pub ↦ do
            public_key ← ok_or (crypto.subject_public_key raw_pub) (
                status invalid_argument
                  (concat ("Invalid SubjectPublicKeyInfo for pubkey " ∷ hash ∷ [])))
            sign ← to_bytes signature (
                status invalid_argument
                  (concat ("Could not decode signature for public key " ∷ hash ∷ [])))
            ensure (crypto.verifies public_key message sign) (
                status permission_denied (concat ("Invalid signature for public key " ∷ hash ∷ [])))
        ]
      ]

abbrev is_some {ℓ} : {A : Type ℓ} → Option A → Bool
is_some none = false
is_some (some a) = true

unfoldable pub verify_owner : KeyManagement → String → Bool
verify_owner keys hash = is_some (lookup hash keys.owners)
