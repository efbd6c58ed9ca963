-- ===== src/Common/Session/Signers.antt =====
-- server/bastionlab_common/src/session.rs: the key that a request says it is signed with.
use bastionlab.Prelude.{
  ℕ, String, Option, none, some, List, [], ◌∷◌, eqb, if◌then◌else◌, ◌==◌, nat_eq, string_eq,
  list_eq, HashMap,
}
use Prim.Native.Char.{code}

-- `str::strip_prefix` and `str::strip_suffix`
unfoldable pub strip_prefix : String → String → Option String
strip_prefix String.[] s = some s
strip_prefix (String.◌∷◌ c p) String.[] = none
strip_prefix (String.◌∷◌ c p) (String.◌∷◌ d s) =
    let rest = strip_prefix p s in if eqb (code c) (code d) then rest else none

abbrev cons_char {ℓ} : {A : Type ℓ} → (A → String) → Option A → Option String
cons_char f none = none
cons_char f (some s) = some (f s)

unfoldable pub strip_suffix : String → String → Option String
strip_suffix p String.[] = if p == "" then some "" else none
strip_suffix p (String.◌∷◌ c s) =
    let rest = cons_char (String.◌∷◌ c) (strip_suffix p s) in
    if String.◌∷◌ c s == p then some "" else rest

-- The key hash that a `signature-<hash>-bin` entry names.
unfoldable pub signer_of : String → Option String
unfolding strip_prefix strip_suffix
signer_of key = elim (strip_suffix "-bin" key) [
  | none ↦ none
  | some s ↦ strip_prefix "signature-" s
]

-- The first such entry in the order of iteration.
unfoldable pub first_signer : HashMap String (Option (List ℕ)) → Option String
unfolding signer_of
first_signer [] = none
first_signer ((key, value) ∷ rest) =
    let later = first_signer rest in elim (signer_of key) [ none ↦ later | some hash ↦ some hash ]
