-- ===== src/Learning/Bytes.antt =====
-- server/bastionlab_learning/src/serialization.rs: a buffer of byte objects, each behind its length.
-- A byte is a number below 256.
pub mod RoundTrip
mod Tests
use bastionlab.Prelude.{
  ℕ, zero, suc, ◌+◌, ◌*◌, ◌/◌, ◌%◌, ◌<◌, List, [], ◌∷◌, ◌++◌, Option, none, some, String, length,
  take, drop, leb, if◌then◌else◌, Outcome, ok, err, panic, ◌>>=◌, ok_or,
}

-- `usize::to_le_bytes`, on `width` bytes.
unfoldable pub to_le_bytes : ℕ → ℕ → List ℕ
to_le_bytes zero n = []
to_le_bytes (suc width) n = (n % 256) ∷ to_le_bytes width (n / 256)

-- `usize::from_le_bytes`
unfoldable pub from_le_bytes : List ℕ → ℕ
from_le_bytes [] = 0
from_le_bytes (b ∷ bs) = b + 256 * from_le_bytes bs

-- `size_of::<usize>()`, on the 64-bit targets of the server.
abbrev pub size_of_usize : ℕ
size_of_usize = 8

pub record SizedObjectsBytes : Type 0 where
  pub bytes : List ℕ

unfoldable pub new : SizedObjectsBytes
new = record { bytes = [] }

unfoldable pub append_back : SizedObjectsBytes → List ℕ → SizedObjectsBytes
append_back buf bytes = record {
  bytes = (buf.bytes ++ to_le_bytes size_of_usize (length bytes)) ++ bytes;
}

-- `drain(..n)` and `split_at(n)` panic when the buffer is shorter than `n`.
unfoldable pub drain {ℓ κ} : {E : Type ℓ} {A : Type κ} → ℕ → List A → Outcome E (List A × List A)
drain n xs = if leb n (length xs) then ok (take n xs, drop n xs) else panic

module _ {ℓ} {E : Type ℓ} where
  unfoldable pub read_le_usize : List ℕ → Outcome E ℕ
  read_le_usize input = do
    (int_bytes, rest) ← drain size_of_usize input
    ok (from_le_bytes int_bytes)

  unfoldable pub remove_front : SizedObjectsBytes → Outcome E (List ℕ × SizedObjectsBytes)
  remove_front buf = do
    (header, body) ← drain size_of_usize buf.bytes
    len ← read_le_usize header
    (object, rest) ← drain len body
    ok (object, record { bytes = rest })

  -- `Iterator::next`
  unfoldable pub next : SizedObjectsBytes → Outcome E (Option (List ℕ) × SizedObjectsBytes)
  next buf =
      if leb 1 (length buf.bytes)
      then (do (object, rest) ← remove_front buf; ok (some object, rest))
      else ok (none, buf)

  -- A `for` loop over the buffer, with fuel; `none` means that the fuel ran out.
  unfoldable pub objects : ℕ → SizedObjectsBytes → Option (Outcome E (List (List ℕ)))
  objects zero buf = none
  objects (suc fuel) buf = elim (next buf) [
    | ok (none, rest) ↦ some (ok [])
    | ok (some object, rest) ↦ elim (objects fuel rest) [
      | none ↦ none
      | some (ok more) ↦ some (ok (object ∷ more))
      | some (err e) ↦ some (err e)
      | some panic ↦ some panic
    ]
    | err e ↦ some (err e)
    | panic ↦ some panic
  ]

-- `tch::TchError`, with the variants that the server raises.
pub data TchError : Type 0 where
  kind file_format convert shape torch : String → TchError

-- `TryFrom<SizedObjectsBytes> for BinaryModule`
unfoldable pub binary_module : SizedObjectsBytes → Outcome TchError (List ℕ)
binary_module value = do
  (first, rest) ← next value
  ok_or first (file_format "Invalid data, expected at least one object in stream.")

-- `TryFrom<&BinaryModule> for SizedObjectsBytes`
unfoldable pub of_binary_module : List ℕ → SizedObjectsBytes
of_binary_module value = append_back new value
