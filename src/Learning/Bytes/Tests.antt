-- ===== src/Learning/Bytes/Tests.antt =====
-- Buffers of small objects.
use bastionlab.Prelude.{ℕ, ◌≡◌, refl, some, List, [], ◌∷◌, arith, ok, nat_eq, string_eq, list_eq}
use bastionlab.Learning.Bytes.{
  SizedObjectsBytes, new, append_back, objects, remove_front, drain, read_le_usize, from_le_bytes,
  TchError,
}
use bastionlab.Learning.Bytes.RoundTrip.{objects-append_back}
use mathlib.Core.List.{foldl}

abbrev two : List (List ℕ)
two = (1 ∷ 2 ∷ 3 ∷ []) ∷ [] ∷ []

objects-append_back_example : objects {E = TchError} 3 (foldl append_back new two) ≡ some (ok two)
objects-append_back_example =
    objects-append_back two 3 (omega arith, (omega arith, tt)) (omega arith)

-- A header that announces more than there is.
abbrev broken : SizedObjectsBytes
broken = record { bytes = 9 ∷ 0 ∷ 0 ∷ 0 ∷ 0 ∷ 0 ∷ 0 ∷ 0 ∷ 1 ∷ [] }

abbrev one : SizedObjectsBytes
one = record { bytes = 2 ∷ 0 ∷ 0 ∷ 0 ∷ 0 ∷ 0 ∷ 0 ∷ 0 ∷ 4 ∷ 5 ∷ 6 ∷ [] }

removed : remove_front {E = TchError} one ≡ ok (4 ∷ 5 ∷ [], record { bytes = 6 ∷ [] })
unfolding remove_front drain read_le_usize from_le_bytes
removed = refl
