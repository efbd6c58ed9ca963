-- ===== src/Prelude/Chunks.antt =====
-- `slice::chunks`, and its inverse.
use Prim.Native.Nat.{ℕ, zero, suc, ◌≤◌}
use mathlib.Core.Path.{◌≡◌, refl}
use mathlib.Core.List.{List, [], ◌∷◌, ◌++◌}
use native.Mathlib.Omega.{arith}
use bastionlab.Prelude.Lists.{length, take, drop, length-take, length-drop, take-append-drop, All}

module _ {ℓ} {A : Type ℓ} where
  -- On fuel, of which the length of the list is enough.
  unfoldable pub chunks_on : ℕ → ℕ → List A → List (List A)
  chunks_on zero n xs = []
  chunks_on (suc fuel) n [] = []
  chunks_on (suc fuel) n (x ∷ xs) = take n (x ∷ xs) ∷ chunks_on fuel n (drop n (x ∷ xs))

  abbrev pub chunks : ℕ → List A → List (List A)
  chunks n xs = chunks_on (length xs) n xs

  abbrev pub joined : List (List A) → List A
  joined [] = []
  joined (c ∷ cs) = c ++ joined cs

  abbrev pub Sized : ℕ → List A → Type 0
  Sized n c = (1 ≤ length c) × (length c ≤ n)

  joined-chunks_on :
      (fuel n : ℕ) (xs : List A)
      → length xs ≤ fuel
      → 1 ≤ n
      → (joined (chunks_on fuel n xs) ≡ xs) × All (Sized n) (chunks_on fuel n xs)
  unfolding chunks_on
  joined-chunks_on zero n [] h p = (refl, tt)
  joined-chunks_on zero n (x ∷ xs) h p = absurd (omega arith)
  joined-chunks_on (suc fuel) n [] h p = (refl, tt)
  joined-chunks_on (suc fuel) n (x ∷ xs) h p =
      let smaller = length-drop n (x ∷ xs) in
      let taken = length-take n (x ∷ xs) in
      let (cover, sized) = joined-chunks_on fuel n (drop n (x ∷ xs)) (omega arith) p in
      (rw cover (take-append-drop n (x ∷ xs)), ((omega arith, omega arith), sized))

  -- Chunks of a positive size cover the list in order, and none is empty or too long.
  pub joined-chunks :
      (n : ℕ) (xs : List A) → 1 ≤ n → (joined (chunks n xs) ≡ xs) × All (Sized n) (chunks n xs)
  joined-chunks n xs p = joined-chunks_on (length xs) n xs (omega arith) p
