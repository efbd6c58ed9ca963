-- ===== src/Learning/Bytes/RoundTrip.antt =====
-- Reading back what was appended to a `SizedObjectsBytes`.
use bastionlab.Prelude.{
  ℕ, zero, suc, ◌+◌, ◌*◌, ◌/◌, ◌^◌, ◌≤◌, ◌<◌, ◌≡◌, ◌≢◌, refl, ap, sym, List, [], ◌∷◌, ◌++◌, none,
  some, length, arith, ok, ◌>>=◌, All, length-append, take-length-append, drop-length-append,
  le→leb, leb, inl, inr, Bool-cases, Outcome-cases, >>=-eq-ok, take-append-drop, length-take,
  append_assoc, append-nil,
}
use mathlib.Core.List.{foldl}
use bastionlab.Learning.Bytes.{
  to_le_bytes, from_le_bytes, size_of_usize, SizedObjectsBytes, new, append_back, drain,
  read_le_usize, remove_front, next, objects, binary_module, of_binary_module, TchError,
}

pub length-to_le_bytes : (w n : ℕ) → length (to_le_bytes w n) ≡ w
unfolding to_le_bytes
length-to_le_bytes zero n = refl
length-to_le_bytes (suc w) n = ap suc (length-to_le_bytes w (n / 256))

-- The range of `width` bytes.
abbrev pub range_of : ℕ → ℕ
range_of zero = 1
range_of (suc w) = 256 * range_of w

pub from_le_bytes-to_le_bytes : (w n : ℕ) → n < range_of w → from_le_bytes (to_le_bytes w n) ≡ n
unfolding to_le_bytes from_le_bytes
from_le_bytes-to_le_bytes zero n h = omega arith
from_le_bytes-to_le_bytes (suc w) n h =
    omega (arith, from_le_bytes-to_le_bytes w (n / 256) (omega arith))

pub drain-append {ℓ κ} :
    {E : Type ℓ} {A : Type κ} (n : ℕ) (xs ys : List A)
    → length xs ≡ n
    → drain {E = E} n (xs ++ ys) ≡ ok (xs, ys)
unfolding drain
drain-append n xs ys h =
    rw (← h, le→leb (length xs) (length (xs ++ ys)) (omega (arith, length-append xs ys)))
      (ap ok (rw (take-length-append xs ys, drop-length-append xs ys) refl))

-- What `append_back` writes for one object.
abbrev pub frame : List ℕ → List ℕ
frame object = to_le_bytes size_of_usize (length object) ++ object

abbrev pub frames : List (List ℕ) → List ℕ
frames [] = []
frames (o ∷ os) = frame o ++ frames os

abbrev pub Fits : List ℕ → Type 0
Fits object = length object < 2 ^ 64

length-frame : (object : List ℕ) → length (frame object) ≡ 8 + length object
length-frame object = omega (
  arith,
  length-append (to_le_bytes size_of_usize (length object)) object,
  length-to_le_bytes 8 (length object),
)

module _ {ℓ} {E : Type ℓ} where
  read_le_usize-to_le_bytes :
      (n : ℕ) → n < 2 ^ 64 → read_le_usize {E = E} (to_le_bytes size_of_usize n) ≡ ok n
  unfolding read_le_usize
  read_le_usize-to_le_bytes n h =
      rw
        (
          ← append-nil (to_le_bytes size_of_usize n),
          drain-append {E = E} 8 (to_le_bytes size_of_usize n) [] (length-to_le_bytes 8 n),
        )
        (ap ok (from_le_bytes-to_le_bytes 8 n h))

  pub remove_front-frame :
      (object rest : List ℕ)
      → Fits object
      → remove_front {E = E} (record { bytes = frame object ++ rest })
        ≡ ok (object, record { bytes = rest })
  unfolding remove_front
  remove_front-frame object rest h = rw (
    append_assoc (to_le_bytes size_of_usize (length object)) object rest,
    drain-append {E = E} 8 (to_le_bytes size_of_usize (length object)) (object ++ rest)
        (length-to_le_bytes 8 (length object)),
    read_le_usize-to_le_bytes (length object) h,
    drain-append {E = E} (length object) object rest refl,
  )

  pub next-frame :
      (object rest : List ℕ)
      → Fits object
      → next {E = E} (record { bytes = frame object ++ rest })
        ≡ ok (some object, record { bytes = rest })
  unfolding next
  next-frame object rest h = rw (
    le→leb 1 (length (frame object ++ rest))
        (omega (arith, length-append (frame object) rest, length-frame object)),
    remove_front-frame object rest h,
  )

  objects-frames :
      (os : List (List ℕ)) (fuel : ℕ)
      → All Fits os
      → length os < fuel
      → objects {E = E} fuel (record { bytes = frames os }) ≡ some (ok os)
  unfolding objects
  objects-frames os zero fits h = absurd (omega arith)
  objects-frames [] (suc fuel) fits h = unfold next in refl
  objects-frames (o ∷ os) (suc fuel) fits h =
      rw (next-frame o (frames os) fits.0, objects)
        (rw (objects-frames os fuel fits.1 (omega arith)) refl)

bytes-foldl-append_back :
    (os : List (List ℕ)) (buf : SizedObjectsBytes)
    → (foldl append_back buf os).bytes ≡ buf.bytes ++ frames os
bytes-foldl-append_back [] buf = sym (append-nil buf.bytes)
bytes-foldl-append_back (o ∷ os) buf =
    rw (bytes-foldl-append_back os (append_back buf o)) (unfold append_back in simp append_assoc)

-- A buffer into which objects of machine size were appended, in order, yields exactly those objects
-- when it is iterated, in the same order; fuel above their number is enough.
pub objects-append_back {ℓ} :
    {E : Type ℓ} (os : List (List ℕ)) (fuel : ℕ)
    → All Fits os
    → length os < fuel
    → objects {E = E} fuel (foldl append_back new os) ≡ some (ok os)
unfolding new
objects-append_back {E} os fuel fits h = rw (written os) (objects-frames {E = E} os fuel fits h)
  where
    written : (os : List (List ℕ)) → foldl append_back new os ≡ record { bytes = frames os }
    written os = λ i. record { bytes = bytes-foldl-append_back os new i }

-- A module binary survives its conversion to a byte stream and back.
pub binary_module-of_binary_module :
    (value : List ℕ) → Fits value → binary_module (of_binary_module value) ≡ ok value
unfolding binary_module of_binary_module append_back new
binary_module-of_binary_module value h =
    rw (← append-nil (frame value), next-frame {E = TchError} value [] h)

pub drain_sound {ℓ κ} :
    {E : Type ℓ} {A : Type κ} (n : ℕ) (xs a b : List A)
    → drain {E = E} n xs ≡ ok (a, b)
    → (xs ≡ a ++ b) × (length a ≡ n)
unfolding drain
drain_sound n xs a b h = elim (Bool-cases (leb n (length xs))) [
  | inl fits ↦ (ground (arith, take-append-drop n xs), ground (arith, length-take n xs))
  | inr short ↦ ground arith
]

module _ {ℓ} {E : Type ℓ} where
  read_le_usize_eight :
      (header : List ℕ) (n : ℕ)
      → length header ≡ 8
      → read_le_usize {E = E} header ≡ ok n
      → from_le_bytes header ≡ n
  unfolding read_le_usize
  read_le_usize_eight header n eight h =
      let whole = drain-append {E = E} 8 header [] eight in
      let whole' : drain {E = E} 8 header ≡ ok (header, []) = rw append-nil at whole in
      cc (rw (whole', ◌>>=◌) at h)

  -- What `remove_front` takes from a buffer is an eight-byte header, and as many bytes as it says.
  pub remove_front_sound :
      (buf : SizedObjectsBytes) (object : List ℕ) (rest : SizedObjectsBytes)
      → remove_front {E = E} buf ≡ ok (object, rest)
      → (header : List ℕ) × (buf.bytes ≡ header ++ (object ++ rest.bytes))
        × (length header ≡ 8)
        × (from_le_bytes header ≡ length object)
  unfolding remove_front
  remove_front_sound buf object rest h =
      let (p, e, h') = >>=-eq-ok (drain size_of_usize buf.bytes) _ h in
      let (len, f, h'') = >>=-eq-ok (read_le_usize p.0) _ h' in
      let (q, g, k) = >>=-eq-ok (drain len p.1) _ h'' in
      let (cut, eight) = drain_sound size_of_usize buf.bytes p.0 p.1 e in
      let (cut', sized) = drain_sound len p.1 q.0 q.1 g in
      let said = read_le_usize_eight p.0 len eight f in
      (p.0, cc (cut, cut', k), eight, cc (said, sized, k))

  pub length-remove_front :
      (buf : SizedObjectsBytes) (object : List ℕ) (rest : SizedObjectsBytes)
      → remove_front {E = E} buf ≡ ok (object, rest)
      → length rest.bytes + 8 ≤ length buf.bytes
  length-remove_front buf object rest h =
      let (header, cut, eight, sized) = remove_front_sound buf object rest h in
      omega (
        arith,
        ap length cut,
        eight,
        length-append header (object ++ rest.bytes),
        length-append object rest.bytes,
      )

  pub length-next :
      (buf : SizedObjectsBytes) (object : List ℕ) (rest : SizedObjectsBytes)
      → next {E = E} buf ≡ ok (some object, rest)
      → length rest.bytes + 8 ≤ length buf.bytes
  unfolding next
  length-next buf object rest h = elim (Bool-cases (leb 1 (length buf.bytes))) [
    | inl more ↦ elim (Outcome-cases (remove_front {E = E} buf)) [
      | inl ((o, r), e) ↦ ground (arith, length-remove_front buf o r e)
      | inr (inl (x, e)) ↦ ground arith
      | inr (inr e) ↦ ground arith
    ]
    | inr empty ↦ ground arith
  ]

  -- With more fuel than the buffer has bytes the loop over it ends, whatever the bytes are.
  pub objects_total :
      (fuel : ℕ) (buf : SizedObjectsBytes)
      → length buf.bytes < fuel
      → objects {E = E} fuel buf ≢ none
  unfolding objects
  objects_total zero buf h = absurd (omega arith)
  objects_total (suc fuel) buf h = elim (Outcome-cases (next {E = E} buf)) [
    | inl ((none, rest), e) ↦ rw (e, objects) (λ x. cc)
    | inl ((some object, rest), e) ↦
        ground (arith, objects_total fuel rest (omega (arith, length-next buf object rest e)))
    | inr (inl (x, e)) ↦ rw (e, objects) (λ x. cc)
    | inr (inr e) ↦ rw (e, objects) (λ x. cc)
  ]
