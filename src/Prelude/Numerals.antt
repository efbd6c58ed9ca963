-- ===== src/Prelude/Numerals.antt =====
-- `usize::from_str`: texts as lists of code points, and the decimal numerals among them.
use Prim.Native.Nat.{ℕ, zero, suc, ◌+◌, ◌-◌, ◌*◌, ◌/◌, ◌%◌, ◌^◌, ◌<◌}
use Prim.Native.Char.{code}
use Prim.Native.String.{String}
use Prim.Native.String
use Prim.Native.String.append
use mathlib.Core.Bool.{true, false, ◌&&◌}
use mathlib.Core.List.{List, [], ◌∷◌, ◌++◌}
use mathlib.Core.Logic.{inl, inr}
use mathlib.Core.Option.{Option, none, some}
use mathlib.Core.Path.{◌≡◌, refl, ap, ◌∙◌}
use native.Mathlib.Omega.{arith}
use bastionlab.Prelude.Tests.{ltb, leb, eqb, if◌then◌else◌, Bool-cases, ltb→lt}
use bastionlab.Prelude.Text.{decimal, decimal_from, digit}

abbrev pub codes : String → List ℕ
codes String.[] = []
codes (String.◌∷◌ c s) = code c ∷ codes s

-- `str::strip_prefix`
abbrev pub strip_prefix : List ℕ → List ℕ → Option (List ℕ)
strip_prefix [] s = some s
strip_prefix (p ∷ ps) [] = none
strip_prefix (p ∷ ps) (c ∷ s) = elim (eqb p c) [ true ↦ strip_prefix ps s | false ↦ none ]

-- Decimal digits, to a number of 64 bits.
unfoldable pub digits_from : ℕ → List ℕ → Option ℕ
digits_from acc [] = some acc
digits_from acc (c ∷ s) =
    let rest = digits_from (acc * 10 + (c - 48)) s in
    if leb 48 c && leb c 57 && ltb (acc * 10 + (c - 48)) (2 ^ 64) then rest else none

abbrev some_digits : List ℕ → Option ℕ
some_digits [] = none
some_digits (c ∷ s) = digits_from 0 (c ∷ s)

-- A sign `+` may stand before the digits.
unfoldable pub parse_usize : List ℕ → Option ℕ
parse_usize [] = none
parse_usize (c ∷ s) = if eqb c 43 then some_digits s else digits_from 0 (c ∷ s)

parse_usize_runs : parse_usize (codes "407") ≡ some 407
unfolding parse_usize digits_from
parse_usize_runs = refl

pub codes-append : (s t : String) → codes (String.◌++◌ s t) ≡ codes s ++ codes t
codes-append String.[] t = λ i. codes (append.nil t i)
codes-append (String.◌∷◌ c s) t =
    (λ i. codes (append.cons c s t i)) ∙ ap (λ l. code c ∷ l) (codes-append s t)

codes-digit : (n : ℕ) (s : String) → n < 10 → codes (String.◌++◌ (digit n) s) ≡ (n + 48) ∷ codes s
unfolding digit
codes-digit zero s h = codes-append (digit 0) s
codes-digit (suc zero) s h = codes-append (digit 1) s
codes-digit (suc (suc zero)) s h = codes-append (digit 2) s
codes-digit (suc (suc (suc zero))) s h = codes-append (digit 3) s
codes-digit (suc (suc (suc (suc zero)))) s h = codes-append (digit 4) s
codes-digit (suc (suc (suc (suc (suc zero))))) s h = codes-append (digit 5) s
codes-digit (suc (suc (suc (suc (suc (suc zero)))))) s h = codes-append (digit 6) s
codes-digit (suc (suc (suc (suc (suc (suc (suc zero))))))) s h = codes-append (digit 7) s
codes-digit (suc (suc (suc (suc (suc (suc (suc (suc zero)))))))) s h = codes-append (digit 8) s
codes-digit (suc (suc (suc (suc (suc (suc (suc (suc (suc zero))))))))) s h =
    codes-append (digit 9) s
codes-digit (suc (suc (suc (suc (suc (suc (suc (suc (suc (suc n)))))))))) s h = absurd (omega arith)

digits_from-digit :
    (acc n : ℕ) {m : ℕ} (s : List ℕ)
    → n < 10
    → acc * 10 + n ≡ m
    → m < 2 ^ 64
    → digits_from acc ((n + 48) ∷ s) ≡ digits_from m s
unfolding digits_from
digits_from-digit acc n s h e b = rw (← e) (ground arith)

digits_from-decimal_from :
    (fuel n : ℕ) (acc : String)
    → n < fuel
    → n < 2 ^ 64
    → digits_from 0 (codes (decimal_from fuel n acc)) ≡ digits_from n (codes acc)
unfolding decimal_from
digits_from-decimal_from zero n acc h b = absurd (omega arith)
digits_from-decimal_from (suc fuel) n acc h b = elim (Bool-cases (ltb n 10)) [
  | inl last ↦
      rw (last, codes-digit n acc (ltb→lt _ _ last))
        (digits_from-digit 0 n (codes acc) (ltb→lt _ _ last) (omega arith) b)
  | inr more ↦ rw more (
      digits_from-decimal_from fuel (n / 10) (String.◌++◌ (digit (n % 10)) acc) (ground arith)
        (omega arith)
      ∙ (rw (codes-digit (n % 10) acc (omega arith))
          (digits_from-digit (n / 10) (n % 10) (codes acc) (omega arith) (omega arith) b)))
]

parse_usize-digits_from :
    (s : List ℕ) (n : ℕ) → digits_from 0 s ≡ some (suc n) → parse_usize s ≡ some (suc n)
unfolding parse_usize digits_from
parse_usize-digits_from [] n h = absurd (ground arith)
parse_usize-digits_from (c ∷ s) n h = elim (Bool-cases (eqb c 43)) [
  | inl plus ↦ absurd (ground arith)
  | inr other ↦ rw other h
]

pub parse_usize-decimal : (n : ℕ) → n < 2 ^ 64 → parse_usize (codes (decimal n)) ≡ some n
parse_usize-decimal zero b = unfold decimal decimal_from digit parse_usize digits_from in refl
parse_usize-decimal (suc n) b = parse_usize-digits_from (codes (decimal (suc n))) n (
    unfold decimal digits_from in digits_from-decimal_from (suc (suc n)) (suc n) "" (omega arith) b)
