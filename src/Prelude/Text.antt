-- ===== src/Prelude/Text.antt =====
-- `format!`: the pieces of a message joined, and decimal numerals.
use Prim.Native.Nat.{ℕ, zero, suc, ◌/◌, ◌%◌}
use Prim.Native.String.{String, ◌++◌}
use mathlib.Core.List.{List, [], ◌∷◌}
use mathlib.Core.Path.{◌≡◌, refl}
use bastionlab.Prelude.Tests.{ltb, if◌then◌else◌}

abbrev pub concat : List String → String
concat [] = ""
concat (s ∷ ss) = s ++ concat ss

unfoldable pub digit : ℕ → String
digit zero = "0"
digit (suc zero) = "1"
digit (suc (suc zero)) = "2"
digit (suc (suc (suc zero))) = "3"
digit (suc (suc (suc (suc zero)))) = "4"
digit (suc (suc (suc (suc (suc zero))))) = "5"
digit (suc (suc (suc (suc (suc (suc zero)))))) = "6"
digit (suc (suc (suc (suc (suc (suc (suc zero))))))) = "7"
digit (suc (suc (suc (suc (suc (suc (suc (suc zero)))))))) = "8"
digit _ = "9"

unfoldable pub decimal_from : ℕ → ℕ → String → String
decimal_from zero n acc = acc
decimal_from (suc fuel) n acc =
    let longer = decimal_from fuel (n / 10) (digit (n % 10) ++ acc) in
    if ltb n 10 then digit n ++ acc else longer

-- A number has no more digits than its value and one.
unfoldable pub decimal : ℕ → String
unfolding decimal_from digit
decimal n = decimal_from (suc n) n ""

decimal_runs : decimal 65535 ≡ "65535"
unfolding decimal
decimal_runs = refl
