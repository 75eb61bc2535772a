-- ===== src/Base/Decimal.antt =====
-- Decimal texts: `toString()` of a natural number, `toFixed(4)` of one that counts ten-thousandths,
-- and the code points of a text.
use Prim.Native.Nat.{ℕ, zero, suc, ◌/◌, ◌%◌}
use Prim.Native.Char.{code}
use Prim.Native.String.{String, ◌++◌}
use mathlib.Core.List.{[], ◌∷◌}
use earn_defi_nestjs_backend.Base.Int.{ltb, if◌then◌else◌}
use earn_defi_nestjs_backend.Base.Chars.{Text, to_upper_case, eq_text}
use mathlib.Core.Bool.{Bool}

abbrev pub codes : String → Text
codes String.[] = []
codes (String.◌∷◌ c s) = code c ∷ codes s

-- `a.toUpperCase() === b.toUpperCase()`
abbrev pub same_symbol : String → String → Bool
same_symbol a b = eq_text (to_upper_case (codes a)) (to_upper_case (codes b))

abbrev pub digit : ℕ → String
digit zero = "0"
digit (suc zero) = "1"
digit (suc (suc zero)) = "2"
digit (suc (suc (suc zero))) = "3"
digit (suc (suc (suc (suc zero)))) = "4"
digit (suc (suc (suc (suc (suc zero))))) = "5"
digit (suc (suc (suc (suc (suc (suc zero)))))) = "6"
digit (suc (suc (suc (suc (suc (suc (suc zero))))))) = "7"
digit (suc (suc (suc (suc (suc (suc (suc (suc zero)))))))) = "8"
digit (suc (suc (suc (suc (suc (suc (suc (suc (suc n))))))))) = "9"

-- The fuel bounds the number of digits; a number has fewer than it counts, and one more.
show_from : ℕ → ℕ → String
show_from zero n = digit n
show_from (suc fuel) n =
    let rest = show_from fuel (n / 10) ++ digit (n % 10) in if ltb n 10 then digit n else rest

unfoldable pub to_string : ℕ → String
unfolding show_from
to_string n = show_from n n

unfoldable pub to_fixed4 : ℕ → String
unfolding to_string
to_fixed4 n =
    to_string (n / 10000)
    ++ "."
    ++ digit (n / 1000 % 10)
    ++ digit (n / 100 % 10)
    ++ digit (n / 10 % 10)
    ++ digit (n % 10)
