-- ===== src/Tests/Amounts.antt =====
-- Amounts that are shown and typed.
use earn_defi_nestjs_backend.Base.{◌≡◌, refl, some, arith, codes}
use earn_defi_nestjs_backend.Frontend.Amounts.{parse_amount, format_amount}
use earn_defi_nestjs_backend.Frontend.Amounts.Shown.{parse_amount-format_amount}

format_amount_test : format_amount 12500000 6 4 ≡ codes "12.5"
unfolding format_amount
format_amount_test = refl

-- With fewer decimals than the asset has, the amount is cut.
format_amount_cut : format_amount 1234567 6 4 ≡ codes "1.2345"
unfolding format_amount
format_amount_cut = refl

parse_amount-format_amount_example : parse_amount (format_amount 1000050 6 6) 6 ≡ some 1000050
parse_amount-format_amount_example =
    parse_amount-format_amount 1000050 6 6 (omega arith) (omega arith)
