-- ===== src/Frontend/Amounts.antt =====
-- frontend/src/utils/format.ts: the amount that the user types, in units of the asset, and
-- the amount that is shown.
use Prim.Native.Nat.{◌^◌}
pub mod Exact
pub mod Shown
use earn_defi_nestjs_backend.Base.{
  ℕ, zero, suc, ◌+◌, ◌-◌, ◌*◌, ◌/◌, ◌%◌, ◌++◌, ltb, length, leb, ◌==◌, if◌then◌else◌, Bool, false,
  ◌&&◌, Option, none, some, [], ◌∷◌, Text, trim, take,
}

abbrev pub is_digit : ℕ → Bool
is_digit c = leb 48 c && leb c 57

abbrev pub point : ℕ
point = 46

-- `\d+`
unfoldable pub is_digits : Text → Bool
is_digits [] = false
is_digits (c ∷ []) = is_digit c
is_digits (c ∷ d ∷ ds) = is_digit c && is_digits (d ∷ ds)

-- `split('.')`: what stands before the first point, and after it.
unfoldable pub split_point : Text → Text × Option Text
split_point [] = ([], none)
split_point (c ∷ cs) =
    let rest = split_point cs in if c == point then ([], some cs) else (c ∷ rest.0, rest.1)

-- `/^\d+(\.\d+)?$/`
abbrev pub is_amount : Text × Option Text → Bool
is_amount (whole, none) = is_digits whole
is_amount (whole, some fraction) = is_digits whole && is_digits fraction

unfoldable pub pad_end : Text → ℕ → Text
pad_end t zero = t
pad_end [] (suc n) = 48 ∷ pad_end [] n
pad_end (c ∷ cs) (suc n) = c ∷ pad_end cs n

unfoldable pub big_int_from : ℕ → Text → ℕ
big_int_from n [] = n
big_int_from n (c ∷ cs) = big_int_from (n * 10 + (c - 48)) cs

unfoldable pub big_int : Text → ℕ
unfolding big_int_from
big_int t = big_int_from 0 t

abbrev pub fraction_of : Option Text → Text
fraction_of none = []
fraction_of (some fraction) = fraction

abbrev pub scaled : Text × Option Text → ℕ → ℕ
scaled (whole, fraction) decimals =
    big_int whole * 10 ^ decimals
    + big_int (take decimals (pad_end (fraction_of fraction) decimals))

-- No amount is the error that the function throws.
unfoldable pub parse_amount : Text → ℕ → Option ℕ
unfolding split_point is_digits pad_end big_int
parse_amount input decimals =
    let parts = split_point (trim input) in
    if is_amount parts then some (scaled parts decimals) else none

-- `toString()`; a number that is at most the fuel has no more digits than the fuel counts, and one.
unfoldable pub to_text_from : ℕ → ℕ → Text
to_text_from zero n = (48 + n % 10) ∷ []
to_text_from (suc fuel) n =
    let rest = to_text_from fuel (n / 10) ++ (48 + n % 10) ∷ [] in
    if ltb n 10 then (48 + n) ∷ [] else rest

unfoldable pub to_text : ℕ → Text
unfolding to_text_from
to_text n = to_text_from n n

unfoldable pub zeros_before : ℕ → Text → Text
zeros_before zero t = t
zeros_before (suc n) t = 48 ∷ zeros_before n t

-- `padStart(n, '0')`
abbrev pub pad_start : Text → ℕ → Text
pad_start t n = zeros_before (n - length t) t

abbrev pub keep_unless_zero : ℕ → Text → Text
keep_unless_zero c [] = if c == 48 then [] else c ∷ []
keep_unless_zero c (d ∷ ds) = c ∷ d ∷ ds

-- `replace(/0+$/, '')`
unfoldable pub drop_zeros : Text → Text
drop_zeros [] = []
drop_zeros (c ∷ cs) = keep_unless_zero c (drop_zeros cs)

abbrev pub with_fraction : Text → Text → Text
with_fraction whole [] = whole
with_fraction whole (c ∷ cs) = whole ++ point ∷ c ∷ cs

unfoldable pub format_amount : ℕ → ℕ → ℕ → Text
unfolding to_text zeros_before drop_zeros
format_amount value decimals max_fraction_digits =
    with_fraction (to_text (value / 10 ^ decimals))
      (drop_zeros (take max_fraction_digits (pad_start (to_text (value % 10 ^ decimals)) decimals)))
