-- ===== src/Frontend/Amounts/Exact.antt =====
-- frontend/src/utils/format.ts: what number `parseAmount` makes of an amount.
use native.Mathlib.Nat.{mul_assoc, add-mul, pow-suc, mul_comm, zero-mul}
use earn_defi_nestjs_backend.Base.{
  ℕ, zero, suc, ◌+◌, ◌-◌, ◌*◌, ◌^◌, ◌≤◌, ◌==◌, ◌≡◌, refl, ap, sym, ◌∙◌, true, false, none, some, [],
  ◌∷◌, ◌++◌, Text, trim, trim_start, trim_end, is_blank, keep_unless_blank, take, length, All,
  arith,
}
use earn_defi_nestjs_backend.Frontend.Amounts.{
  is_digit, is_digits, split_point, pad_end, big_int_from, big_int, scaled, parse_amount,
}

abbrev pub AreDigits : Text → Type 0
AreDigits t = All (λ c. is_digit c ≡ true) t

zero_first : (v : ℕ) (t : Text) → big_int_from (0 + v) t ≡ big_int_from v t
zero_first v t = ap (λ k. big_int_from k t) (omega arith)

-- Digits are added at the end one by one.
big_int_from-shift : (n : ℕ) (t : Text) → big_int_from n t ≡ n * 10 ^ length t + big_int_from 0 t
unfolding big_int_from
big_int_from-shift n [] = omega arith
big_int_from-shift n (c ∷ cs) =
    let p = 10 ^ length cs in
    let v = c - 48 in
    let tail = big_int_from-shift v cs in
    let same = zero_first v cs in
    let split = add-mul (n * 10) v p in
    let ten : n * 10 * p ≡ n * 10 ^ suc (length cs) =
      mul_assoc n 10 p ∙ ap (λ k. n * k) (mul_comm 10 p ∙ sym (pow-suc 10 (length cs))) in
    big_int_from-shift (n * 10 + v) cs ∙ omega arith

pub big_int_from-append :
    (n : ℕ) (s t : Text) → big_int_from n (s ++ t) ≡ big_int_from (big_int_from n s) t
unfolding big_int_from
big_int_from-append n [] t = refl
big_int_from-append n (c ∷ cs) t = big_int_from-append (n * 10 + (c - 48)) cs t

-- Each zero of the padding multiplies by ten.
big_int_from-pad_end :
    (n : ℕ) (t : Text) (decimals : ℕ)
    → length t ≤ decimals
    → big_int_from n (pad_end t decimals) ≡ big_int_from n t * 10 ^ (decimals - length t)
unfolding pad_end big_int_from
big_int_from-pad_end n [] zero h = omega arith
big_int_from-pad_end n [] (suc d) h =
    let ten : n * 10 * 10 ^ d ≡ n * 10 ^ suc d =
      mul_assoc n 10 (10 ^ d) ∙ ap (λ k. n * k) (mul_comm 10 (10 ^ d) ∙ sym (pow-suc 10 d)) in
    big_int_from-pad_end (n * 10 + 0) [] d (omega arith)
    ∙ ap (λ k. k * 10 ^ (d - 0)) (omega arith)
    ∙ ap (λ k. n * 10 * 10 ^ k) (omega arith)
    ∙ ten
    ∙ ap (λ k. n * 10 ^ k) (omega arith)
big_int_from-pad_end n (c ∷ cs) zero h = absurd (omega arith)
big_int_from-pad_end n (c ∷ cs) (suc d) h =
    big_int_from-pad_end (n * 10 + (c - 48)) cs d (omega arith)
    ∙ ap (λ k. big_int_from (n * 10 + (c - 48)) cs * 10 ^ k) (omega arith)

length-pad_end :
    (t : Text) (decimals : ℕ) → length t ≤ decimals → length (pad_end t decimals) ≡ decimals
unfolding pad_end
length-pad_end [] zero h = refl
length-pad_end [] (suc d) h = ap suc (length-pad_end [] d (omega arith))
length-pad_end (c ∷ cs) zero h = absurd (omega arith)
length-pad_end (c ∷ cs) (suc d) h = ap suc (length-pad_end cs d (omega arith))

pub take-pad_end :
    (t : Text) (decimals : ℕ)
    → length t ≤ decimals
    → take decimals (pad_end t decimals) ≡ pad_end t decimals
unfolding pad_end
take-pad_end [] zero h = refl
take-pad_end [] (suc d) h = ap (◌∷◌ 48) (take-pad_end [] d (omega arith))
take-pad_end (c ∷ cs) zero h = absurd (omega arith)
take-pad_end (c ∷ cs) (suc d) h = ap (◌∷◌ c) (take-pad_end cs d (omega arith))

abbrev ArePlain : Text → Type 0
ArePlain t = All (λ c. is_blank c ≡ false) t

trim_end-plain : (t : Text) → ArePlain t → trim_end t ≡ t
unfolding trim_end
trim_end-plain [] plain = refl
trim_end-plain (c ∷ []) (visible, plain) = ground arith
trim_end-plain (c ∷ d ∷ ds) (visible, plain) =
    ap (keep_unless_blank c) (trim_end-plain (d ∷ ds) plain)

trim-plain : (t : Text) → ArePlain t → trim t ≡ t
unfolding trim trim_start
trim-plain [] plain = refl
trim-plain (c ∷ cs) (visible, plain) = rw visible (trim_end-plain (c ∷ cs) (visible, plain))

ArePlain-digits : (t : Text) → AreDigits t → ArePlain t
ArePlain-digits [] digits = tt
ArePlain-digits (c ∷ cs) (digit, digits) = (ground arith, ArePlain-digits cs digits)

ArePlain-append : (s t : Text) → ArePlain s → ArePlain t → ArePlain (s ++ t)
ArePlain-append [] t p q = q
ArePlain-append (c ∷ cs) t (visible, p) q = (visible, ArePlain-append cs t p q)

split_point-digits :
    (t fraction : Text)
    → AreDigits t
    → (split_point (t ++ 46 ∷ fraction) ≡ (t, some fraction)) × (split_point t ≡ (t, none))
unfolding split_point
split_point-digits [] fraction digits = (refl, refl)
split_point-digits (c ∷ cs) fraction (digit, digits) =
    let rest = split_point-digits cs fraction digits in
    let apart : (c == 46) ≡ false = ground arith in
    (rw (apart, rest.0) refl, rw (apart, rest.1) refl)

is_digits-all : (c : ℕ) (t : Text) → AreDigits (c ∷ t) → is_digits (c ∷ t) ≡ true
unfolding is_digits
is_digits-all c [] (digit, digits) = digit
is_digits-all c (d ∷ ds) (digit, digits) = ground (arith, is_digits-all d ds digits)

-- The whole and the padded fraction, put together.
scaled-append :
    (w f : Text) (decimals : ℕ)
    → length f ≤ decimals
    → big_int_from 0 w * 10 ^ decimals + big_int_from 0 (take decimals (pad_end f decimals))
      ≡ big_int_from 0 (w ++ f) * 10 ^ (decimals - length f)
scaled-append w f decimals few =
    let n = big_int_from 0 w in
    ap (λ t. n * 10 ^ decimals + big_int_from 0 t) (take-pad_end f decimals few)
    ∙ ap (λ k. n * 10 ^ k + big_int_from 0 (pad_end f decimals))
        (sym (length-pad_end f decimals few))
    ∙ sym (big_int_from-shift n (pad_end f decimals))
    ∙ big_int_from-pad_end n f decimals few
    ∙ ap (λ k. k * 10 ^ (decimals - length f)) (sym (big_int_from-append 0 w f))

no_fraction : (decimals : ℕ) → big_int_from 0 (take decimals (pad_end [] decimals)) ≡ 0
unfolding big_int_from
no_fraction decimals =
    ap (big_int_from 0) (take-pad_end [] decimals (omega arith))
    ∙ big_int_from-pad_end 0 [] decimals (omega arith)
    ∙ zero-mul (10 ^ (decimals - 0))

-- What is read of digits, and of digits with a point between them.
pub parse_amount-written :
    (c : ℕ) (cs : Text) (d : ℕ) (ds : Text) (decimals : ℕ)
    → All (λ k. is_digit k ≡ true) (c ∷ cs)
    → All (λ k. is_digit k ≡ true) (d ∷ ds)
    → (parse_amount (c ∷ cs) decimals ≡ some (scaled (c ∷ cs, none) decimals))
      × (parse_amount ((c ∷ cs) ++ 46 ∷ d ∷ ds) decimals
          ≡ some (scaled (c ∷ cs, some (d ∷ ds)) decimals))
unfolding parse_amount
parse_amount-written c cs d ds decimals w f =
    let point = split_point-digits (c ∷ cs) (d ∷ ds) w in
    let plain = ArePlain-digits (c ∷ cs) w in
    let longer = ArePlain-append (c ∷ cs) (46 ∷ d ∷ ds) plain (refl, ArePlain-digits (d ∷ ds) f) in
    (
      rw (trim-plain (c ∷ cs) plain, point.1, is_digits-all c cs w) refl,
      rw (trim-plain _ longer, point.0, is_digits-all c cs w, is_digits-all d ds f) refl,
    )

-- An amount of digits, and one with a point between digits, is taken exactly: it is the number that
-- its digits make without the point, times the power of ten for the decimals that are not written,
-- when no more decimals are written than the asset has.
parse_amount-exact :
    (c : ℕ) (cs : Text) (d : ℕ) (ds : Text) (decimals : ℕ)
    → All (λ k. is_digit k ≡ true) (c ∷ cs)
    → All (λ k. is_digit k ≡ true) (d ∷ ds)
    → length (d ∷ ds) ≤ decimals
    → (parse_amount (c ∷ cs) decimals ≡ some (big_int (c ∷ cs) * 10 ^ decimals))
      × (parse_amount ((c ∷ cs) ++ 46 ∷ d ∷ ds) decimals
          ≡ some (big_int ((c ∷ cs) ++ d ∷ ds) * 10 ^ (decimals - length (d ∷ ds))))
unfolding big_int
parse_amount-exact c cs d ds decimals w f few =
    let (whole, both) = parse_amount-written c cs d ds decimals w f in
    (
      whole ∙ ap some (let nothing = no_fraction decimals in omega arith),
      both ∙ ap some (scaled-append (c ∷ cs) (d ∷ ds) decimals few),
    )
