-- ===== src/Frontend/Amounts/Shown.antt =====
-- frontend/src/utils/format.ts: an amount that is shown and typed again.
use native.Mathlib.Nat.{pow-suc, mod-lt, div-add-mod', one-le-pow}
use earn_defi_nestjs_backend.Base.{
  ℕ, zero, suc, ◌+◌, ◌-◌, ◌*◌, ◌/◌, ◌%◌, ◌^◌, ◌≤◌, ◌<◌, ltb, ◌==◌, ◌≡◌, refl, ap, sym, ◌∙◌, inl,
  inr, Bool-cases, some, [], ◌∷◌, ◌++◌, Text, take, length, arith, eq_of_==,
}
use earn_defi_nestjs_backend.Frontend.Amounts.{
  pad_end, big_int_from, big_int, parse_amount, to_text_from, to_text, zeros_before, pad_start,
  keep_unless_zero, drop_zeros, with_fraction, format_amount,
}
use earn_defi_nestjs_backend.Frontend.Amounts.Exact.{
  AreDigits, big_int_from-append, take-pad_end, parse_amount-written,
}

AreDigits-append : (s t : Text) → AreDigits s → AreDigits t → AreDigits (s ++ t)
AreDigits-append [] t p q = q
AreDigits-append (c ∷ cs) t (digit, p) q = (digit, AreDigits-append cs t p q)

length-append : (s t : Text) → length (s ++ t) ≡ length s + length t
length-append [] t = omega arith
length-append (c ∷ cs) t = let rest = length-append cs t in omega arith

-- The digits of a number, of which there is one at least.
to_text_from-AreDigits :
    (fuel n : ℕ) → AreDigits (to_text_from fuel n) × (1 ≤ length (to_text_from fuel n))
unfolding to_text_from
to_text_from-AreDigits zero n = ((ground arith, tt), omega arith)
to_text_from-AreDigits (suc fuel) n =
    let (digits, some_digit) = to_text_from-AreDigits fuel (n / 10) in
    let longer = length-append (to_text_from fuel (n / 10)) ((48 + n % 10) ∷ []) in
    elim (Bool-cases (ltb n 10)) [
      | inl one ↦ rw one ((ground arith, tt), omega arith)
      | inr more ↦ rw more (AreDigits-append _ _ digits (ground arith, tt), omega arith)
    ]

big_int-to_text_from : (fuel n : ℕ) → n ≤ fuel → big_int_from 0 (to_text_from fuel n) ≡ n
unfolding to_text_from big_int_from
big_int-to_text_from zero n h = omega arith
big_int-to_text_from (suc fuel) n h = elim (Bool-cases (ltb n 10)) [
  | inl one ↦ rw one (omega arith)
  | inr more ↦
      let less : 10 ≤ n = ground arith in
      let rest = big_int-to_text_from fuel (n / 10) (omega arith) in
      rw more
        (big_int_from-append 0 (to_text_from fuel (n / 10)) ((48 + n % 10) ∷ []) ∙ omega arith)
]

length-to_text_from :
    (fuel n decimals : ℕ)
    → 1 ≤ decimals
    → n < 10 ^ decimals
    → length (to_text_from fuel n) ≤ decimals
unfolding to_text_from
length-to_text_from zero n d h small = h
length-to_text_from (suc fuel) n zero h small = absurd (omega arith)
length-to_text_from (suc fuel) n (suc d) h small = elim (Bool-cases (ltb n 10)) [
  | inl one ↦ rw one (omega arith)
  | inr more ↦
      let less : 10 ≤ n = ground arith in
      let power = pow-suc 10 d in
      let longer = length-append (to_text_from fuel (n / 10)) ((48 + n % 10) ∷ []) in
      rw more (elim (Bool-cases (d == 0)) [
        | inl none_left ↦
            absurd (let e = eq_of_== d 0 none_left in let one = ap (λ k. 10 ^ k) e in omega arith)
        | inr some_left ↦
            let rest = length-to_text_from fuel (n / 10) d (ground arith) (omega arith) in
            omega arith
      ])
]

zeros_before-lem :
    (k : ℕ) (t : Text)
    → (big_int_from 0 (zeros_before k t) ≡ big_int_from 0 t)
      × (length (zeros_before k t) ≡ k + length t)
      × (AreDigits t → AreDigits (zeros_before k t))
unfolding zeros_before big_int_from
zeros_before-lem zero t = (refl, omega arith, λ digits. digits)
zeros_before-lem (suc k) t =
    let (value, longer, digits) = zeros_before-lem k t in
    (value, omega arith, λ h. (refl, digits h))

-- Zeros that were dropped at the end are put back by the padding.
drop_zeros-lem :
    (t : Text)
    → (pad_end (drop_zeros t) (length t) ≡ t)
      × (length (drop_zeros t) ≤ length t)
      × (AreDigits t → AreDigits (drop_zeros t))
unfolding drop_zeros pad_end
drop_zeros-lem [] = (refl, omega arith, λ h. h)
drop_zeros-lem (c ∷ cs) = kept c cs (drop_zeros cs) (drop_zeros-lem cs)
  where
    kept :
        (c : ℕ) (cs dropped : Text)
        → (pad_end dropped (length cs) ≡ cs)
          × (length dropped ≤ length cs)
          × (AreDigits cs → AreDigits dropped)
        → (pad_end (keep_unless_zero c dropped) (suc (length cs)) ≡ c ∷ cs)
          × (length (keep_unless_zero c dropped) ≤ suc (length cs))
          × (AreDigits (c ∷ cs) → AreDigits (keep_unless_zero c dropped))
    kept c cs (d ∷ ds) (back, shorter, digits) =
        (ap (◌∷◌ c) back, omega arith, λ (digit, h). (digit, digits h))
    kept c cs [] (back, shorter, digits) = elim (Bool-cases (c == 48)) [
      | inl zero_digit ↦ rw zero_digit (
        ap (λ k. k ∷ pad_end [] (length cs)) (sym (eq_of_== c 48 zero_digit)) ∙ ap (◌∷◌ c) back,
        omega arith,
        λ h. tt,
      )
      | inr other ↦ rw other (ap (◌∷◌ c) back, omega arith, λ (digit, h). (digit, tt))
    ]

take-all : (n : ℕ) (t : Text) → length t ≤ n → take n t ≡ t
take-all zero [] h = refl
take-all (suc n) [] h = refl
take-all zero (c ∷ cs) h = absurd (omega arith)
take-all (suc n) (c ∷ cs) h = ap (◌∷◌ c) (take-all n cs (omega arith))

parse_amount-with_fraction :
    (w f : Text) (decimals : ℕ)
    → AreDigits w
    → 1 ≤ length w
    → AreDigits f
    → length f ≤ decimals
    → parse_amount (with_fraction w f) decimals
      ≡ some (big_int_from 0 w * 10 ^ decimals + big_int_from 0 (pad_end f decimals))
unfolding big_int
parse_amount-with_fraction [] f d digits some_digit fraction few = absurd (omega arith)
parse_amount-with_fraction (c ∷ cs) [] d digits some_digit fraction few =
    (parse_amount-written c cs 48 [] d digits (refl, tt)).0
    ∙ ap (λ t. some (big_int_from 0 (c ∷ cs) * 10 ^ d + big_int_from 0 t)) (take-pad_end [] d few)
parse_amount-with_fraction (c ∷ cs) (e ∷ es) d digits some_digit fraction few =
    (parse_amount-written c cs e es d digits fraction).1
    ∙ ap (λ t. some (big_int_from 0 (c ∷ cs) * 10 ^ d + big_int_from 0 t))
        (take-pad_end (e ∷ es) d few)

-- An amount that is shown with all its decimals, zeros at its end left out, is read as the same amount
-- when it is typed again, for an asset with at least one decimal.
pub parse_amount-format_amount :
    (value decimals max_fraction_digits : ℕ)
    → 1 ≤ decimals
    → decimals ≤ max_fraction_digits
    → parse_amount (format_amount value decimals max_fraction_digits) decimals ≡ some value
unfolding format_amount to_text
parse_amount-format_amount value decimals max h all =
    let power = 10 ^ decimals in
    let whole = value / power in
    let rest = value % power in
    let small = mod-lt value (one-le-pow decimals 10 (omega arith)) in
    let text = to_text_from rest rest in
    let short = length-to_text_from rest rest decimals h small in
    let padded = pad_start text decimals in
    let (same_value, longer, digits) = zeros_before-lem (decimals - length text) text in
    let long : length padded ≡ decimals = omega arith in
    let (back, shorter, kept_digits) = drop_zeros-lem padded in
    let (whole_digits, some_digit) = to_text_from-AreDigits whole whole in
    rw (take-all max padded (omega arith)) (
      parse_amount-with_fraction (to_text_from whole whole) (drop_zeros padded) decimals
        whole_digits some_digit (kept_digits (digits (to_text_from-AreDigits rest rest).0))
        (omega arith)
      ∙ ap (λ t. some (big_int_from 0 (to_text_from whole whole) * power + big_int_from 0 t))
          (ap (pad_end (drop_zeros padded)) (sym long) ∙ back)
      ∙ ap some (
          let value_of_whole = big_int-to_text_from whole whole (omega arith) in
          let value_of_rest = same_value ∙ big_int-to_text_from rest rest (omega arith) in
          ap (λ k. k * power + big_int_from 0 padded) value_of_whole
          ∙ ap (λ k. whole * power + k) value_of_rest
          ∙ div-add-mod' value power))
