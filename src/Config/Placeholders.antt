-- ===== src/Config/Placeholders.antt =====
-- config-json.util.ts: `interpolateString` from one position to the next.
use earn_defi_nestjs_backend.Base.{
  ℕ, zero, suc, ◌==◌, ◌≡◌, ◌≢◌, ◌⊎◌, ◌≤◌, ◌<◌, ◌∙◌, ap, sym, refl, All, eq_of_==, true, ◌&&◌,
  Option, none, some, [], ◌∷◌, ◌++◌, arith, inl, inr, Bool-cases, Text, length, List,
}
use earn_defi_nestjs_backend.Config.{
  Loaded, loaded, refused, missing_variable, Variables, is_name_char, take_name, closed,
  placeholder, prepend, replacement, replace_at, replace_from, interpolate_string,
}

take_name-length : (t : Text) → length (take_name t).1 ≤ length t
unfolding take_name
take_name-length [] = omega arith
take_name-length (c ∷ cs) = elim (Bool-cases (is_name_char c)) [
  | inl name ↦ ground (arith, take_name-length cs)
  | inr stop ↦ ground arith
]

closed-length :
    (p : Text × Text) (name rest : Text) → closed p ≡ some (name, rest) → length rest < length p.1
closed-length ([], t) name rest h = absurd (ground arith)
closed-length (c ∷ cs, []) name rest h = absurd (ground arith)
closed-length (c ∷ cs, b ∷ bs) name rest h = elim (Bool-cases (b == 125)) [
  | inl brace ↦ let same : bs ≡ rest = ground arith in rw same (omega arith)
  | inr other ↦ absurd (ground arith)
]

-- What comes after a match is shorter than the text.
placeholder-length :
    (t name rest : Text) → placeholder t ≡ some (name, rest) → length rest < length t
unfolding placeholder
placeholder-length [] name rest h = absurd (ground arith)
placeholder-length (d ∷ []) name rest h = absurd (ground arith)
placeholder-length (d ∷ b ∷ cs) name rest h = elim (Bool-cases (d == 36 && b == 123)) [
  | inl opens ↦
      let inside = closed-length (take_name cs) name rest (ground arith) in
      let before = take_name-length cs in omega arith
  | inr other ↦ absurd (ground arith)
]

module _ (variables : Variables) where
  -- A position asks for what comes after it alone.
  replace_at-shorter :
      (next next' : Text → Loaded Text) (c : ℕ) (cs : Text) (o : Option (Text × Text))
      → placeholder (c ∷ cs) ≡ o
      → ((t : Text) → length t ≤ length cs → next t ≡ next' t)
      → replace_at variables next c cs o ≡ replace_at variables next' c cs o
  replace_at-shorter next next' c cs none e same = ap (prepend (c ∷ [])) (same cs (omega arith))
  replace_at-shorter next next' c cs (some (name, rest)) e same =
      let shorter = placeholder-length (c ∷ cs) name rest e in
      ap (replacement name (variables name)) (same rest (omega arith))

  -- Fuel beyond the length of the text changes nothing.
  enough_fuel :
      (n m : ℕ) (t : Text)
      → length t ≤ n
      → length t ≤ m
      → replace_from variables n t ≡ replace_from variables m t
  unfolding replace_from
  enough_fuel zero zero t h k = refl
  enough_fuel zero (suc m) [] h k = refl
  enough_fuel (suc n) zero [] h k = refl
  enough_fuel (suc n) (suc m) [] h k = refl
  enough_fuel zero (suc m) (c ∷ cs) h k = absurd (omega arith)
  enough_fuel (suc n) zero (c ∷ cs) h k = absurd (omega arith)
  enough_fuel (suc n) (suc m) (c ∷ cs) h k =
      replace_at-shorter _ _ c cs (placeholder (c ∷ cs)) refl
        λ t short. enough_fuel n m t (omega arith) (omega arith)

  one_step :
      (c : ℕ) (cs : Text)
      → interpolate_string variables (c ∷ cs)
        ≡ replace_at variables (interpolate_string variables) c cs (placeholder (c ∷ cs))
  unfolding interpolate_string replace_from
  one_step c cs =
      replace_at-shorter _ _ c cs (placeholder (c ∷ cs)) refl
        λ t short. enough_fuel (length cs) (length t) t short (omega arith)

take_name-stops :
    (name post : Text)
    → All (λ c. is_name_char c ≡ true) name
    → take_name (name ++ 125 ∷ post) ≡ (name, 125 ∷ post)
unfolding take_name
take_name-stops [] post named = refl
take_name-stops (c ∷ cs) post (is_name, named) = ground (arith, take_name-stops cs post named)

prepend-nil : (r : Loaded Text) → prepend [] r ≡ r
prepend-nil (loaded t) = refl
prepend-nil (refused e) = refl

prepend-prepend :
    (c : ℕ) (t : Text) (r : Loaded Text) → prepend (c ∷ []) (prepend t r) ≡ prepend (c ∷ t) r
prepend-prepend c t (loaded u) = refl
prepend-prepend c t (refused e) = refl

plain_char : (b : ℕ) (t : Text) → b ≢ 36 → placeholder (b ∷ t) ≡ none
unfolding placeholder
plain_char b [] other = refl
plain_char b (d ∷ ds) other = elim (Bool-cases (b == 36)) [
  | inl same ↦ absurd (other (eq_of_== b 36 same))
  | inr apart ↦ ground arith
]

-- The first placeholder of a text, with no dollar before it, is replaced, and the rest is treated in
-- the same way.
interpolate_string_first :
    (variables : Variables) (before : Text) (c : ℕ) (cs post : Text)
    → All (λ d. d ≢ 36) before
    → All (λ d. is_name_char d ≡ true) (c ∷ cs)
    → interpolate_string variables (before ++ 36 ∷ 123 ∷ (c ∷ cs) ++ 125 ∷ post)
      ≡ prepend before
          (replacement (c ∷ cs) (variables (c ∷ cs)) (interpolate_string variables post))
unfolding placeholder
interpolate_string_first variables [] c cs post plain named =
    let found : placeholder (36 ∷ 123 ∷ (c ∷ cs) ++ 125 ∷ post) ≡ some (c ∷ cs, post) =
      rw (take_name-stops (c ∷ cs) post named) refl in
    one_step variables 36 _ ∙ rw found (sym (prepend-nil _))
interpolate_string_first variables (b ∷ before) c cs post (other, plain) named =
    let rest = interpolate_string_first variables before c cs post plain named in
    one_step variables b _
    ∙ rw (plain_char b (before ++ 36 ∷ 123 ∷ (c ∷ cs) ++ 125 ∷ post) other)
        (ap (prepend (b ∷ [])) rest ∙ prepend-prepend b before _)

-- A text in its parts: a character other than the dollar, a dollar with a character that begins no
-- placeholder, and a placeholder with the first character of its name and the others.
pub data Part : Type 0 where
  plain : ℕ → Part
  dollar : ℕ → Part
  variable : ℕ → Text → Part

abbrev pub render : List Part → Text
render [] = []
render (plain c ∷ ps) = c ∷ render ps
render (dollar c ∷ ps) = 36 ∷ c ∷ render ps
render (variable c cs ∷ ps) = 36 ∷ 123 ∷ (c ∷ cs) ++ 125 ∷ render ps

-- A capital letter, a digit or the underscore.
abbrev pub IsNameCharacter : ℕ → Type 0
IsNameCharacter c = ((65 ≤ c) × (c ≤ 90)) ⊎ (((48 ≤ c) × (c ≤ 57)) ⊎ (c ≡ 95))

abbrev pub IsPart : Part → Type 0
IsPart (plain c) = c ≢ 36
IsPart (dollar c) = (c ≢ 36) × (c ≢ 123)
IsPart (variable c cs) = All IsNameCharacter (c ∷ cs)

abbrev pub before : Text → Loaded Text → Loaded Text
before t (loaded rest) = loaded (t ++ rest)
before t (refused e) = refused e

abbrev pub value_before : Text → Option Text → Loaded Text → Loaded Text
value_before name none rest = refused (missing_variable name)
value_before name (some value) rest = before value rest

-- Each placeholder is the value of its variable, the first missing one is the error of the whole, and
-- all else is as it was.
abbrev pub fill : Variables → List Part → Loaded Text
fill variables [] = loaded []
fill variables (plain c ∷ ps) = before (c ∷ []) (fill variables ps)
fill variables (dollar c ∷ ps) = before (36 ∷ c ∷ []) (fill variables ps)
fill variables (variable c cs ∷ ps) = value_before (c ∷ cs) (variables (c ∷ cs)) (fill variables ps)

prepend_lem : (t : Text) (r : Loaded Text) → prepend t r ≡ before t r
prepend_lem t (loaded rest) = refl
prepend_lem t (refused e) = refl

replacement_lem :
    (name : Text) (o : Option Text) (r : Loaded Text) → replacement name o r ≡ value_before name o r
replacement_lem name none r = refl
replacement_lem name (some value) r = prepend_lem value r

is_name_char-IsNameCharacter : (c : ℕ) → IsNameCharacter c → is_name_char c ≡ true
is_name_char-IsNameCharacter c (inl capital) = ground arith
is_name_char-IsNameCharacter c (inr (inl digit)) = ground arith
is_name_char-IsNameCharacter c (inr (inr underscore)) = ground arith

all_names : (t : Text) → All IsNameCharacter t → All (λ c. is_name_char c ≡ true) t
all_names [] h = tt
all_names (c ∷ cs) (named, h) = (is_name_char-IsNameCharacter c named, all_names cs h)

lone_dollar : (c : ℕ) (t : Text) → c ≢ 123 → placeholder (36 ∷ c ∷ t) ≡ none
unfolding placeholder
lone_dollar c t other = elim (Bool-cases (c == 123)) [
  | inl same ↦ absurd (other (eq_of_== c 123 same))
  | inr apart ↦ ground arith
]

-- Of a text of any length in which every dollar begins a placeholder, or stands before a character
-- that is neither a dollar nor an opening brace, the scan to its end replaces each placeholder by the
-- value of its variable, without reading that value again, and keeps the rest, a text without
-- placeholders included; the first variable that is missing is its error.
pub interpolate_string-fill :
    (variables : Variables) (parts : List Part)
    → All IsPart parts
    → interpolate_string variables (render parts) ≡ fill variables parts
unfolding interpolate_string replace_from
interpolate_string-fill variables [] h = refl
interpolate_string-fill variables (plain c ∷ ps) (other, h) =
    one_step variables c (render ps)
    ∙ rw (plain_char c (render ps) other)
        (ap (prepend (c ∷ [])) (interpolate_string-fill variables ps h) ∙ prepend_lem (c ∷ []) _)
interpolate_string-fill variables (dollar c ∷ ps) (other, h) =
    one_step variables 36 (c ∷ render ps)
    ∙ rw (lone_dollar c (render ps) other.1) (
        ap (prepend (36 ∷ [])) (
          one_step variables c (render ps)
          ∙ rw (plain_char c (render ps) other.0)
              (ap (prepend (c ∷ [])) (interpolate_string-fill variables ps h)))
        ∙ prepend-prepend 36 (c ∷ []) (fill variables ps)
        ∙ prepend_lem (36 ∷ c ∷ []) _)
interpolate_string-fill variables (variable c cs ∷ ps) (named, h) =
    interpolate_string_first variables [] c cs (render ps) tt (all_names (c ∷ cs) named)
    ∙ prepend-nil _
    ∙ ap (replacement (c ∷ cs) (variables (c ∷ cs))) (interpolate_string-fill variables ps h)
    ∙ replacement_lem (c ∷ cs) (variables (c ∷ cs)) (fill variables ps)
