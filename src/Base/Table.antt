-- ===== src/Base/Table.antt =====
-- A table is the list of its rows, newest first. These are the queries of the database client:
-- `findFirst` and `findUnique`, `updateMany` and `update`, `count`, `take`.
use Prim.Native.Nat.{ℕ, zero, suc, ◌<◌}
use mathlib.Core.Path.{◌≡◌, refl, ap, subst}
use mathlib.Core.Logic.{inl, inr}
use mathlib.Core.Bool.{Bool, true, false}
use mathlib.Core.Option
use mathlib.Core.Option.{Option, none, some}
use mathlib.Core.List.{List, [], ◌∷◌}
use native.Mathlib.Omega.{arith}
use earn_defi_nestjs_backend.Base.Int.{if◌then◌else◌, Bool-cases}

abbrev pub is_some {ℓ} : {A : Type ℓ} → Option A → Bool
is_some none = false
is_some (some a) = true

module _ {ℓ} {A : Type ℓ} where
  abbrev pub length : List A → ℕ
  length [] = 0
  length (x ∷ xs) = suc (length xs)

  abbrev pub take : ℕ → List A → List A
  take zero xs = []
  take (suc n) [] = []
  take (suc n) (x ∷ xs) = x ∷ take n xs

  abbrev pub drop : ℕ → List A → List A
  drop zero xs = xs
  drop (suc n) [] = []
  drop (suc n) (x ∷ xs) = drop n xs

  unfoldable pub find_first : (A → Bool) → List A → Option A
  find_first p [] = none
  find_first p (x ∷ xs) = if p x then some x else find_first p xs

  unfoldable pub find_many : (A → Bool) → List A → List A
  find_many p [] = []
  find_many p (x ∷ xs) = let rest = find_many p xs in if p x then x ∷ rest else rest

  unfoldable pub update_where : (A → Bool) → (A → A) → List A → List A
  update_where p f [] = []
  update_where p f (x ∷ xs) = (if p x then f x else x) ∷ update_where p f xs

  unfoldable pub delete_where : (A → Bool) → List A → List A
  delete_where p [] = []
  delete_where p (x ∷ xs) = let rest = delete_where p xs in if p x then rest else x ∷ rest

  unfoldable pub count_where : (A → Bool) → List A → ℕ
  count_where p [] = 0
  count_where p (x ∷ xs) = let rest = count_where p xs in if p x then suc rest else rest

  abbrev pub All {κ} : (A → Type κ) → List A → Type κ
  All P [] = Unit
  All P (x ∷ xs) = P x × All P xs

-- What each query finds, and what a write leaves to be found.
module _ {ℓ} {A : Type ℓ} where
  pub find_first-holds :
      (p : A → Bool) (xs : List A) {a : A} → find_first p xs ≡ some a → p a ≡ true
  unfolding find_first
  find_first-holds p [] h = cc
  find_first-holds p (x ∷ xs) {a} h = ground (arith, find_first-holds p xs {a = a})

  pub All-find_first {κ} :
      (P : A → Type κ) (p : A → Bool) (xs : List A) (a : A)
      → All P xs
      → find_first p xs ≡ some a
      → P a
  unfolding find_first
  All-find_first P p [] a all h = cc
  All-find_first P p (x ∷ xs) a all h = elim (Bool-cases (p x)) [
    | inl hit ↦ let same : x ≡ a = ground arith in subst P same all.0
    | inr miss ↦ All-find_first P p xs a all.1 (rw miss at h)
  ]

  pub All-update_where {κ} :
      (P : A → Type κ) (p : A → Bool) (f : A → A) (xs : List A)
      → ((a : A) → p a ≡ true → P a → P (f a))
      → All P xs
      → All P (update_where p f xs)
  unfolding update_where
  All-update_where P p f [] keep all = tt
  All-update_where P p f (x ∷ xs) keep all = elim (Bool-cases (p x)) [
    | inl hit ↦ rw hit (keep x hit all.0, All-update_where P p f xs keep all.1)
    | inr miss ↦ rw miss (all.0, All-update_where P p f xs keep all.1)
  ]

  pub find_first-update_self :
      (p : A → Bool) (f : A → A) (xs : List A)
      → ((a : A) → p a ≡ true → p (f a) ≡ true)
      → find_first p (update_where p f xs) ≡ Option.map f (find_first p xs)
  unfolding find_first update_where
  find_first-update_self p f [] keep = refl
  find_first-update_self p f (x ∷ xs) keep = elim (Bool-cases (p x)) [
    | inl hit ↦ rw (hit, keep x hit)
    | inr miss ↦ rw (miss, miss) (find_first-update_self p f xs keep)
  ]

  -- A write that no row fits changes nothing.
  pub update_where-none :
      (p : A → Bool) (f : A → A) (xs : List A) → find_first p xs ≡ none → update_where p f xs ≡ xs
  unfolding find_first update_where
  update_where-none p f [] h = refl
  update_where-none p f (x ∷ xs) h = ground (arith, update_where-none p f xs)

  -- A write does not touch what a test finds that no written row fits, before and after.
  pub find_first-update_other :
      (q p : A → Bool) (f : A → A) (xs : List A)
      → ((a : A) → p a ≡ true → (q a ≡ false) × (q (f a) ≡ false))
      → find_first q (update_where p f xs) ≡ find_first q xs
  unfolding find_first update_where
  find_first-update_other q p f [] other = refl
  find_first-update_other q p f (x ∷ xs) other = elim (Bool-cases (p x)) [
    | inl hit ↦ ground (arith, other x hit, find_first-update_other q p f xs other)
    | inr miss ↦ ground (arith, find_first-update_other q p f xs other)
  ]

  pub length-update_where :
      (p : A → Bool) (f : A → A) (xs : List A) → length (update_where p f xs) ≡ length xs
  unfolding update_where
  length-update_where p f [] = refl
  length-update_where p f (x ∷ xs) = ap suc (length-update_where p f xs)

  pub All-find_many {κ} :
      (P : A → Type κ) (p : A → Bool) (xs : List A)
      → All P xs
      → All (λ a. P a × (p a ≡ true)) (find_many p xs)
  unfolding find_many
  All-find_many P p [] all = tt
  All-find_many P p (x ∷ xs) all = elim (Bool-cases (p x)) [
    | inl hit ↦ rw hit ((all.0, hit), All-find_many P p xs all.1)
    | inr miss ↦ rw miss (All-find_many P p xs all.1)
  ]

  pub All-take {κ} : (P : A → Type κ) (n : ℕ) (xs : List A) → All P xs → All P (take n xs)
  All-take P zero xs all = tt
  All-take P (suc n) [] all = tt
  All-take P (suc n) (x ∷ xs) all = (all.0, All-take P n xs all.1)

  pub count_where-none :
      (p : A → Bool) (xs : List A) → find_first p xs ≡ none → count_where p xs ≡ 0
  unfolding find_first count_where
  count_where-none p [] h = refl
  count_where-none p (x ∷ xs) h = ground (arith, count_where-none p xs)

  pub count_where_pos :
      (p : A → Bool) (xs : List A) (a : A) → find_first p xs ≡ some a → 0 < count_where p xs
  unfolding find_first count_where
  count_where_pos p [] a h = cc
  count_where_pos p (x ∷ xs) a h = ground (arith, count_where_pos p xs a)

  -- After a write that takes every row out of its own test, no row fits the test.
  pub find_first-update_gone :
      (p : A → Bool) (f : A → A) (xs : List A)
      → ((a : A) → p (f a) ≡ false)
      → find_first p (update_where p f xs) ≡ none
  unfolding find_first update_where
  find_first-update_gone p f [] gone = refl
  find_first-update_gone p f (x ∷ xs) gone =
      ground (arith, gone x, find_first-update_gone p f xs gone)

  -- A search for a key that no write changes finds the row as the write leaves it.
  pub find_first-update_keyed :
      (q p : A → Bool) (f : A → A) (xs : List A) (t : A)
      → ((a : A) → q (f a) ≡ q a)
      → find_first q xs ≡ some t
      → find_first q (update_where p f xs) ≡ some (if p t then f t else t)
  unfolding find_first update_where
  find_first-update_keyed q p f [] t keyed h = cc
  find_first-update_keyed q p f (x ∷ xs) t keyed h = elim (Bool-cases (q x)) [
    | inl hit ↦ let same : x ≡ t = ground arith in rw (← same) (ground (arith, keyed x))
    | inr miss ↦ ground (arith, keyed x, find_first-update_keyed q p f xs t keyed (rw miss at h))
  ]

  -- A write that fits only rows with a given key, and keeps the key, is seen by a search for it.
  pub find_first-update_within :
      (q p : A → Bool) (f : A → A) (xs : List A) (t : A)
      → ((a : A) → p a ≡ true → (q a ≡ true) × (q (f a) ≡ true))
      → find_first q xs ≡ some t
      → find_first q (update_where p f xs) ≡ some (if p t then f t else t)
  unfolding find_first update_where
  find_first-update_within q p f [] t within h = cc
  find_first-update_within q p f (x ∷ xs) t within h = elim (Bool-cases (q x)) [
    | inl hit ↦ let same : x ≡ t = ground arith in rw (← same) (ground (arith, within x))
    | inr miss ↦ ground (arith, within x, find_first-update_within q p f xs t within (rw miss at h))
  ]

module _ {ℓ κ} {A : Type ℓ} where
  pub All-map {μ} :
      (P : A → Type κ) (Q : A → Type μ) (xs : List A) → ((a : A) → P a → Q a) → All P xs → All Q xs
  All-map P Q [] f all = tt
  All-map P Q (x ∷ xs) f all = (f x all.0, All-map P Q xs f all.1)

  pub All-zip {μ} :
      (P : A → Type κ) (Q : A → Type μ) (xs : List A)
      → All P xs
      → All Q xs
      → All (λ a. P a × Q a) xs
  All-zip P Q [] p q = tt
  All-zip P Q (x ∷ xs) p q = ((p.0, q.0), All-zip P Q xs p.1 q.1)
