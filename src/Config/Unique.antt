-- ===== src/Config/Unique.antt =====
-- chains.config.ts and aave.config.ts: what the tests for a repeated key are worth to the look-ups.
use earn_defi_nestjs_backend.Base.{
  ℕ, ◌==◌, ◌≡◌, ◌≤◌, ◌⊎◌, ◌∙◌, ap, refl, Bool, true, if◌then◌else◌, Option, none, some, List, [],
  ◌∷◌, ◌++◌, arith, inl, inr, Bool-cases, Option-cases, eq_of_==, ==_refl, find_first, find_many,
  count_where,
}
use earn_defi_nestjs_backend.Schema.Chain.{ChainDefinition}
use earn_defi_nestjs_backend.Monad.{ok}
use earn_defi_nestjs_backend.Protocols.Viem.{get_chain_definition}
use earn_defi_nestjs_backend.Config.{
  ConfigError, loaded, refused, duplicate_key, has_seen, first_repeated, unless_repeated,
  validate_chains, find_all,
}

module _ {A : Type 0} (key : A → ℕ) where
  abbrev has_key : ℕ → A → Bool
  has_key k a = key a == k

  -- A key that was seen before is not there again.
  none_again :
      (k : ℕ) (seen : List ℕ) (xs : List A)
      → first_repeated key seen xs ≡ none
      → has_seen k seen ≡ true
      → find_many (has_key k) xs ≡ []
  unfolding first_repeated has_seen find_many
  none_again k seen [] fresh met = refl
  none_again k seen (x ∷ xs) fresh met = elim (Bool-cases (has_seen (key x) seen)) [
    | inl again ↦ absurd (ground arith)
    | inr new ↦
        let rest = none_again k (key x ∷ seen) xs (ground arith) (ground arith) in
        elim (Bool-cases (key x == k)) [
          | inl same ↦ absurd (ground (arith, eq_of_== (key x) k same))
          | inr other ↦ ground arith
        ]
  ]

  -- Each entry is the only one with its key.
  only_one :
      (seen : List ℕ) (before : List A) (x : A) (after : List A)
      → first_repeated key seen (before ++ x ∷ after) ≡ none
      → find_many (has_key (key x)) (before ++ x ∷ after) ≡ x ∷ []
  unfolding first_repeated has_seen find_many
  only_one seen [] x after fresh = elim (Bool-cases (has_seen (key x) seen)) [
    | inl again ↦ absurd (ground arith)
    | inr new ↦
        let hit = ==_refl (key x) in
        let rest = none_again (key x) (key x ∷ seen) after (ground arith) (ground arith) in
        ground arith
  ]
  only_one seen (b ∷ before) x after fresh = elim (Bool-cases (has_seen (key b) seen)) [
    | inl again ↦ absurd (ground arith)
    | inr new ↦
        let rest = only_one (key b ∷ seen) before x after (ground arith) in
        elim (Bool-cases (key b == key x)) [
          | inr other ↦ ground arith
          | inl same ↦
              let e = eq_of_== (key b) (key x) same in
              let hit = ==_refl (key x) in
              let gone =
                none_again (key x) (key b ∷ seen) (before ++ x ∷ after) (ground arith)
                  (ground arith) in
              absurd (ground arith)
        ]
  ]

  -- A key that is refused was seen before, or is there twice.
  there_again :
      (k : ℕ) (seen : List ℕ) (xs : List A)
      → first_repeated key seen xs ≡ some k
      → ((has_seen k seen ≡ true) × (1 ≤ count_where (has_key k) xs))
        ⊎ (2 ≤ count_where (has_key k) xs)
  unfolding first_repeated has_seen count_where
  there_again k seen [] found = absurd (ground arith)
  there_again k seen (x ∷ xs) found = elim (Bool-cases (has_seen (key x) seen)) [
    | inl again ↦
        let hit = ==_refl (key x) in let same : key x ≡ k = ground arith in inl (ground arith)
    | inr new ↦ elim (there_again k (key x ∷ seen) xs (ground arith)) [
      | inr twice ↦ inr (ground arith)
      | inl (met, once) ↦ elim (Bool-cases (key x == k)) [
        | inl same ↦ inr (ground arith)
        | inr other ↦ elim (Bool-cases (k == key x)) [
          | inl same ↦ absurd (ground (arith, eq_of_== k (key x) same, ==_refl (key x)))
          | inr apart ↦ inl (ground arith)
        ]
      ]
    ]
  ]

abbrev first_of : {A : Type 0} → List A → Option A
first_of [] = none
first_of (x ∷ xs) = some x

module _ {A : Type 0} (p : A → Bool) where
  find_first-find_many : (xs : List A) → find_first p xs ≡ first_of (find_many p xs)
  unfolding find_first find_many
  find_first-find_many [] = refl
  find_first-find_many (x ∷ xs) = ground (arith, find_first-find_many xs)

  find_many-swap :
      (q : A → Bool) (xs : List A) → find_many p (find_many q xs) ≡ find_many q (find_many p xs)
  unfolding find_many
  find_many-swap q [] = refl
  find_many-swap q (x ∷ xs) = elim (Bool-cases (p x)) [
    | inl fits ↦ elim (Bool-cases (q x)) [
      | inl both ↦ ground (arith, find_many-swap q xs)
      | inr not_q ↦ ground (arith, find_many-swap q xs)
    ]
    | inr misses ↦ elim (Bool-cases (q x)) [
      | inl only_q ↦ ground (arith, find_many-swap q xs)
      | inr neither ↦ ground (arith, find_many-swap q xs)
    ]
  ]

-- Of the chains that a configuration was accepted with, each is the one that its id finds: the chains
-- service lists it alone, or nothing if it is disabled, and the Aave client reads it.
pub accepted_chains :
    (before : List ChainDefinition) (c : ChainDefinition) (after : List ChainDefinition)
    → validate_chains (before ++ c ∷ after) ≡ loaded (before ++ c ∷ after)
    → (find_all (before ++ c ∷ after) (some c.chain_id) ≡ (if c.is_enabled then c ∷ [] else []))
      × (get_chain_definition (before ++ c ∷ after) c.chain_id ≡ ok c)
unfolding validate_chains find_all get_chain_definition find_many
accepted_chains before c after accepted =
    let chains = before ++ c ∷ after in
    let id : ChainDefinition → ℕ = λ d. d.chain_id in
    let one = only_one id [] before c after (unrepeated (first_repeated id [] chains) accepted) in
    (
      find_many-swap (has_key id c.chain_id) (λ d. d.is_enabled) chains
          ∙ ap (find_many (λ d. d.is_enabled)) one,
      rw (find_first-find_many (has_key id c.chain_id) chains ∙ ap first_of one) refl,
    )
  where
    unrepeated :
        {A : Type 0} {xs : List A} (o : Option ℕ) → unless_repeated o xs ≡ loaded xs → o ≡ none
    unrepeated none h = refl
    unrepeated (some k) h = absurd (ground arith)

-- A configuration is refused for a chain id that it has twice.
refused_chains :
    (chains : List ChainDefinition) (e : ConfigError)
    → validate_chains chains ≡ refused e
    → (k : ℕ) × (e ≡ duplicate_key k)
      × (2 ≤ count_where (λ (c : ChainDefinition). c.chain_id == k) chains)
unfolding validate_chains has_seen
refused_chains chains e h =
    elim (Option-cases (first_repeated (λ (c : ChainDefinition). c.chain_id) [] chains)) [
      | inl accepted ↦ absurd (ground arith)
      | inr (k, found) ↦
          elim (there_again (λ (c : ChainDefinition). c.chain_id) k [] chains found) [
            | inl (met, once) ↦ absurd (ground arith)
            | inr twice ↦ (k, ground arith, twice)
          ]
    ]
