-- ===== src/Queries/Worth.antt =====
-- earn-positions.service.ts: the value that a client is shown of a position whose shares are booked
-- one for each unit.
use earn_defi_nestjs_backend.Base.{
  ℕ, ◌+◌, ◌*◌, ◌/◌, ◌≡◌, refl, ==_refl, arith, none, some, pos, negsuc, ℤ, ◌≤ℤ◌, String, subst, ap,
  ◌∙◌, map, find_many,
}
use earn_defi_nestjs_backend.Schema.Rows.{Db, Position, Vault}
use earn_defi_nestjs_backend.Schema.Chain.{ProtocolVault}
use earn_defi_nestjs_backend.Monad.{ok}
use earn_defi_nestjs_backend.Monad.Triple.{Post}
use earn_defi_nestjs_backend.Env.{Env}
use earn_defi_nestjs_backend.Positions.Amounts.{IsBacked}
use earn_defi_nestjs_backend.Positions.Service as Positions
use earn_defi_nestjs_backend.Transactions.Service as Transactions
use earn_defi_nestjs_backend.Transactions.Repository as Repository
use earn_defi_nestjs_backend.Protocols.Viem.{Viem, ray}
use earn_defi_nestjs_backend.Books.{Books}
use earn_defi_nestjs_backend.Books.Plan.{IsBackedPair, find_backed}
use earn_defi_nestjs_backend.Queries.Value.{compute_current_value}
use earn_defi_nestjs_backend.Queries.Transactions.{map_transactions}
use earn_defi_nestjs_backend.Transactions.Service.{TransactionRecord}
use earn_defi_nestjs_backend.Queries.Positions.{
  PositionDetailResponse, with_price, slug_or, to_response, get_position,
}

-- The growth of an index beyond one ray is the growth of what it multiplies.
grown_value : (n growth : ℕ) → n * (ray + growth) / ray ≡ n + n * growth / ray
grown_value n growth =
    let spread : n * (ray + growth) ≡ n * ray + n * growth = grind arith in rw spread (omega arith)

found-IsBacked :
    (id : ℕ) (db : Db) (p : Position) (v : Vault)
    → Books none db
    → Positions.find_by_id_with_vault id db ≡ (ok (some (p, v)), db)
    → IsBacked p
found-IsBacked id db p v books found =
    (subst (Post (λ o db'. IsBackedPair id o × Books none db') (Books none)) found
      ((find_backed id).apply db books)).0.1

non_negative : (z : ℤ) → pos 0 ≤ℤ z → (n : ℕ) × (z ≡ pos n)
non_negative (pos n) le = (n, refl)
non_negative (negsuc n) le = absurd (ground arith)

-- The value of `n` shares at the text of an index.
value_at :
    (viem : Viem) (n growth decimals : ℕ) (price : String)
    → price ≡ viem.format_units (ray + growth) 27
    → compute_current_value viem (pos n) price decimals decimals ≡ pos (n + n * growth / ray)
unfolding compute_current_value
value_at viem n growth decimals price is_index =
    let grown = grown_value n growth in
    rw (is_index, viem.parse_units-format_units (ray + growth) 27, ==_refl decimals) (ground arith)

-- Where the books hold, the position is found and is the user's, and its vault is found with the
-- text of a liquidity index of at least one ray as its share price, the user is shown what was
-- deposited, as many shares, and as their value that amount and the growth of the index beyond one
-- ray on the whole of it, rounded down, whatever the time at which the position was made.
pub get_position_lem :
    (env : Env) (viem : Viem) (user_id position_id growth : ℕ) (p : Position) (v : Vault)
    (vault : ProtocolVault) (db : Db)
    → Books none db
    → Positions.find_by_id_with_vault position_id db ≡ (ok (some (p, v)), db)
    → p.user_id ≡ user_id
    → env.get_vault v.slug (some v.chain_id) ≡ ok vault
    → vault.share_price ≡ viem.format_units (ray + growth) 27
    → (d : PositionDetailResponse) × (n : ℕ) × (get_position env viem user_id position_id db
        ≡ (ok d, db))
      × (d.position.deposited_amount ≡ pos n)
      × (d.position.shares ≡ pos n)
      × (d.position.current_value ≡ pos (n + n * growth / ray))
unfolding get_position to_response Transactions.find_by_position_id Repository.find_by_position_id
get_position_lem env viem user_id position_id growth p v vault db books found own listed price =
    let (owed, deposited, current) = found-IsBacked position_id db p v books found in
    let (n, many) = non_negative p.shares owed in
    let value = value_at viem n growth v.asset_decimals vault.share_price price in
    let base = with_price viem (p, v) vault in
    let d : PositionDetailResponse = record {
      position = base;
      transactions = map_transactions env.config (
          map (λ (t : TransactionRecord). record t { vault_slug = slug_or v.slug t.vault_slug })
            (map Transactions.to_record
              (find_many (λ t. Repository.is_just position_id t.position_id) db.transactions)));
    } in
    (
      d,
      n,
      ground (arith, ==_refl user_id),
      deposited ∙ many,
      many,
      ap (λ z. compute_current_value viem z vault.share_price v.asset_decimals v.asset_decimals)
            many
          ∙ value,
    )
