-- ===== src/Wallets/Twice.antt =====
-- wallets/wallets.service.ts: two creations of a primary wallet for one user that meet.
use earn_defi_nestjs_backend.Base.{
  ℕ, ◌+◌, ◌==◌, ◌≡◌, refl, true, false, none, some, List, [], ◌∷◌, arith, ==_refl, find_first,
  update_where,
}
use earn_defi_nestjs_backend.Schema.Rows.{Db, Wallet}
use earn_defi_nestjs_backend.Monad.{Result, ok, log_audit}
use earn_defi_nestjs_backend.Wallets.{
  Provider, CreateWalletDto, at_clear, at_privy_user, at_wallet, Others, is_primary_of,
  set_secondary, clear_primary_wallet, resolve_primary, given_chain, new_wallet, has_address,
  insert_wallet, provision_wallet, create_wallet,
}
use earn_defi_nestjs_backend.Wallets.Primary.{primaries, cleared, inserted, readied}

-- No other request, and one that runs as a whole while the provider makes the wallet.
abbrev pub alone : Others
alone point db = db

abbrev pub while_made : {A : Type 0} → (Db → Result A × Db) → Others
while_made second at_wallet db = (second db).1
while_made second at_clear db = db
while_made second at_privy_user db = db

-- The state that the new row is written into.
abbrev reached : Others → ℕ → Db → Db
reached others user_id db =
    others at_wallet (others at_privy_user (readied user_id true (others at_clear db)))

created :
    (provider : Provider) (others : Others) (default_chain_id user_id : ℕ) (dto : CreateWalletDto)
    (privy : ℕ) (made : ℕ × ℕ × ℕ) (db : Db)
    → dto.is_primary ≡ some true
    → provider.ensure_privy_user_id user_id ≡ ok privy
    → provider.create_wallet user_id (given_chain dto.chain_id default_chain_id) privy ≡ ok made
    → find_first (has_address made) (reached others user_id db).wallets ≡ none
    → let (r, db') = create_wallet provider others default_chain_id user_id dto db in
      (r ≡ ok (new_wallet user_id made true (reached others user_id db)))
      × (db'.wallets
          ≡ new_wallet user_id made true (reached others user_id db)
            ∷ (reached others user_id db).wallets)
unfolding create_wallet resolve_primary clear_primary_wallet provision_wallet insert_wallet
    log_audit
created provider others default_chain_id user_id dto privy made db asked known makes free =
    (ground arith, ground arith)

still_free :
    (user_id : ℕ) (made : ℕ × ℕ × ℕ) (ws : List Wallet)
    → find_first (has_address made) ws ≡ none
    → find_first (has_address made) (update_where (is_primary_of user_id) set_secondary ws) ≡ none
unfolding find_first update_where
still_free user_id made [] free = refl
still_free user_id (address, chain_id, id) (w ∷ ws) free =
    ground (arith, still_free user_id (address, chain_id, id) ws)

-- The addresses of two new rows differ.
free_beside :
    (user_id address address' chain_id chain_id' id id' : ℕ) (before : Db)
    → (address' == address) ≡ false
    → find_first (has_address (address, chain_id, id)) before.wallets ≡ none
    → find_first
        (has_address (address, chain_id, id))
        (new_wallet user_id (address', chain_id', id') true before ∷ before.wallets)
      ≡ none
unfolding find_first
free_beside user_id address address' chain_id chain_id' id id' before differ free = ground arith

-- One more primary wallet of the user.
one_more :
    (user_id : ℕ) (made : ℕ × ℕ × ℕ) (before after : Db)
    → after.wallets ≡ new_wallet user_id made true before ∷ before.wallets
    → primaries user_id after ≡ 1 + primaries user_id before
one_more user_id made before after rows =
    let n = inserted user_id user_id made true before in rw rows (ground (arith, ==_refl user_id))

-- Two creations of a primary wallet for one user, the second of which runs as a whole while the
-- provider makes the wallet of the first, at addresses that differ and that no row has on their
-- chains: both return their wallets, and the user has two primary wallets.
pub create_wallet_twice :
    (provider provider' : Provider) (default_chain_id user_id : ℕ) (dto dto' : CreateWalletDto)
    (privy privy' address address' chain_id chain_id' id id' : ℕ) (db : Db)
    → dto.is_primary ≡ some true
    → dto'.is_primary ≡ some true
    → provider.ensure_privy_user_id user_id ≡ ok privy
    → provider'.ensure_privy_user_id user_id ≡ ok privy'
    → provider.create_wallet user_id (given_chain dto.chain_id default_chain_id) privy
      ≡ ok (address, chain_id, id)
    → provider'.create_wallet user_id (given_chain dto'.chain_id default_chain_id) privy'
      ≡ ok (address', chain_id', id')
    → (address' == address) ≡ false
    → find_first (has_address (address, chain_id, id)) db.wallets ≡ none
    → find_first (has_address (address', chain_id', id')) db.wallets ≡ none
    → let second = create_wallet provider' alone default_chain_id user_id dto' in
      let (r, db') = create_wallet provider (while_made second) default_chain_id user_id dto db in
      let before = readied user_id true db in
      ((w : Wallet) × (r ≡ ok w))
      × ((w : Wallet) × ((second before).0 ≡ ok w))
      × (primaries user_id db' ≡ 2)
create_wallet_twice provider provider' default_chain_id user_id dto dto' privy privy' address
      address' chain_id chain_id' id id' db asked asked' known known' makes makes' differ free
      free' =
    let before = readied user_id true db in
    let made' : ℕ × ℕ × ℕ = (address', chain_id', id') in
    let second = create_wallet provider' alone default_chain_id user_id dto' in
    let free_before' = still_free user_id made' db.wallets free' in
    let free_before = still_free user_id (address, chain_id, id) db.wallets free in
    let (returned', rows') =
      created provider' alone default_chain_id user_id dto' privy' made' before asked' known' makes'
        (still_free user_id made' before.wallets free_before') in
    let ready = readied user_id true before in
    let met = (second before).1 in
    let (returned, rows) =
      created provider (while_made second) default_chain_id user_id dto privy
        (address, chain_id, id) db asked known makes
        (rw rows' (
          free_beside user_id address address' chain_id chain_id' id id' ready differ
            (still_free user_id (address, chain_id, id) before.wallets free_before))) in
    let none_before = cleared user_id before.wallets in
    let one = one_more user_id made' ready met rows' in
    let two =
      one_more user_id (address, chain_id, id) met
        (create_wallet provider (while_made second) default_chain_id user_id dto db).1 rows in
    ((_, returned), (_, returned'), ground arith)
