-- ===== src/Frontend/Wallets/Created.antt =====
-- frontend/src/context/WalletContext.tsx: what is shown before, while and after a wallet is made.
use earn_defi_nestjs_backend.Base.{
  ℕ, ◌≡◌, refl, ap, true, false, not, none, some, List, [], ◌∷◌, ◌++◌, map, All, ==_refl, find_many,
}
use earn_defi_nestjs_backend.Frontend.DepositFlow.{Settled, fulfilled, rejected}
use earn_defi_nestjs_backend.Frontend.Wallets.{
  pending, same_id, ClientWallet, WalletState, refresh, optimistic, swap, create_ended,
  create_wallet, resolve_create_chain_id,
}

abbrev pub IsSettled : Settled ClientWallet → WalletState → WalletState → Type 0
IsSettled (fulfilled wallet) before after =
    (after.wallets ≡ before.wallets ++ wallet ∷ []) × (after.error ≡ none)
IsSettled (rejected message) before after =
    (after.wallets ≡ before.wallets) × (after.error ≡ some message)

abbrev pub AreOthers : ℕ → List ClientWallet → Type 0
AreOthers now wallets =
    All (λ (w : ClientWallet). same_id w.wallet_id (pending now) ≡ false) wallets

module _ (now : ℕ) where
  swap-append :
      (wallet made_up : ClientWallet) (ws : List ClientWallet)
      → same_id made_up.wallet_id (pending now) ≡ true
      → AreOthers now ws
      → map (swap (pending now) wallet) (ws ++ made_up ∷ []) ≡ ws ++ wallet ∷ []
  swap-append wallet made_up [] same others = rw same refl
  swap-append wallet made_up (w ∷ ws) same (other, others) =
      rw other (ap (◌∷◌ w) (swap-append wallet made_up ws same others))

  drop-append :
      (made_up : ClientWallet) (ws : List ClientWallet)
      → same_id made_up.wallet_id (pending now) ≡ true
      → AreOthers now ws
      → find_many
          (λ (w : ClientWallet). not (same_id w.wallet_id (pending now)))
          (ws ++ made_up ∷ [])
        ≡ ws
  unfolding find_many
  drop-append made_up [] same others = rw same refl
  drop-append made_up (w ∷ ws) same (other, others) =
      rw other (ap (◌∷◌ w) (drop-append made_up ws same others))

-- With no other change while the API is awaited, and no other wallet pending since the same moment: a
-- wallet that was made takes the last place of the list, one that failed leaves the list as it
-- was, with its error; no wallet is pending then, and the method answers what the API answered.
create_wallet-IsSettled :
    (api : ℕ → Settled ClientWallet) (now : ℕ) (state : WalletState)
    → AreOthers now state.wallets
    → let (answer, after) = create_wallet api now (λ s. s) state in
      IsSettled answer state after
      × (answer ≡ api (resolve_create_chain_id state.chains state.wallets state.environment))
      × (after.pending_wallet_id ≡ none)
      × (after.creating ≡ false)
unfolding create_wallet
create_wallet-IsSettled api now state others =
    let chain_id = resolve_create_chain_id state.chains state.wallets state.environment in
    let made_up = optimistic now chain_id state.wallets in
    settled (api chain_id) made_up (==_refl now)
  where
    settled :
        (answer : Settled ClientWallet) (made_up : ClientWallet)
        → same_id made_up.wallet_id (pending now) ≡ true
        → let after = create_ended now answer (record state {
          wallets = state.wallets ++ made_up ∷ [];
          creating = true;
          error = none;
          pending_wallet_id = some (pending now);
        }) in
          IsSettled answer state after
          × (answer ≡ answer)
          × (after.pending_wallet_id ≡ none)
          × (after.creating ≡ false)
    settled (fulfilled wallet) made_up same =
        ((swap-append now wallet made_up state.wallets same others, refl), refl, refl, refl)
    settled (rejected message) made_up same =
        ((drop-append now made_up state.wallets same others, refl), refl, refl, refl)

-- A list of wallets that arrives while a wallet is made takes the place of the one that is pending:
-- if it was asked for before the wallet was there, the wallet is not shown, though it was made.
refreshed_meanwhile :
    (wallet : ClientWallet) (now : ℕ) (listed : List ClientWallet) (state : WalletState)
    → AreOthers now listed
    → (create_wallet
        (λ chain_id. fulfilled wallet)
        now
        (refresh true (fulfilled listed) (rejected []) (rejected []))
        state).1.wallets
      ≡ listed
unfolding create_wallet refresh
refreshed_meanwhile wallet now listed state others = unchanged listed others
  where
    unchanged :
        (ws : List ClientWallet) → AreOthers now ws → map (swap (pending now) wallet) ws ≡ ws
    unchanged [] h = refl
    unchanged (w ∷ ws) (other, h) = rw other (ap (◌∷◌ w) (unchanged ws h))
