-- ===== src/Frontend/DepositFlow/Runs.antt =====
-- frontend/src/components/DepositFlow.tsx: what the user can do with the page, and what it sends then.
use earn_defi_nestjs_backend.Base.{
  ℕ, suc, ◌≡◌, ◌<◌, refl, Bool, true, false, Option, none, some, List, [], ◌∷◌, Text, arith, subst,
}
use earn_defi_nestjs_backend.Frontend.Amounts.{parse_amount}
use earn_defi_nestjs_backend.Frontend.DepositFlow.{
  FlowStep, Props, Sent, ApiRequest, previewed, approved, deposited, Settled, fulfilled, rejected,
  Api, Page, first_page, type_amount, started, sent_of, on_preview, send_preview, handle_preview,
  on_approve, handle_approve, on_deposit, handle_deposit,
}

-- The pages that a user can bring about: each step shows one input or button, which is disabled while
-- a request is on its way.
pub data Reaches (api : Api) (props : Props) : Page → Type 0 where
  open_page : Reaches api props first_page
  type_in :
      (page : Page) (text : Text)
      → page.step ≡ FlowStep.amount
      → Reaches api props page
      → Reaches api props (type_amount (some text) page)
  submit :
      (page : Page) (typed : Option Text)
      → page.step ≡ FlowStep.amount
      → Reaches api props page
      → Reaches api props (handle_preview api props typed page)
  click_approve :
      (page : Page)
      → page.step ≡ FlowStep.approve
      → Reaches api props page
      → Reaches api props (handle_approve api props page)
  click_deposit :
      (page : Page)
      → page.step ≡ FlowStep.deposit
      → Reaches api props page
      → Reaches api props (handle_deposit api props page)

-- The keys that were sent are below a number.
abbrev pub AreBelow : ℕ → List ApiRequest → Type 0
AreBelow n [] = Unit {0}
AreBelow n (previewed s ∷ rs) = AreBelow n rs
AreBelow n (approved s k ∷ rs) = (k < n) × AreBelow n rs
AreBelow n (deposited s k ∷ rs) = (k < n) × AreBelow n rs

module _ (api : Api) where
  -- A preview of `s` found that it needs an approval, and since then approvals alone were sent.
  abbrev pub IsAsked : Sent → List ApiRequest → Type 0
  IsAsked s [] = ⊥
  IsAsked s (previewed t ∷ rs) = (t ≡ s) × (api.preview_deposit rs s ≡ fulfilled true)
  IsAsked s (approved t k ∷ rs) = IsAsked s rs
  IsAsked s (deposited t k ∷ rs) = ⊥

  -- A preview of `s` found that it needs no approval, or its approval was accepted; since then deposits
  -- alone were sent, and all rejected.
  abbrev pub IsCleared : Sent → List ApiRequest → Type 0
  IsCleared s [] = ⊥
  IsCleared s (previewed t ∷ rs) = (t ≡ s) × (api.preview_deposit rs s ≡ fulfilled false)
  IsCleared s (approved t k ∷ rs) =
      (t ≡ s) × ((url : Option Text) × (api.approve rs s k ≡ fulfilled url)) × IsAsked s rs
  IsCleared s (deposited t k ∷ rs) =
      ((message : Text) × (api.deposit rs t k ≡ rejected message)) × IsCleared s rs

  -- The newest request is a deposit, and was accepted.
  abbrev pub IsMade : List ApiRequest → Type 0
  IsMade (deposited t k ∷ rs) = (url : Option Text) × (api.deposit rs t k ≡ fulfilled url)
  IsMade _ = ⊥

  -- Every approval is one that was asked for, every deposit one that is cleared, and every key greater
  -- than the keys sent before it.
  abbrev pub IsInOrder : List ApiRequest → Type 0
  IsInOrder [] = Unit {0}
  IsInOrder (previewed s ∷ rs) = IsInOrder rs
  IsInOrder (approved s k ∷ rs) = IsAsked s rs × AreBelow k rs × IsInOrder rs
  IsInOrder (deposited s k ∷ rs) = IsCleared s rs × AreBelow k rs × IsInOrder rs

  module _ (props : Props) where
    -- What is known at each step of the page, with the number of calls of `onComplete`.
    abbrev pub IsAt : FlowStep → Page → Type 0
    IsAt FlowStep.amount page = page.completed ≡ 0
    IsAt FlowStep.approve page =
        IsAsked (sent_of props page.base_amount) page.requests × (page.completed ≡ 0)
    IsAt FlowStep.deposit page =
        IsCleared (sent_of props page.base_amount) page.requests × (page.completed ≡ 0)
    IsAt FlowStep.done page = IsMade page.requests × (page.completed ≡ 1)

    abbrev Fits : Page → Type 0
    Fits page = IsInOrder page.requests × AreBelow page.next_key page.requests × IsAt page.step page

    AreBelow-mono : (n : ℕ) (rs : List ApiRequest) → AreBelow n rs → AreBelow (suc n) rs
    AreBelow-mono n [] h = tt
    AreBelow-mono n (previewed s ∷ rs) h = AreBelow-mono n rs h
    AreBelow-mono n (approved s k ∷ rs) h = (omega arith, AreBelow-mono n rs h.1)
    AreBelow-mono n (deposited s k ∷ rs) h = (omega arith, AreBelow-mono n rs h.1)

    Fits-handle_preview :
        (page : Page) (typed : Option Text)
        → page.step ≡ FlowStep.amount
        → Fits page
        → Fits (handle_preview api props typed page)
    unfolding handle_preview
    Fits-handle_preview page typed at (order, below, known) =
        asked typed (parse_amount page.amount_input props.asset_decimals)
      where
        known_amount : page.completed ≡ 0
        known_amount = subst (λ s. IsAt s page) at known

        answered :
            (n : ℕ) (t : Option Text) (a : Settled Bool)
            → api.preview_deposit page.requests (sent_of props n) ≡ a
            → Fits (
                on_preview n a (
                  type_amount t (record (started page) {
                    requests = previewed (sent_of props n) ∷ page.requests;
                  })))
        answered n t (fulfilled true) e = (order, below, ((refl, e), known_amount))
        answered n t (fulfilled false) e = (order, below, ((refl, e), known_amount))
        answered n t (rejected m) e = (order, below, rw at known_amount)

        asked :
            (t : Option Text) (parsed : Option ℕ)
            → Fits (send_preview api props t (started page) parsed)
        asked t none = (order, below, rw at known_amount)
        asked t (some n) = answered n t _ refl

    Fits-handle_approve :
        (page : Page)
        → page.step ≡ FlowStep.approve
        → Fits page
        → Fits (handle_approve api props page)
    unfolding handle_approve
    Fits-handle_approve page at (order, below, known) =
        answered (api.approve page.requests (sent_of props page.base_amount) page.next_key) refl
      where
        asked : IsAt FlowStep.approve page
        asked = subst (λ s. IsAt s page) at known

        sent : List ApiRequest
        sent = approved (sent_of props page.base_amount) page.next_key ∷ page.requests

        in_order : IsInOrder sent
        in_order = (asked.0, below, order)

        newest : AreBelow (suc page.next_key) sent
        newest = (omega arith, AreBelow-mono page.next_key page.requests below)

        answered :
            (a : Settled (Option Text))
            → api.approve page.requests (sent_of props page.base_amount) page.next_key ≡ a
            → Fits (
                on_approve a
                  (record (started page) { requests = sent; next_key = suc page.next_key }))
        answered (fulfilled url) e = (in_order, newest, ((refl, (url, e), asked.0), asked.1))
        answered (rejected m) e = (in_order, newest, rw at asked)

    Fits-handle_deposit :
        (page : Page)
        → page.step ≡ FlowStep.deposit
        → Fits page
        → Fits (handle_deposit api props page)
    unfolding handle_deposit
    Fits-handle_deposit page at (order, below, known) =
        answered (api.deposit page.requests (sent_of props page.base_amount) page.next_key) refl
      where
        cleared : IsAt FlowStep.deposit page
        cleared = subst (λ s. IsAt s page) at known

        sent : List ApiRequest
        sent = deposited (sent_of props page.base_amount) page.next_key ∷ page.requests

        in_order : IsInOrder sent
        in_order = (cleared.0, below, order)

        newest : AreBelow (suc page.next_key) sent
        newest = (omega arith, AreBelow-mono page.next_key page.requests below)

        answered :
            (a : Settled (Option Text))
            → api.deposit page.requests (sent_of props page.base_amount) page.next_key ≡ a
            → Fits (
                on_deposit a
                  (record (started page) { requests = sent; next_key = suc page.next_key }))
        answered (fulfilled url) e = (in_order, newest, ((url, e), rw cleared.1 refl))
        answered (rejected m) e = (in_order, newest, rw at (((m, e), cleared.0), cleared.1))

    Reaches-Fits : (page : Page) → Reaches api props page → Fits page
    Reaches-Fits _ open_page = (tt, tt, refl)
    Reaches-Fits _ (type_in page text at r) =
        let (order, below, known) = Reaches-Fits page r in
        (order, below, rw at (subst (λ s. IsAt s page) at known))
    Reaches-Fits _ (submit page typed at r) =
        Fits-handle_preview page typed at (Reaches-Fits page r)
    Reaches-Fits _ (click_approve page at r) = Fits-handle_approve page at (Reaches-Fits page r)
    Reaches-Fits _ (click_deposit page at r) = Fits-handle_deposit page at (Reaches-Fits page r)

-- Whatever the user does with the page and whatever the API answers: an approval is sent only for a
-- preview that asked for one; a deposit only of what was previewed last, after its approval was
-- accepted if it needs one, and after no deposit but rejected ones; each request with a key has one
-- greater than all before it, so that a deposit that is sent again has another key; and `onComplete` is
-- called once, when a deposit is accepted, and then that deposit is the last request.
pub Reaches-IsInOrder :
    (api : Api) (props : Props) (page : Page)
    → Reaches api props page
    → IsInOrder api page.requests × IsAt api props page.step page
Reaches-IsInOrder api props page r =
    let (order, below, known) = Reaches-Fits api props page r in (order, known)
