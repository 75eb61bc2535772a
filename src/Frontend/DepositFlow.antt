-- ===== src/Frontend/DepositFlow.antt =====
-- frontend/src/components/DepositFlow.tsx: the page that previews a deposit, has it approved and makes
-- it. The API is a parameter: what it answers may depend on all that it was sent before.
pub mod Runs
use earn_defi_nestjs_backend.Base.{
  ℕ, zero, suc, leb, if◌then◌else◌, Bool, true, false, Option, none, some, List, [], ◌∷◌, Text,
  codes, map,
}
use earn_defi_nestjs_backend.Frontend.Amounts.{parse_amount}

pub data FlowStep : Type 0 where
  amount approve deposit done : FlowStep

-- `vault.vaultId`, `vault.assetDecimals` and `wallet.walletId`.
pub record Props : Type 0 where
  pub vault_id : ℕ
  pub asset_decimals : ℕ
  pub wallet_id : ℕ

-- A request of the API; an approval and a deposit carry an idempotency key.
pub record Sent : Type 0 where
  pub vault_id : ℕ
  pub wallet_id : ℕ
  pub amount : ℕ

pub data ApiRequest : Type 0 where
  previewed : Sent → ApiRequest
  approved : Sent → ℕ → ApiRequest
  deposited : Sent → ℕ → ApiRequest

-- A promise that is settled: its value, or the message of its error.
pub data Settled (A : Type 0) : Type 0 where
  fulfilled : A → Settled A
  rejected : Text → Settled A

-- `preview.requiresApproval`, and `res.explorerUrl` of a mutation.
pub record Api : Type 0 where
  pub preview_deposit : List ApiRequest → Sent → Settled Bool
  pub approve : List ApiRequest → Sent → ℕ → Settled (Option Text)
  pub deposit : List ApiRequest → Sent → ℕ → Settled (Option Text)

-- The state of the component, what it sent, newest first, the next `newIdempotencyKey()` (each is a
-- value that was not drawn before) and the number of calls of `onComplete`.
pub record Page : Type 0 where
  pub amount_input : Text
  pub step : FlowStep
  pub loading : Bool
  pub error : Option Text
  pub explorer_url : Option Text
  pub requires_approval : Bool
  pub base_amount : ℕ
  pub requests : List ApiRequest
  pub next_key : ℕ
  pub completed : ℕ

-- The amount is the empty string before the first preview, and not shown.
abbrev pub first_page : Page
first_page = record {
  amount_input = [];
  step = FlowStep.amount;
  loading = false;
  error = none;
  explorer_url = none;
  requires_approval = false;
  base_amount = 0;
  requests = [];
  next_key = 0;
  completed = 0;
}

-- The input stays open to the user while a preview is on its way.
abbrev pub newer : {A : Type 0} → Option A → A → A
newer none old = old
newer (some a) old = a

abbrev pub type_amount : Option Text → Page → Page
type_amount typed page = record page { amount_input = newer typed page.amount_input }

abbrev pub started : Page → Page
started page = record page { error = none; loading = true }

abbrev pub failed : Text → Page → Page
failed message page = record page { error = some message; loading = false }

abbrev pub sent_of : Props → ℕ → Sent
sent_of props n = record { vault_id = props.vault_id; wallet_id = props.wallet_id; amount = n }

abbrev pub on_preview : ℕ → Settled Bool → Page → Page
on_preview n (fulfilled requires_approval) page = record page {
  base_amount = n;
  requires_approval = requires_approval;
  step = if requires_approval then FlowStep.approve else FlowStep.deposit;
  loading = false;
}
on_preview n (rejected message) page = failed message page

abbrev pub send_preview : Api → Props → Option Text → Page → Option ℕ → Page
send_preview api props typed page none = failed (codes "Enter a valid amount") page
send_preview api props typed page (some n) =
    let sent = sent_of props n in
    on_preview n (api.preview_deposit page.requests sent)
      (type_amount typed (record page { requests = previewed sent ∷ page.requests }))

unfoldable pub handle_preview : Api → Props → Option Text → Page → Page
handle_preview api props typed page =
    send_preview api props typed (started page)
      (parse_amount page.amount_input props.asset_decimals)

-- `if (res.explorerUrl) setExplorerUrl(res.explorerUrl)`, where the empty text is no URL.
abbrev pub newer_url : Option Text → Option Text → Option Text
newer_url none old = old
newer_url (some []) old = old
newer_url (some (c ∷ cs)) old = some (c ∷ cs)

abbrev pub set_explorer_url : Option Text → Page → Page
set_explorer_url url page = record page { explorer_url = newer_url url page.explorer_url }

abbrev pub on_approve : Settled (Option Text) → Page → Page
on_approve (fulfilled url) page = record (set_explorer_url url page) {
  step = FlowStep.deposit;
  loading = false;
}
on_approve (rejected message) page = failed message page

unfoldable pub handle_approve : Api → Props → Page → Page
handle_approve api props page =
    let sent = sent_of props page.base_amount in
    on_approve (api.approve page.requests sent page.next_key) (record (started page) {
      requests = approved sent page.next_key ∷ page.requests;
      next_key = suc page.next_key;
    })

abbrev pub on_deposit : Settled (Option Text) → Page → Page
on_deposit (fulfilled url) page = record (set_explorer_url url page) {
  step = FlowStep.done;
  completed = suc page.completed;
  loading = false;
}
on_deposit (rejected message) page = failed message page

unfoldable pub handle_deposit : Api → Props → Page → Page
handle_deposit api props page =
    let sent = sent_of props page.base_amount in
    on_deposit (api.deposit page.requests sent page.next_key) (record (started page) {
      requests = deposited sent page.next_key ∷ page.requests;
      next_key = suc page.next_key;
    })

-- `STEPS.indexOf(step)`
abbrev pub step_index : FlowStep → ℕ
step_index FlowStep.amount = 0
step_index FlowStep.approve = 1
step_index FlowStep.deposit = 2
step_index FlowStep.done = 3

abbrev pub labels : Bool → List FlowStep
labels true = FlowStep.amount ∷ FlowStep.approve ∷ FlowStep.deposit ∷ FlowStep.done ∷ []
labels false = FlowStep.amount ∷ FlowStep.deposit ∷ FlowStep.done ∷ []

unfoldable pub dots_from : ℕ → ℕ → List FlowStep → List (FlowStep × Bool)
dots_from i step [] = []
dots_from i step (l ∷ ls) = (l, leb i step) ∷ dots_from (suc i) step ls

-- The dots of the indicator, and which of them are shown as reached.
unfoldable pub step_indicator : Page → List (FlowStep × Bool)
unfolding dots_from
step_indicator page = dots_from 0 (step_index page.step) (labels page.requires_approval)
