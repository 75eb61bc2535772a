-- ===== src/Tests/Page.antt =====
-- The page of a deposit: an amount that needs an approval, a deposit that times out, and one that does.
use earn_defi_nestjs_backend.Base.{
  ℕ, ◌≡◌, refl, Bool, true, false, Option, none, some, List, [], ◌∷◌, Text, codes,
}
use earn_defi_nestjs_backend.Frontend.Amounts.{parse_amount}
use earn_defi_nestjs_backend.Frontend.DepositFlow.{
  FlowStep, Props, Sent, ApiRequest, previewed, approved, deposited, Settled, fulfilled, rejected,
  Api, Page, first_page, type_amount, handle_preview, handle_approve, handle_deposit,
  step_indicator,
}
use earn_defi_nestjs_backend.Frontend.DepositFlow.Runs.{
  open_page, type_in, submit, click_approve, click_deposit, IsInOrder, IsAt, Reaches-IsInOrder,
}

parse_amount_test : parse_amount (codes " 12.5 ") 6 ≡ some 12500000
unfolding parse_amount earn_defi_nestjs_backend.Base.trim
parse_amount_test = refl

parse_amount_refused : parse_amount (codes "1.2.3") 6 ≡ none
unfolding parse_amount earn_defi_nestjs_backend.Base.trim
parse_amount_refused = refl

abbrev props : Props
props = record { vault_id = 7; asset_decimals = 2; wallet_id = 3 }

-- The first deposit is rejected.
abbrev answer_deposit : List ApiRequest → Settled (Option Text)
answer_deposit (deposited s k ∷ rs) = fulfilled none
answer_deposit _ = rejected (codes "Request timed out.")

abbrev api : Api
api = record {
  preview_deposit = λ rs s. fulfilled true;
  approve = λ rs s k. fulfilled none;
  deposit = λ rs s k. answer_deposit rs;
}

abbrev typed_page : Page
typed_page = type_amount (some (codes "1.5")) first_page

abbrev asked_page : Page
asked_page = handle_preview api props none typed_page

abbrev cleared_page : Page
cleared_page = handle_approve api props asked_page

abbrev timed_out_page : Page
timed_out_page = handle_deposit api props cleared_page

abbrev done_page : Page
done_page = handle_deposit api props timed_out_page

abbrev sent : Sent
sent = record { vault_id = 7; wallet_id = 3; amount = 150 }

-- The deposit is sent twice, under two keys.
done_requests :
    done_page.requests ≡ deposited sent 2 ∷ deposited sent 1 ∷ approved sent 0 ∷ previewed sent ∷ []
unfolding handle_preview handle_approve handle_deposit parse_amount
    earn_defi_nestjs_backend.Base.trim
done_requests = refl

-- Without an approval the dot of the last step is lit before the deposit is made.
lit_early :
    step_indicator (record first_page { step = FlowStep.deposit })
    ≡ (FlowStep.amount, true) ∷ (FlowStep.deposit, true) ∷ (FlowStep.done, true) ∷ []
unfolding step_indicator
lit_early = refl

Reaches-IsInOrder_example :
    IsInOrder api done_page.requests × IsAt api props done_page.step done_page
unfolding handle_preview handle_approve handle_deposit parse_amount
    earn_defi_nestjs_backend.Base.trim
Reaches-IsInOrder_example = Reaches-IsInOrder api props done_page (
    click_deposit timed_out_page refl (
      click_deposit cleared_page refl (
        click_approve asked_page refl
          (submit typed_page none refl (type_in first_page (codes "1.5") refl open_page)))))
