-- ===== src/Queries/Value.antt =====
-- earn/utils/position-value.util.ts: what the shares of a position are worth.
use earn_defi_nestjs_backend.Base.{
  ℕ, ◌*◌, ◌/◌, ◌^◌, ◌==◌, if◌then◌else◌, String, ℤ, pos_part, neg_part, sub_ℕ,
}
use earn_defi_nestjs_backend.Protocols.Viem.{Viem, ray}

-- `bigint` division goes towards zero.
abbrev pub scaled : ℤ → ℕ → ℕ → ℤ
scaled shares price unit = sub_ℕ (pos_part shares * price / unit) (neg_part shares * price / unit)

unfoldable pub compute_current_value : Viem → ℤ → String → ℕ → ℕ → ℤ
compute_current_value viem shares share_price asset_decimals share_decimals =
    if share_decimals == asset_decimals
    then scaled shares (viem.parse_units share_price 27) ray
    else scaled shares (viem.parse_units share_price asset_decimals) (10 ^ share_decimals)
