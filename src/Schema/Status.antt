-- ===== src/Schema/Status.antt =====
-- The enumerations of prisma/schema.prisma and the tests that the services make on them.
use earn_defi_nestjs_backend.Base.{Bool, true, false}

pub data PositionStatus : Type 0 where
  active closed pending withdrawing failed : PositionStatus

pub data TransactionType : Type 0 where
  approval deposit withdraw yield_claim rebalance : TransactionType

pub data TransactionStatus : Type 0 where
  created submitted confirmed failed reverted : TransactionStatus

pub data AuditAction : Type 0 where
  user_registered user_login wallet_created approval_requested approval_confirmed : AuditAction
  deposit_requested deposit_confirmed withdraw_requested withdraw_confirmed : AuditAction

pub data WalletType : Type 0 where
  embedded external : WalletType

-- `position.status === PositionStatus.PENDING`, and so on.
abbrev pub is_pending : PositionStatus → Bool
is_pending PositionStatus.pending = true
is_pending _ = false

abbrev pub is_active : PositionStatus → Bool
is_active PositionStatus.active = true
is_active _ = false

abbrev pub is_withdrawing : PositionStatus → Bool
is_withdrawing PositionStatus.withdrawing = true
is_withdrawing _ = false

abbrev pub is_deposit : TransactionType → Bool
is_deposit TransactionType.deposit = true
is_deposit _ = false

abbrev pub is_withdraw : TransactionType → Bool
is_withdraw TransactionType.withdraw = true
is_withdraw _ = false

abbrev pub is_created : TransactionStatus → Bool
is_created TransactionStatus.created = true
is_created _ = false

abbrev pub is_submitted : TransactionStatus → Bool
is_submitted TransactionStatus.submitted = true
is_submitted _ = false

abbrev pub is_confirmed : TransactionStatus → Bool
is_confirmed TransactionStatus.confirmed = true
is_confirmed _ = false

-- `status: { in: [CREATED, SUBMITTED] }`
abbrev pub is_open : TransactionStatus → Bool
is_open TransactionStatus.created = true
is_open TransactionStatus.submitted = true
is_open _ = false
