-- ===== src/Lib.antt =====
-- The earn services of the backend: deposits into vaults, withdrawals, approvals, the job that
-- reconciles their transactions, and what these stand on.
--
-- How the parts interact. A request handler (src/earn/services) checks the vault, the chain and the
-- wallet, reads the chain, and opens a transaction in a Prisma transaction; it then broadcasts
-- through the wallet provider, waits for the receipt, and confirms the transaction and moves the
-- position in a second Prisma transaction. The job (src/reconciliation) looks every 30 seconds for
-- transactions that were left CREATED or SUBMITTED. The idempotency interceptor stands around every
-- handler. They share the tables of the database and two kinds of keys in Redis.
--
-- Which file models what:
--   Schema        prisma/schema.prisma, src/config/config.types.ts, src/protocols: rows, configuration,
--                 values that pass between the services and the chain; `Db` is all shared state
--   Monad         service methods: state passing with exceptions; `atomic` is `prisma.$transaction`;
--                 `log_audit` is src/audit/audit.service.ts. Monad.Triple has the rules by which a
--                 property is carried through a method, Monad.Value those on what it returns
--   Transactions  src/earn/persistence/transactions: repository and service, Page the
--                 query with filters and pages
--   Positions     src/earn/persistence/positions: repository and service, Filters the query of a
--                 user's positions; Ledger has the account that the operations on a position
--                 implement
--   Env           what the services are handed: configuration, protocol provider, RPC client, wallet
--                 provider, and the writes of other requests
--   Validation    src/earn/services/earn-transaction-validation.service.ts
--   RateLimit     src/earn/services/earn-mutation-rate-limit.service.ts
--   Blockchain    src/earn/services/earn-blockchain.service.ts
--   Vaults        src/earn/repositories/earn-vault.repository.ts
--   Wallets       src/wallets/wallets.service.ts; Twice has two creations that meet
--   Privy         src/wallets/providers/privy: privy-retry.util.ts and privy-wallet.errors.ts; in
--                 Calls, Client and Users privy-wallet.service.ts, which records what the Privy
--                 client was handed
--   Protocols     src/protocols/aave: Viem is aave-viem.service.ts, Aave is aave.provider.ts
--   Queries       src/earn/services/earn.service.ts, earn-positions.service.ts and
--                 earn-transactions.service.ts, with src/earn/utils: what a client is shown
--   Auth          src/auth/auth.service.ts and strategies/jwt.strategy.ts, with the lifetime of a
--                 token of src/config/jwt.config.ts
--   Deposit       src/earn/services/earn-deposit.service.ts; `depositVault` is `deposit_vault`, cut
--                 into `quote_deposit` and `open_deposit` (Open), `settle_deposit` and
--                 `fail_deposit` (Settle)
--   Withdraw      src/earn/services/earn-withdraw.service.ts, cut in the same way
--   Approval      src/earn/services/earn-approval.service.ts; Answers follows it to its answer
--   Exclusive     two requests that meet at the first Prisma transaction
--   Lost          the `catch` blocks against the queries of the job
--   Reconciliation  src/reconciliation: Lock, Handle (one transaction) and Run (the whole job)
--                 and, over them, Progress, Steps, Live and Arrival, which follow one transaction
--   Idempotency   src/idempotency: Service (the stored keys), Intercept (the interceptor) and Hash
--                 (utils/request-hash.util.ts)
--   Books         an invariant and its way through deposits, withdrawals and the job: the three
--                 amounts of a position are equal and not negative; the metadata of an open deposit
--                 or withdrawal names as many shares as its amount; ids are below the counter; and
--                 the transaction that a request holds on to (its claim) has the type and the
--                 amount that it gave it
--   Config        src/config: config-json.util.ts, chains.config.ts and aave.config.ts, and
--                 src/chains/chains.service.ts
--   Frontend      frontend/src: Amounts is `parseAmount` and `formatAmount` of utils/format.ts,
--                 DepositFlow is components/DepositFlow.tsx with its three handlers,
--                 Wallets is context/WalletContext.tsx with utils/chain.ts
--   Tests         runs on small tables
--
-- How state is modelled. A table is a list of rows, newest first; a query is a search in it. An id
-- is handed out by one counter. Identifiers, addresses, hashes and texts that are only compared
-- are numbers; a text that is trimmed, sorted or changed in case is the list of its code points
-- (`Text`), and one that is only shown is a `String`. A `bigint` and a decimal column are integers
-- without a bound: the 36 digits of the columns are not modelled. Amounts in a request are
-- numbers, since the validator of the DTO lets only positive integers through. The clock stands
-- still within a method; a JSON web token is checked at the second of the request that brings it.
--
-- Other requests. A Prisma transaction runs alone and is rolled back when it throws. At three
-- awaits of a handler, before the first Prisma transaction, during the broadcast and during the
-- wait for the receipt, and at the receipt in the job, `Env.others` may change the whole state;
-- that the others keep the invariant is the named hypothesis `OthersKeep`; that they do not take a
-- transaction that the job follows back is `OthersProgress`. At the three awaits of
-- `createWallet`, before the old primary wallet is cleared and at the two calls of the provider, an
-- argument of the method may change the whole state; that it makes none of the user's wallets a
-- primary one is the named hypothesis `OthersMakeNone`. On the page of a deposit the user may type
-- while a preview is awaited. The reads at the other awaits are taken in the order of the code.
--
-- Loops. The job's loops run over lists; the retry for a receipt runs on the rounds left, three of
-- them, which is `maxAttempts`, and so does that of the Privy client. The digits of a number are
-- written on as much fuel as the number counts, which is as many as it has digits at least. A text
-- with placeholders is scanned on as much fuel as it has characters, and each step takes one at
-- least. Nothing else needs fuel, and every method is total.
--
-- Not modelled: the Privy client, viem, bcrypt and JSON web tokens (parameters), controllers, DTO
-- validation, guards and filters of the HTTP layer, logging, what of the configuration is copied
-- from the environment, the assets, the BullMQ worker; of the frontend, all but the amounts that
-- are typed and shown, the page of a deposit and the context of the wallets.
pub mod Base
pub mod Schema
pub mod Monad
pub mod Transactions
pub mod Positions
pub mod Env
pub mod Validation
pub mod RateLimit
pub mod Blockchain
pub mod Vaults
pub mod Wallets
pub mod Privy
pub mod Deposit
pub mod Withdraw
pub mod Approval
pub mod Exclusive
pub mod Lost
pub mod Reconciliation
pub mod Protocols
pub mod Queries
pub mod Auth
pub mod Config
pub mod Frontend
pub mod Idempotency
pub mod Books
pub mod Tests
