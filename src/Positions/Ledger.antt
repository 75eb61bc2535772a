-- ===== src/Positions/Ledger.antt =====
-- positions.service.ts: the operations on one position, one after the other, against an account that
-- is a number of units and a status.
use earn_defi_nestjs_backend.Base.{
  ℕ, ◌+◌, ◌-◌, leb, if◌then◌else◌, ◌≡◌, ◌≢◌, refl, ap, ◌∙◌, some, arith, List, [], ◌∷◌, pos,
  int_laws, find_first,
}
use earn_defi_nestjs_backend.Schema.Status.{PositionStatus}
use earn_defi_nestjs_backend.Schema.Rows.{Db, Position}
use earn_defi_nestjs_backend.Monad.{Result, ok, err, Action, pure, ◌>>◌}
use earn_defi_nestjs_backend.Positions.Repository.{
  ActivatePositionInput, WithdrawPositionInput, has_id, write_row, update, set_status, set_amounts,
  increment, remaining, zero_amounts,
}
use earn_defi_nestjs_backend.Positions.Repository
use earn_defi_nestjs_backend.Positions.Service.{PositionRecord, to_record}
use earn_defi_nestjs_backend.Positions.Service
use earn_defi_nestjs_backend.Positions.Amounts.{
  even_withdrawal, even_deposit, write_withdraw, find-write_row, find-write_row_other,
  subtract_withdraw_lem,
}

-- What the handlers and the job do to a position: the first deposit is settled, a further one is, a
-- withdrawal is opened, given up, settled, or a deposit fails.
pub data Movement : Type 0 where
  activated added withdrawn : ℕ → Movement
  requested abandoned failed : Movement

unfoldable pub move : ℕ → Movement → Action PositionRecord
move id (activated n) = Service.activate id (even_deposit (pos n))
move id (added n) = Service.add_deposit id (even_deposit (pos n))
move id (withdrawn n) = Service.subtract_withdraw id (even_withdrawal (pos n))
move id requested = Service.mark_withdrawing id
move id abandoned = Service.mark_active id
move id failed = Service.mark_failed id

unfoldable pub move_all : ℕ → List Movement → Action (Unit {0})
move_all id [] = pure tt
move_all id (m ∷ ms) = do move id m; move_all id ms

-- The specification: one balance, of which a withdrawal takes what there is.
pub record Account : Type 0 where
  pub balance : ℕ
  pub status : PositionStatus

unfoldable pub post : Movement → Account → Account
post (activated n) a = record { balance = n; status = PositionStatus.active }
post (added n) a = record { balance = a.balance + n; status = PositionStatus.active }
post (withdrawn n) a = record {
  balance = a.balance - n;
  status = if leb a.balance n then PositionStatus.closed else PositionStatus.active;
}
post requested a = record a { status = PositionStatus.withdrawing }
post abandoned a = record a { status = PositionStatus.active }
post failed a = record a { status = PositionStatus.failed }

unfoldable pub post_all : List Movement → Account → Account
post_all [] a = a
post_all (m ∷ ms) a = post_all ms (post m a)

-- The row that stands for an account: its three amounts are the balance.
pub record Represents (a : Account) (p : Position) : Type 0 where
  pub deposited : p.deposited_amount ≡ pos a.balance
  pub current : p.current_amount ≡ pos a.balance
  pub shares : p.shares ≡ pos a.balance
  pub status : p.status ≡ a.status

-- What a movement writes, given the row `p` that it read.
written : Movement → Position → ℕ → Position → Position
written (activated n) p now = set_amounts PositionStatus.active (even_deposit (pos n)) now
written (added n) p now = increment (even_deposit (pos n)) now
written (withdrawn n) p now = write_withdraw p (even_withdrawal (pos n)) now
written requested p now = set_status PositionStatus.withdrawing now
written abandoned p now = set_status PositionStatus.active now
written failed p now = set_status PositionStatus.failed now

written_id : (m : Movement) (p : Position) (now : ℕ) (q : Position) → (written m p now q).id ≡ q.id
unfolding written
written_id (activated n) p now q = refl
written_id (added n) p now q = refl
written_id (withdrawn n) p now q = ground arith
written_id requested p now q = refl
written_id abandoned p now q = refl
written_id failed p now q = refl

move_lem :
    (id : ℕ) (m : Movement) (db : Db) (p : Position)
    → find_first (has_id id) db.positions ≡ some p
    → move id m db ≡ (ok (to_record (written m p db.now p)), write_row id (written m p db.now) db)
unfolding move written Service.activate Service.add_deposit Service.subtract_withdraw
    Service.mark_withdrawing Service.mark_active Service.mark_failed Repository.activate
    Repository.add_deposit Repository.mark_withdrawing Repository.mark_active Repository.mark_failed
move_lem id (activated n) db p h = ground arith
move_lem id (added n) db p h = ground arith
move_lem id (withdrawn n) db p h =
    ground (arith, subtract_withdraw_lem id (even_withdrawal (pos n)) db p h)
move_lem id requested db p h = ground arith
move_lem id abandoned db p h = ground arith
move_lem id failed db p h = ground arith

written-Represents :
    (m : Movement) (a : Account) (p : Position) (now : ℕ)
    → Represents a p
    → Represents (post m a) (written m p now p)
unfolding written post
written-Represents (activated n) a p now r = ground arith
written-Represents (added n) a p now r = grind int_laws
written-Represents (withdrawn n) a p now r = grind int_laws
written-Represents requested a p now r = ground arith
written-Represents abandoned a p now r = ground arith
written-Represents failed a p now r = ground arith

-- One movement, at the row that stands for the account.
move_one :
    (id : ℕ) (m : Movement) (a : Account) (db : Db) (p : Position)
    → find_first (has_id id) db.positions ≡ some p
    → Represents a p
    → (db' : Db) × (q : Position) × (move id m db ≡ (ok (to_record q), db'))
      × (find_first (has_id id) db'.positions ≡ some q)
      × Represents (post m a) q
      × ((other : ℕ)
          → other ≢ id
          → find_first (has_id other) db'.positions ≡ find_first (has_id other) db.positions)
move_one id m a db p h r =
    let f = written m p db.now in
    let keep = written_id m p db.now in
    (
      write_row id f db,
      f p,
      move_lem id m db p h,
      find-write_row id f db p keep h,
      written-Represents m a p db.now r,
      λ other ne. find-write_row_other id other f db keep ne,
    )

-- A step that returns hands on to the next one.
>>-ok :
    {A B : Type 0} (m : Action A) (k : Action B) {a : A} {db db' : Db}
    → m db ≡ (ok a, db')
    → (m >> k) db ≡ k db'
>>-ok m k returned =
    ap (λ (o : Result _ × Db). elim o.0 [ ok a ↦ k o.1 | err e ↦ (err e, o.1) ]) returned

-- Where a position stands for an account, any number of movements on it, one after the other, of
-- whatever amounts and in whatever order, all return. Afterwards it stands for the account with the
-- movements posted: the balance grows by each further deposit and falls by each withdrawal, to zero
-- at the least, and it is closed by a withdrawal of the balance or more. No other position is
-- touched.
pub move_all-refines :
    (id : ℕ) (ms : List Movement) (a : Account) (db : Db) (p : Position)
    → find_first (has_id id) db.positions ≡ some p
    → Represents a p
    → (db' : Db) × (q : Position) × (move_all id ms db ≡ (ok tt, db'))
      × (find_first (has_id id) db'.positions ≡ some q)
      × Represents (post_all ms a) q
      × ((other : ℕ)
          → other ≢ id
          → find_first (has_id other) db'.positions ≡ find_first (has_id other) db.positions)
unfolding move_all post_all
move_all-refines id [] a db p h r = (db, p, refl, h, r, λ other ne. refl)
move_all-refines id (m ∷ ms) a db p h r =
    let (db1, p1, moved, found, stands, others) = move_one id m a db p h r in
    let (db2, q, rest, at_end, stands', others') =
      move_all-refines id ms (post m a) db1 p1 found stands in
    (
      db2,
      q,
      >>-ok (move id m) (move_all id ms) moved ∙ rest,
      at_end,
      stands',
      λ other ne. others' other ne ∙ others other ne,
    )
