-- ===== src/Books/Writes.antt =====
-- positions.repository.ts and transactions.repository.ts: the books before and after each write to
-- a table.
use earn_defi_nestjs_backend.Base.{
  ℕ, suc, ◌<◌, ◌≡◌, refl, sym, ◌∙◌, All-map, All-zip, Bool, true, none, some, ◌∷◌, arith, All,
  All-update_where,
}
use earn_defi_nestjs_backend.Schema.Rows.{Db, Transaction, Position}
use earn_defi_nestjs_backend.Positions.Amounts.{IsBacked}
use earn_defi_nestjs_backend.Positions.Repository as Positions
use earn_defi_nestjs_backend.Transactions.Repository.{StatusUpdate, apply_update, write_rows}
use earn_defi_nestjs_backend.Books.{IsRecorded, Claim, Agrees, IsGiven, Books}

pub write_row-Books :
    (c : Claim) (id : ℕ) (f : Position → Position) (db : Db)
    → ((p : Position) → IsBacked p → IsBacked (f p))
    → Books c db
    → Books c (Positions.write_row id f db)
write_row-Books c id f db keep b = record {
  backed =
      All-update_where IsBacked (Positions.has_id id) f db.positions (λ p hit. keep p) b.backed;
  recorded = b.recorded;
  fresh = b.fresh;
  agrees = b.agrees;
  given = b.given;
}

Agrees-kept :
    (c : Claim) (f : Transaction → Transaction) (t : Transaction)
    → (f t).id ≡ t.id
    → (f t).type ≡ t.type
    → (f t).amount ≡ t.amount
    → Agrees c t
    → Agrees c (f t)
Agrees-kept none f t i k a h = tt
Agrees-kept (some (id, type, amount)) f t i k a h =
    λ e. let (k', a') = h (sym i ∙ e) in (k ∙ k', a ∙ a')

-- An update of the status columns keeps the books if every row that it fits is recorded after it.
pub apply_update-Books :
    (c : Claim) (p : Transaction → Bool) (u : StatusUpdate) (now : ℕ) (db : Db)
    → ((t : Transaction)
        → p t ≡ true
        → IsRecorded t
        → Agrees c t
        → IsRecorded (apply_update u now t))
    → Books c db
    → Books c (write_rows p (apply_update u now) db)
apply_update-Books c p u now db keep b = record {
  backed = b.backed;
  recorded =
      All-map (λ t. IsRecorded t × Agrees c t) IsRecorded _ (λ t h. h.0)
        (All-update_where (λ t. IsRecorded t × Agrees c t) p (apply_update u now) db.transactions
          (λ t hit h. (keep t hit h.0 h.1, Agrees-kept c (apply_update u now) t refl refl refl h.1))
          (All-zip IsRecorded (Agrees c) db.transactions b.recorded b.agrees));
  fresh =
      All-update_where (λ t. t.id < db.next_id) p (apply_update u now) db.transactions
        (λ t hit below. below) b.fresh;
  agrees =
      All-update_where (Agrees c) p (apply_update u now) db.transactions
        (λ t hit. Agrees-kept c (apply_update u now) t refl refl refl) b.agrees;
  given = b.given;
}

IsGiven-suc : (c : Claim) (n : ℕ) → IsGiven c n → IsGiven c (suc n)
IsGiven-suc none n g = tt
IsGiven-suc (some (id, type, amount)) n g = omega arith

Agrees-new : (c : Claim) (t : Transaction) (n : ℕ) → t.id ≡ n → IsGiven c n → Agrees c t
Agrees-new none t n e g = tt
Agrees-new (some (id, type, amount)) t n e g = λ same. absurd (omega arith)

-- A row that is added under the next id.
pub create-Books :
    (c : Claim) (t : Transaction) (db : Db)
    → t.id ≡ db.next_id
    → IsRecorded t
    → Books c db
    → Books c (record db { transactions = t ∷ db.transactions; next_id = suc db.next_id })
create-Books c t db id r b = record {
  backed = b.backed;
  recorded = (r, b.recorded);
  fresh = (
    omega arith,
    All-map (λ u. u.id < db.next_id) (λ u. u.id < suc db.next_id) db.transactions
        (λ u below. omega arith) b.fresh,
  );
  agrees = (Agrees-new c t db.next_id id b.given, b.agrees);
  given = IsGiven-suc c db.next_id b.given;
}

-- The same, and the request holds on to the new row.
pub create-Books_held :
    (t : Transaction) (db : Db)
    → t.id ≡ db.next_id
    → IsRecorded t
    → Books none db
    → Books
        (some (t.id, t.type, t.amount))
        (record db { transactions = t ∷ db.transactions; next_id = suc db.next_id })
create-Books_held t db id r b = record {
  backed = b.backed;
  recorded = (r, b.recorded);
  fresh = (
    omega arith,
    All-map (λ u. u.id < db.next_id) (λ u. u.id < suc db.next_id) db.transactions
        (λ u below. omega arith) b.fresh,
  );
  agrees = (
    (λ e. (refl, refl)),
    All-map (λ u. u.id < db.next_id) (Agrees (some (t.id, t.type, t.amount))) db.transactions
        (λ u below e. absurd (omega arith)) b.fresh,
  );
  given = omega arith;
}

-- The identifiers go up for rows of other tables too.
pub next_id-Books :
    (c : Claim) (db db' : Db)
    → All IsBacked db'.positions
    → db'.transactions ≡ db.transactions
    → db'.next_id ≡ suc db.next_id
    → Books c db
    → Books c db'
next_id-Books c db db' backed same next b = record {
  backed = backed;
  recorded = rw same b.recorded;
  fresh =
      rw (same, next)
        (All-map (λ u. u.id < db.next_id) (λ u. u.id < suc db.next_id) db.transactions
          (λ u below. omega arith) b.fresh);
  agrees = rw same b.agrees;
  given = rw next (IsGiven-suc c db.next_id b.given);
}

-- A request that is done lets its transaction go.
pub release-Books : (c : Claim) (db : Db) → Books c db → Books none db
release-Books c db b = record {
  backed = b.backed;
  recorded = b.recorded;
  fresh = b.fresh;
  agrees = All-map (Agrees c) (Agrees none) db.transactions (λ t h. tt) b.agrees;
  given = tt;
}
