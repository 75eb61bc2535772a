-- ===== src/Transactions/Page/Pages.antt =====
-- transactions.service.ts: the pages of one query, put together.
use earn_defi_nestjs_backend.Base.{
  ℕ, zero, suc, ◌+◌, ◌*◌, ◌≡◌, refl, ap, Option, some, List, [], ◌∷◌, ◌++◌, map, length, take, drop,
  arith, find_many,
}
use earn_defi_nestjs_backend.Schema.Rows.{Db}
use earn_defi_nestjs_backend.Monad.{Result, ok, err}
use earn_defi_nestjs_backend.Transactions.Service.{TransactionRecord}
use earn_defi_nestjs_backend.Transactions.Page.{
  Filters, Page, fits, given, with_slug, find_by_user_with_filters, find_page, find_rows,
}

abbrev items_of : Result Page × Db → List TransactionRecord
items_of (ok p, db) = p.items
items_of (err e, db) = []

-- The items of the first `k` pages, one after the other.
unfoldable pub first_pages : Filters → Option ℕ → ℕ → Db → List TransactionRecord
first_pages f limit zero db = []
first_pages f limit (suc k) db =
    first_pages f limit k db ++ items_of (find_by_user_with_filters f (some (suc k)) limit db)

take_nil : {A : Type 0} (n : ℕ) → take {A = A} n [] ≡ []
take_nil zero = refl
take_nil (suc n) = refl

take-drop : {A : Type 0} (n m : ℕ) (xs : List A) → take n xs ++ take m (drop n xs) ≡ take (n + m) xs
take-drop zero m xs = let e : 0 + m ≡ m = omega arith in rw e refl
take-drop (suc n) m [] = rw (take_nil m, take_nil (suc n + m)) refl
take-drop (suc n) m (x ∷ xs) =
    let e : suc n + m ≡ suc (n + m) = omega arith in rw e (ap (λ ys. x ∷ ys) (take-drop n m xs))

map-append : {A B : Type 0} (g : A → B) (xs ys : List A) → map g xs ++ map g ys ≡ map g (xs ++ ys)
map-append g [] ys = refl
map-append g (x ∷ xs) ys = ap (λ zs. g x ∷ zs) (map-append g xs ys)

-- The first `k` pages of a query, one after the other, are the first `k` times `limit` of all the
-- user's transactions that fit the filters, the newest first, none left out and none twice; each
-- page tells how many fit in all. The limit is 20 where none is given.
pub first_pages-take :
    (f : Filters) (limit : Option ℕ) (k : ℕ) (db : Db)
    → let rows = find_many (fits f db.vaults) db.transactions in
      (first_pages f limit k db ≡ map (with_slug db.vaults) (take (k * given 20 limit) rows))
      × ((find_by_user_with_filters f (some (suc k)) limit db) ≡ (
        ok (record {
          items =
              map (with_slug db.vaults) (take (given 20 limit) (drop (k * given 20 limit) rows));
          total = length rows;
          page = suc k;
          limit = given 20 limit;
        }),
        db,
      ))
unfolding first_pages find_by_user_with_filters find_page find_rows
first_pages-take f limit zero db =
    let none_yet : 0 * given 20 limit ≡ 0 = omega arith in (rw none_yet refl, refl)
first_pages-take f limit (suc k) db =
    let rows = find_many (fits f db.vaults) db.transactions in
    let n = given 20 limit in
    let before = (first_pages-take f limit k db).0 in
    let more : k * n + n ≡ suc k * n = omega arith in
    (
      rw
          (
            before,
            map-append (with_slug db.vaults) (take (k * n) rows) (take n (drop (k * n) rows)),
            take-drop (k * n) n rows,
            more,
          )
          refl,
      refl,
    )
