-- ===== src/Protocols/Reads.antt =====
-- Methods that only read and may throw.
use earn_defi_nestjs_backend.Base.{Option, none, some, List, [], ◌∷◌}
use earn_defi_nestjs_backend.Monad.{Error, Result, ok, err}

module _ {A B : Type 0} where
  infixl 5 ◌>>=◌
  abbrev pub ◌>>=◌ : Result A → (A → Result B) → Result B
  ok a >>= f = f a
  err e >>= f = err e

  -- `Promise.all(xs.map(f))`, in the order of the list.
  unfoldable pub all_of : (A → Result B) → List A → Result (List B)
  all_of f [] = ok []
  all_of f (x ∷ xs) =
      let rest = all_of f xs in
      elim (f x) [ err e ↦ err e | ok y ↦ elim rest [ err e ↦ err e | ok ys ↦ ok (y ∷ ys) ] ]

module _ {A : Type 0} where
  abbrev pub or_throw : Option A → Error → Result A
  or_throw none e = err e
  or_throw (some a) e = ok a

  -- `try { … } catch { return … }`
  abbrev pub or_default : Result A → A → A
  or_default (ok a) d = a
  or_default (err e) d = d
