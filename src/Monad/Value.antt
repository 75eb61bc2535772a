-- ===== src/Monad/Value.antt =====
-- What a method returns or brings about, whatever state it is run in.
use earn_defi_nestjs_backend.Base.{◌≡◌, subst}
use earn_defi_nestjs_backend.Schema.Rows.{Db}
use earn_defi_nestjs_backend.Monad.{Error, Result, ok, err, Action, pure, lift, ◌>>=◌}
use earn_defi_nestjs_backend.Monad.Triple.{Post, Triple, bind-Triple}

abbrev pub Anything : Db → Type 0
Anything db = Unit {0}

abbrev pub Gives : {A : Type 0} → (A → Type 0) → Action A → Type 0
Gives {A} F m = Triple {A = A} Anything (λ a db. F a) Anything m

-- A method of which nothing is asked.
pub any-Gives : {A : Type 0} (m : Action A) → Gives (λ a. Unit {0}) m
any-Gives {A} m = record { apply = λ db u. go (m db) }
  where
    go : (r : Result A × Db) → Post {A = A} (λ a db. Unit {0}) Anything r
    go (ok a, db) = tt
    go (err e, db) = tt

pub pure-Gives : {A : Type 0} {F : A → Type 0} (a : A) → F a → Gives F (pure a)
pure-Gives a f = record { apply = λ db u. f }

-- What is known of the value alone.
pub known-Triple :
    {A B : Type 0} {F : A → Type 0} {G : B → Type 0} {m : Action A} {f : A → Action B}
    → Gives F m
    → ((a : A) → F a → Gives G (f a))
    → Gives G (m >>= f)
known-Triple {A} {B} {F} {G} h k =
    bind-Triple h (λ a. record { apply = λ db fa. (k a fa).apply db tt })

-- A call that throws ends the method, whatever was to follow.
pub throws-Triple :
    {A B : Type 0} {Q : B → Db → Type 0} (r : Result A) (e : Error) (f : A → Action B)
    → r ≡ err e
    → Triple Anything Q Anything (lift r >>= f)
throws-Triple r e f h = record { apply = λ db u. rw h tt }

-- What a method has brought about where it returns, and where it ends at all.
pub on_ok :
    {A : Type 0} {Q : A → Db → Type 0} {m : Action A} {a : A} {db db' : Db}
    → Triple Anything Q Anything m
    → m db ≡ (ok a, db')
    → Q a db'
on_ok {A} {Q} {m} {a} {db} {db'} h e = subst (Post Q Anything) e (h.apply db tt)

pub on_end :
    {A : Type 0} {Q : Db → Type 0} {m : Action A} {r : Result A} {db db' : Db}
    → Triple Anything (λ a. Q) Q m
    → m db ≡ (r, db')
    → Q db'
on_end {A} {Q} {m} {r} {db} {db'} h e = ended r (subst (Post (λ a. Q) Q) e (h.apply db tt))
  where
    ended : (r : Result A) → Post {A = A} (λ a. Q) Q (r, db') → Q db'
    ended (ok a) q = q
    ended (err e) q = q
