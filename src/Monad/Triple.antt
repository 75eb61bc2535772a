-- ===== src/Monad/Triple.antt =====
-- A method, run where `P` holds, ends where `Q` of its result holds, or throws where `E` holds:
-- one rule for each form that a method is built from.
use earn_defi_nestjs_backend.Base.{
  Bool, true, false, if◌then◌else◌, Option, none, some, ◌≡◌, refl, sym, subst,
}
use earn_defi_nestjs_backend.Schema.Rows.{Db}
use earn_defi_nestjs_backend.Monad.{
  Error, Result, ok, err, Action, pure, raise, lift, gets, or_raise, catch, atomic, ◌>>=◌, ◌>>◌,
  raise_if, modify,
}

abbrev pub Post : {A : Type 0} → (A → Db → Type 0) → (Db → Type 0) → Result A × Db → Type 0
Post Q E (ok a, db) = Q a db
Post Q E (err e, db) = E db

pub record Triple {A : Type 0} (P : Db → Type 0) (Q : A → Db → Type 0) (E : Db → Type 0)
    (m : Action A) : Type 0 where
  pub apply : (db : Db) → P db → Post Q E (m db)

-- The method keeps `P`, whether it returns or throws.
abbrev pub Keeps : {A : Type 0} → (Db → Type 0) → Action A → Type 0
Keeps {A} P m = Triple {A = A} P (λ _. P) P m

-- The method keeps `P`, and what it returns has the property `F`.
abbrev pub KeepsAnd : {A : Type 0} → (Db → Type 0) → (A → Type 0) → Action A → Type 0
KeepsAnd {A} P F m = Triple {A = A} P (λ a db. F a × P db) P m

module _ {A : Type 0} where
  pub pure-Keeps : {P : Db → Type 0} (a : A) → Keeps P (pure a)
  pure-Keeps a = record { apply = λ db p. p }

  pub pure-KeepsAnd : {P : Db → Type 0} (F : A → Type 0) (a : A) → F a → KeepsAnd P F (pure a)
  pure-KeepsAnd F a f = record { apply = λ db p. (f, p) }

  pub raise-Keeps : {P : Db → Type 0} {Q : A → Db → Type 0} (e : Error) → Triple P Q P (raise e)
  raise-Keeps e = record { apply = λ db p. p }

  pub lift-Keeps : {P : Db → Type 0} (r : Result A) → Keeps P (lift r)
  lift-Keeps (ok a) = record { apply = λ db p. p }
  lift-Keeps (err e) = record { apply = λ db p. p }

  pub lift-KeepsAnd : {P : Db → Type 0} (r : Result A) → KeepsAnd P (λ a. r ≡ ok a) (lift r)
  lift-KeepsAnd (ok a) = record { apply = λ db p. (refl, p) }
  lift-KeepsAnd (err e) = record { apply = λ db p. p }

  pub gets-Keeps : {P : Db → Type 0} (f : Db → A) → Keeps P (gets f)
  gets-Keeps f = record { apply = λ db p. p }

  pub or_raise-Keeps :
      {P : Db → Type 0} (o : Option A) (e : Error) → KeepsAnd P (λ a. o ≡ some a) (or_raise o e)
  or_raise-Keeps none e = record { apply = λ db p. p }
  or_raise-Keeps (some a) e = record { apply = λ db p. (refl, p) }

  -- A Prisma transaction that throws leaves the state in which it began.
  pub atomic-Triple :
      {P : Db → Type 0} {Q : A → Db → Type 0} {E : Db → Type 0} {m : Action A}
      → Triple P Q E m
      → Triple P Q P (atomic m)
  atomic-Triple {P} {Q} {E} {m} h = record { apply = λ db p. go db p (m db) (h.apply db p) }
    where
      go :
          (db : Db)
          → P db
          → (r : Result A × Db) → Post Q E r
          → Post Q P (let (r', db') = r in elim r' [ ok a ↦ (ok a, db') | err e ↦ (err e, db) ])
      go db p (ok a, db') q = q
      go db p (err e, db') q = p

  pub catch-Triple :
      {P E F : Db → Type 0} {Q : A → Db → Type 0} {m : Action A} {k : Error → Action A}
      → Triple P Q E m
      → ((e : Error) → Triple E Q F (k e))
      → Triple P Q F (catch m k)
  catch-Triple {P} {E} {F} {Q} {m} {k} h c = record { apply = λ db p. go (m db) (h.apply db p) }
    where
      go :
          (r : Result A × Db)
          → Post Q E r
          → Post Q F (let (r', db') = r in elim r' [ ok a ↦ (ok a, db') | err e ↦ k e db' ])
      go (ok a, db') q = q
      go (err e, db') p = (c e).apply db' p

pub bind-Triple :
    {A B : Type 0} {P E : Db → Type 0} {Q : A → Db → Type 0} {R : B → Db → Type 0} {m : Action A}
    {f : A → Action B}
    → Triple P Q E m
    → ((a : A) → Triple (Q a) R E (f a))
    → Triple P R E (m >>= f)
bind-Triple {A} {B} {P} {E} {Q} {R} {m} {f} h k = record {
  apply = λ db p. go (m db) (h.apply db p);
}
  where
    go :
        (r : Result A × Db)
        → Post Q E r
        → Post R E (let (r', db') = r in elim r' [ ok a ↦ f a db' | err e ↦ (err e, db') ])
    go (ok a, db') q = (k a).apply db' q
    go (err e, db') p = p

pub then-Triple :
    {A B : Type 0} {P E M : Db → Type 0} {R : B → Db → Type 0} {m : Action A} {k : Action B}
    → Triple P (λ _. M) E m
    → Triple M R E k
    → Triple P R E (m >> k)
then-Triple h k = bind-Triple h (λ _. k)

-- What a method needs to know of the value that it is handed.
pub given-Triple :
    {A : Type 0} {P E : Db → Type 0} {G : Type 0} {Q : A → Db → Type 0} {m : Action A}
    → (G → Triple P Q E m)
    → Triple (λ db. G × P db) Q E m
given-Triple h = record { apply = λ db (g, p). (h g).apply db p }

pub raise_if-Keeps :
    {P : Db → Type 0} (b : Bool) (e : Error) → KeepsAnd P (λ _. b ≡ false) (raise_if b e)
raise_if-Keeps true e = record { apply = λ db p. p }
raise_if-Keeps false e = record { apply = λ db p. (refl, p) }

pub raise_if-Plain : {P : Db → Type 0} (b : Bool) (e : Error) → Keeps P (raise_if b e)
raise_if-Plain true e = record { apply = λ db p. p }
raise_if-Plain false e = record { apply = λ db p. p }

pub modify-Keeps :
    {P : Db → Type 0} (f : Db → Db) → ((db : Db) → P db → P (f db)) → Keeps P (modify f)
modify-Keeps f keep = record { apply = keep }

-- A method that changes nothing keeps everything.
pub readonly-Keeps :
    {A : Type 0} {P : Db → Type 0} (m : Action A) → ((db : Db) → (m db).1 ≡ db) → Keeps P m
readonly-Keeps {A} {P} m same = record { apply = λ db p. go db p (m db) (same db) }
  where
    go : (db : Db) → P db → (r : Result A × Db) → r.1 ≡ db → Post (λ _. P) P r
    go db p (ok a, db') e = subst P (sym e) p
    go db p (err e', db') e = subst P (sym e) p

-- By what the method comes to in the state at hand.
pub cases-Triple :
    {A : Type 0} {P E : Db → Type 0} {Q : A → Db → Type 0} (m : Action A)
    → ((db : Db) → P db → (x : Result A × Db) × (m db ≡ x) × Post Q E x)
    → Triple P Q E m
cases-Triple {A} {P} {E} {Q} m f = record {
  apply = λ db p. let (x, e, q) = f db p in subst (Post Q E) (sym e) q;
}

pub if-Triple :
    {A : Type 0} {P E : Db → Type 0} {Q : A → Db → Type 0} (b : Bool) {m k : Action A}
    → Triple P Q E m
    → Triple P Q E k
    → Triple P Q E (if b then m else k)
if-Triple true h g = h
if-Triple false h g = g

pub Triple-mono :
    {A : Type 0} {P E F : Db → Type 0} {Q R : A → Db → Type 0} {m : Action A}
    → Triple P Q E m
    → ((a : A) (db : Db) → Q a db → R a db)
    → ((db : Db) → E db → F db)
    → Triple P R F m
Triple-mono {A} {P} {E} {F} {Q} {R} {m} h w v = record { apply = λ db p. go (m db) (h.apply db p) }
  where
    go : (r : Result A × Db) → Post Q E r → Post R F r
    go (ok a, db) q = w a db q
    go (err e, db) p = v db p
