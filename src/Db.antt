-- ===== src/Db.antt =====
-- The database as internal/store uses it: statements that may fail, and `Tx` of store.go.
--
-- SQLite is not part of the repository. A statement is a function of the tables, and a list of
-- faults says which statements the database refuses: `true` at the head makes the next statement
-- fail and leave the tables alone, and past the end of the list every statement is carried out.
pub mod Rules
pub mod Keeps
use aurium.Base.{Bool, true, false, Option, none, some, List, [], ◌∷◌}

-- `failed` is an error of the database itself; `err` one that the program makes.
pub data Result {ℓ κ} (E : Type ℓ) (A : Type κ) : Type (ℓ ⊔ κ) where
  ok : A → Result E A
  failed : Result E A
  err : E → Result E A

abbrev pub Faults : Type 0
Faults = List Bool

abbrev pub Sql : Type 0 → Type 0 → Type 0 → Type 0
Sql E S A = S → Faults → Result E A × S × Faults

module _ {E S : Type 0} where
  abbrev pub pure : {A : Type 0} → A → Sql E S A
  pure a s fs = (ok a, s, fs)

  abbrev pub raise : {A : Type 0} → E → Sql E S A
  raise e s fs = (err e, s, fs)

  -- What follows a run: nothing after an error.
  abbrev pub after :
      {A B : Type 0} → Result E A × S × Faults → (A → Sql E S B) → Result E B × S × Faults
  after (ok a, s, fs) f = f a s fs
  after (failed, s, fs) f = (failed, s, fs)
  after (err e, s, fs) f = (err e, s, fs)

  infixl 5 ◌>>=◌ ◌>>◌
  abbrev pub ◌>>=◌ : {A B : Type 0} → Sql E S A → (A → Sql E S B) → Sql E S B
  ◌>>=◌ m f s fs = after (m s fs) f

  abbrev pub ◌>>◌ : {A B : Type 0} → Sql E S A → Sql E S B → Sql E S B
  m >> k = m >>= λ _. k

  -- One statement; a broken constraint is its `failed`.
  unfoldable pub statement : {A : Type 0} → (S → Result E A × S) → Sql E S A
  statement f s [] = let (r, s') = f s in (r, s', [])
  statement f s (false ∷ fs) = let (r, s') = f s in (r, s', fs)
  statement f s (true ∷ fs) = (failed, s, fs)

  abbrev pub query : {A : Type 0} → (S → A) → Sql E S A
  query f = statement (λ s. (ok (f s), s))

  abbrev pub modify : (S → S) → Sql E S (Unit {0})
  modify f = statement (λ s. (ok tt, f s))

  -- `_ =` and `_, _ =`: what a call returns is thrown away.
  abbrev pub ignored : {A : Type 0} → Sql E S A → Sql E S (Unit {0})
  ignored m s fs = let (r, t, gs) = m s fs in (ok tt, t, gs)

  -- The commit: refused, it rolls the tables back to `s`.
  commit : {A : Type 0} → S → A → Sql E S A
  commit s a t [] = (ok a, t, [])
  commit s a t (false ∷ fs) = (ok a, t, fs)
  commit s a t (true ∷ fs) = (failed, s, fs)

  -- How `Tx` ends: an error of the callback, or of the commit, rolls the tables back to `s`.
  settle : {A : Type 0} → S → Result E A × S × Faults → Result E A × S × Faults
  settle s (ok a, t, fs) = commit s a t fs
  settle s (failed, t, fs) = (failed, s, fs)
  settle s (err e, t, fs) = (err e, s, fs)

  -- `Tx`: begin, upgrade to a write transaction, run the callback, and commit or roll back.
  unfoldable pub tx : {A : Type 0} → Sql E S A → Sql E S A
  unfolding settle commit statement
  tx m = do query (λ s. tt); query (λ s. tt); λ s fs. settle s (m s fs)

-- What a call returned, where its caller only asks whether there was an error.
abbrev pub value : {E A : Type 0} → Result E A → Option A
value (ok a) = some a
value failed = none
value (err e) = none

-- A call on a part of the tables.
abbrev pub inside : {E E' S T A : Type 0} → (S → T) → (T → S → S) → Sql E T A → Sql E' S (Option A)
inside get put m s fs = let (r, t, gs) = m (get s) fs in (ok (value r), put t s, gs)

-- An error that is passed on.
abbrev pub or_failed : {E S A : Type 0} → Option A → Sql E S A
or_failed none s fs = (failed, s, fs)
or_failed (some a) s fs = (ok a, s, fs)

-- A call on a part of the tables, whose caller looks at the error.
abbrev pub answered :
    {E E' S T A : Type 0} → (S → T) → (T → S → S) → Sql E T A → Sql E' S (Result E A)
answered get put m s fs = let (r, t, gs) = m (get s) fs in (ok r, put t s, gs)
