-- ===== src/Db/Keeps.antt =====
-- Programs of statements that keep a property of the tables, whatever the database refuses.
use aurium.Base.{Bool, true, false, [], ◌∷◌, if◌then◌else◌}
use aurium.Db.{
  Result, ok, failed, err, Faults, Sql, after, ◌>>=◌, statement, query, modify, ignored,
}
use aurium.Db.Rules.{Post}

module _ (E : Type 0) {S : Type 0} (P : S → Type 0) where
  -- The property holds afterwards, however the run ends.
  abbrev pub Always : {A : Type 0} → Result E A × S × Faults → Type 0
  Always = Post (λ _ t. P t) (λ _ t. P t) P

  abbrev pub Keeps : {A : Type 0} → Sql E S A → Type 0
  Keeps m = (s : S) (fs : Faults) → P s → Always (m s fs)

  pub Always_state : {A : Type 0} (o : Result E A × S × Faults) → Always o → P o.1
  Always_state (ok a, t, fs) h = h
  Always_state (failed, t, fs) h = h
  Always_state (err e, t, fs) h = h

  bind-Always :
      {A B : Type 0} (o : Result E A × S × Faults) (f : A → Sql E S B)
      → Always o
      → ((a : A) → Keeps (f a))
      → Always (after o f)
  bind-Always (ok a, t, fs) f h k = k a t fs h
  bind-Always (failed, t, fs) f h k = h
  bind-Always (err e, t, fs) f h k = h

  pub bind-Keeps :
      {A B : Type 0} (m : Sql E S A) (f : A → Sql E S B)
      → Keeps m
      → ((a : A) → Keeps (f a))
      → Keeps (m >>= f)
  bind-Keeps m f hm hf s fs h = bind-Always (m s fs) f (hm s fs h) hf

  reply-Always : {A : Type 0} (o : Result E A × S) (fs : Faults) → P o.1 → Always (o.0, o.1, fs)
  reply-Always (ok a, t) fs h = h
  reply-Always (failed, t) fs h = h
  reply-Always (err e, t) fs h = h

  pub statement-Keeps :
      {A : Type 0} (f : S → Result E A × S) → ((s : S) → P s → P (f s).1) → Keeps (statement f)
  unfolding statement
  statement-Keeps f k s [] h = reply-Always (f s) [] (k s h)
  statement-Keeps f k s (true ∷ fs) h = h
  statement-Keeps f k s (false ∷ fs) h = reply-Always (f s) fs (k s h)

  pub query-Keeps : {A : Type 0} (f : S → A) → Keeps (query f)
  query-Keeps f = statement-Keeps (λ s. (ok (f s), s)) (λ s h. h)

  pub modify-Keeps : (f : S → S) → ((s : S) → P s → P (f s)) → Keeps (modify f)
  modify-Keeps f k = statement-Keeps (λ s. (ok tt, f s)) k

  pub ignored-Keeps : {A : Type 0} (m : Sql E S A) → Keeps m → Keeps (ignored m)
  ignored-Keeps m k s fs h = Always_state (m s fs) (k s fs h)

  pub if-Keeps :
      {A : Type 0} (b : Bool) (m k : Sql E S A) → Keeps m → Keeps k → Keeps (if b then m else k)
  if-Keeps true m k hm hk s fs h = hm s fs h
  if-Keeps false m k hm hk s fs h = hk s fs h

  pub if-state :
      {A : Type 0} (b : Bool) (x y : Result E A × S) → P x.1 → P y.1 → P (if b then x else y).1
  if-state true x y hx hy = hx
  if-state false x y hx hy = hy
