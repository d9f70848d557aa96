-- ===== src/Db/Rules.antt =====
-- Rules for database code: what holds of a run however the database fails.
use aurium.Base.{true, false, [], ◌∷◌}
use aurium.Db.{
  Result, ok, failed, err, Faults, Sql, after, ◌>>=◌, statement, query, tx, settle, commit,
}

-- What is asked of a run: `Q` of a result, `X` of an error of the program, `F` of a failure.
module _ {E S A : Type 0} (Q : A → S → Type 0) (X : E → S → Type 0) (F : S → Type 0) where
  abbrev pub Post : Result E A × S × Faults → Type 0
  Post (ok a, s, _) = Q a s
  Post (failed, s, _) = F s
  Post (err e, s, _) = X e s

  abbrev pub Reply : Result E A × S → Type 0
  Reply (ok a, s) = Q a s
  Reply (failed, s) = F s
  Reply (err e, s) = X e s

  pub statement_rule :
      (f : S → Result E A × S) (s : S) (fs : Faults) → F s → Reply (f s) → Post (statement f s fs)
  unfolding statement
  statement_rule f s [] h r = reply (f s) r
    where
      reply : (o : Result E A × S) → Reply o → Post (o.0, o.1, [])
      reply (ok a, t) h = h
      reply (failed, t) h = h
      reply (err e, t) h = h
  statement_rule f s (true ∷ fs) h r = h
  statement_rule f s (false ∷ fs) h r = reply (f s) r
    where
      reply : (o : Result E A × S) → Reply o → Post (o.0, o.1, fs)
      reply (ok a, t) h = h
      reply (failed, t) h = h
      reply (err e, t) h = h

  pub query_rule : (f : S → A) (s : S) (fs : Faults) → F s → Q (f s) s → Post (query f s fs)
  query_rule f s fs h q = statement_rule (λ s. (ok (f s), s)) s fs h q

module _ {E S A B : Type 0} (Q : B → S → Type 0) (X : E → S → Type 0) (F : S → Type 0) where
  after_rule :
      (M : A → S → Type 0) (o : Result E A × S × Faults) (f : A → Sql E S B)
      → Post M X F o
      → ((a : A) (s : S) (fs : Faults) → M a s → Post Q X F (f a s fs))
      → Post Q X F (after o f)
  after_rule M (ok a, s, fs) f h k = k a s fs h
  after_rule M (failed, s, fs) f h k = h
  after_rule M (err e, s, fs) f h k = h

  pub bind_rule :
      (M : A → S → Type 0) (m : Sql E S A) (f : A → Sql E S B) (s : S) (fs : Faults)
      → Post M X F (m s fs)
      → ((a : A) (s : S) (fs : Faults) → M a s → Post Q X F (f a s fs))
      → Post Q X F ((m >>= f) s fs)
  bind_rule M m f s fs h k = after_rule M (m s fs) f h k

module _ {E S A : Type 0} (Q : A → S → Type 0) (X : E → S → Type 0) (F : S → Type 0) where
  commit_rule : (s t : S) (a : A) (fs : Faults) → F s → Q a t → Post Q X F (commit {E = E} s a t fs)
  unfolding commit
  commit_rule s t a [] h q = q
  commit_rule s t a (false ∷ fs) h q = q
  commit_rule s t a (true ∷ fs) h q = h

  settle_rule :
      (s : S) (o : Result E A × S × Faults)
      → F s
      → Post Q (λ e _. X e s) (λ _. Unit) o
      → Post Q X F (settle s o)
  unfolding settle
  settle_rule s (ok a, t, fs) h q = commit_rule s t a fs h q
  settle_rule s (failed, t, fs) h q = h
  settle_rule s (err e, t, fs) h q = q

  -- A transaction: what its callback does before it is refused is not seen.
  pub tx_rule :
      (m : Sql E S A) (s : S) (fs : Faults)
      → F s
      → ((fs : Faults) → Post Q (λ e _. X e s) (λ _. Unit) (m s fs))
      → Post Q X F (tx m s fs)
  unfolding tx statement
  tx_rule m s [] h k = settle_rule s (m s []) h (k [])
  tx_rule m s (true ∷ fs) h k = h
  tx_rule m s (false ∷ []) h k = settle_rule s (m s []) h (k [])
  tx_rule m s (false ∷ true ∷ fs) h k = h
  tx_rule m s (false ∷ false ∷ fs) h k = settle_rule s (m s fs) h (k fs)

module _ {E S A : Type 0} {Q Q' : A → S → Type 0} {X X' : E → S → Type 0} {F F' : S → Type 0} where
  -- A rule's conclusion may be made weaker.
  pub Post-mono :
      (o : Result E A × S × Faults)
      → ((a : A) (s : S) → Q a s → Q' a s)
      → ((e : E) (s : S) → X e s → X' e s)
      → ((s : S) → F s → F' s)
      → Post Q X F o
      → Post Q' X' F' o
  Post-mono (ok a, s, fs) q x f h = q a s h
  Post-mono (failed, s, fs) q x f h = f s h
  Post-mono (err e, s, fs) q x f h = x e s h
