-- ===== src/Lease/Within.antt =====
-- `with_lease`: when the callback runs, and what is left behind it.
use aurium.Base.{
  ◌≡◌, refl, true, false, Option, none, some, List, [], ◌∷◌, Text, text_eq, text_eq_refl, arith,
  not, select, any,
}
use aurium.Base.Int.{ℤ}
use aurium.Db.{Result, ok, err, Sql, statement, tx}
use aurium.Lease.{
  Lease, Tables, LeaseError, held, is_live, lease_of, without, is_held_by, take_over, acquire_lease,
  release_lease, default_ttl, with_lease,
}
use aurium.Lease.Rows.{lease_of-without}
use aurium.Lease.Exclusion.{granted, IsOver}

-- No row of `c` names `holder`.
abbrev pub IsLetGo : Text → Text → List Lease → Type 0
IsLetGo c holder ls = any (is_held_by c holder) ls ≡ false

let_go_lem :
    (c holder : Text) (ls : List Lease)
    → IsLetGo c holder (select (λ l. not (is_held_by c holder l)) ls)
let_go_lem c holder [] = refl
let_go_lem c holder (l ∷ ls) = ground (arith, let_go_lem c holder ls)

module _ (c holder operation : Text) (now : ℤ) (fn : Sql LeaseError Tables (Unit {0}))
    (s : Tables) where
  -- While a live lease stands on the container, and the database fails nowhere, the callback is not
  -- run: the holder is named and nothing changes.
  pub with_lease_busy :
      {l : Lease}
      → lease_of c s.leases ≡ some l
      → is_live now l.expires_at ≡ true
      → with_lease c holder operation now fn s []
        ≡ (err (held c l.holder l.operation l.expires_at), s, [])
  unfolding with_lease tx statement
  with_lease_busy {l} e live = rw (e, take_over) (rw live)

  abbrev cleared : Option Lease → List Lease
  cleared none = s.leases
  cleared (some _) = without c s.leases

  -- The tables while the callback runs.
  abbrev taken : Tables
  taken = record s {
    leases = granted c holder operation default_ttl now s ∷ cleared (lease_of c s.leases);
  }

  acquire_lease-taken :
      (row : Option Lease)
      → lease_of c s.leases ≡ row
      → any (text_eq c) s.containers ≡ true
      → IsOver now row
      → acquire_lease c holder operation default_ttl now s [] ≡ (
        ok (granted c holder operation default_ttl now s),
        record s { leases = granted c holder operation default_ttl now s ∷ cleared row },
        [],
      )
  unfolding acquire_lease tx statement
  acquire_lease-taken none e known over = rw (e, take_over) (rw (known, e))
  acquire_lease-taken (some l) e known over =
      rw (e, take_over) (rw over (rw (known, lease_of-without c c s.leases) (rw (text_eq_refl c))))

  -- On a known container that is free, or whose lease is over, with a database that fails nowhere, the
  -- callback runs with the lease held. Whatever it returns, and whatever it did to the tables, its
  -- result is the result, and afterwards the caller holds no lease on the container.
  pub with_lease_runs :
      any (text_eq c) s.containers ≡ true
      → IsOver now (lease_of c s.leases)
      → (r : Result LeaseError (Unit {0})) (t : Tables) → fn taken [] ≡ (r, t, [])
      → let (r', t', fs') = with_lease c holder operation now fn s [] in
        (r' ≡ r) × IsLetGo c holder t'.leases
  unfolding with_lease release_lease statement
  with_lease_runs known over r t run =
      rw (acquire_lease-taken (lease_of c s.leases) refl known over, run)
        (refl, let_go_lem c holder t.leases)
