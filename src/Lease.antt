-- ===== src/Lease.antt =====
-- Worktree leases: internal/store/leases.go over the table of migrations/0002_leases.sql.
--
-- Instants and durations are integers, in nanoseconds; the clock is an argument. An expiry is
-- stored as text: `at` is a text that parses to an instant, `corrupt` one that does not parse.
pub mod Rows
pub mod Exclusion
pub mod Holding
pub mod Within
mod Tests
use aurium.Base.{
  Bool, true, false, not, ◌&&◌, Option, none, some, List, ◌∷◌, Text, text_eq, find, select, any,
  map, if◌then◌else◌, zero, suc,
}
use aurium.Base.Int.{ℤ, pos, negsuc, ◌+ℤ◌, ltb_ℤ}
use aurium.Db.{Result, ok, failed, Sql, pure, raise, ◌>>=◌, ◌>>◌, statement, query, modify, tx}

pub data Stamp : Type 0 where
  at : ℤ → Stamp
  corrupt : Text → Stamp

-- `Lease`
pub record Lease : Type 0 where
  pub container : Text
  pub holder : Text
  pub operation : Text
  pub acquired_at : ℤ
  pub expires_at : Stamp

-- The two tables that the statements read: a lease's container must exist.
pub record Tables : Type 0 where
  pub containers : List Text
  pub leases : List Lease

-- `ErrLeaseHeld`, `ErrNotFound`, and the error of `RenewLease`; `other` is an error of a callback.
pub data LeaseError : Type 0 where
  held : Text → Text → Text → Stamp → LeaseError
  not_found : LeaseError
  lost : Text → Text → LeaseError
  other : Text → LeaseError

-- `DefaultLeaseTTL`, five minutes
abbrev pub default_ttl : ℤ
default_ttl = pos 300_000_000_000

-- Only an explicit zero means the default.
abbrev pub effective_ttl : ℤ → ℤ
effective_ttl (pos zero) = default_ttl
effective_ttl (pos (suc n)) = pos (suc n)
effective_ttl (negsuc n) = negsuc n

-- `now.Before(expiry)`; an expiry that does not parse is over.
abbrev pub is_live : ℤ → Stamp → Bool
is_live now (at t) = ltb_ℤ now t
is_live now (corrupt _) = false

abbrev pub lease_of : Text → List Lease → Option Lease
lease_of c = find (λ l. text_eq c l.container)

abbrev pub without : Text → List Lease → List Lease
without c = select (λ l. not (text_eq c l.container))

abbrev pub is_free : Option Lease → Bool
is_free none = true
is_free (some _) = false

-- `INSERT INTO leases`: the container is the primary key, and must be a known one.
abbrev pub insert_lease : Lease → Tables → Result LeaseError (Unit {0}) × Tables
insert_lease l s =
    if any (text_eq l.container) s.containers && is_free (lease_of l.container s.leases)
    then (ok tt, record s { leases = l ∷ s.leases })
    else (failed, s)

-- The three cases of the row that `AcquireLease` reads.
take_over : Text → ℤ → Option Lease → Sql LeaseError Tables (Unit {0})
take_over c now none = pure tt
take_over c now (some l) =
    if is_live now l.expires_at
    then raise (held c l.holder l.operation l.expires_at)
    else modify (λ s. record s { leases = without c s.leases })

unfoldable pub acquire_lease : Text → Text → Text → ℤ → ℤ → Sql LeaseError Tables Lease
unfolding take_over
acquire_lease c holder operation ttl now =
    let lease : Lease = record {
      container = c;
      holder = holder;
      operation = operation;
      acquired_at = now;
      expires_at = at (now +ℤ effective_ttl ttl);
    } in
    tx (do
      row ← query (λ (s : Tables). lease_of c s.leases)
      take_over c now row
      statement (insert_lease lease)
      pure lease)

abbrev pub is_held_by : Text → Text → Lease → Bool
is_held_by c holder l = text_eq c l.container && text_eq holder l.holder

-- `ReleaseLease` deletes the row only if it names this holder.
unfoldable pub release_lease : Text → Text → Sql LeaseError Tables (Unit {0})
release_lease c holder =
    modify (λ s. record s { leases = select (λ l. not (is_held_by c holder l)) s.leases })

-- `UPDATE leases SET expires_at = …`
abbrev pub renew_row : Text → Text → Stamp → Lease → Lease
renew_row c holder stamp l = if is_held_by c holder l then record l { expires_at = stamp } else l

-- `RenewLease`; the number of rows that the update meets says whether the lease is still owned.
unfoldable pub renew_lease : Text → Text → ℤ → ℤ → Sql LeaseError Tables (Unit {0})
renew_lease c holder ttl now =
    let stamp = at (now +ℤ effective_ttl ttl) in
    do
      hit ← statement (λ s. (
        ok (any (is_held_by c holder) s.leases),
        record s { leases = map (renew_row c holder stamp) s.leases },
      ))
      if hit then pure tt else raise (lost holder c)

abbrev or_not_found : Option Lease → Sql LeaseError Tables Lease
or_not_found none = raise not_found
or_not_found (some l) = pure l

-- `GetLease`
unfoldable pub get_lease : Text → Sql LeaseError Tables Lease
get_lease c = do row ← query (λ (s : Tables). lease_of c s.leases); or_not_found row

-- The deferred release of `WithLease`: its own error is dropped.
abbrev let_go :
    Text
    → Text
    → Result LeaseError (Unit {0}) × Tables × List Bool
    → Result LeaseError (Unit {0}) × Tables × List Bool
let_go c holder (r, s, fs) = let (_, s', fs') = release_lease c holder s fs in (r, s', fs')

-- `WithLease`: the callback runs between the two, and its error is the result.
unfoldable pub with_lease :
    Text → Text → Text → ℤ → Sql LeaseError Tables (Unit {0}) → Sql LeaseError Tables (Unit {0})
unfolding acquire_lease release_lease
with_lease c holder operation now fn = do
  acquire_lease c holder operation default_ttl now
  λ s fs. let_go c holder (fn s fs)
