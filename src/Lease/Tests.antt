-- ===== src/Lease/Tests.antt =====
-- Leases on concrete tables.
use aurium.Base.{◌≡◌, refl, true, false, some, [], ◌∷◌, Text, codes, text_eq, List, arith}
use aurium.Base.Int.{pos, negsuc, ◌+ℤ◌}
use aurium.Db.{ok, err, Sql, statement, modify, tx}
use aurium.Db.Rules.{Post}
use aurium.Lease.{at, Lease, Tables, LeaseError, held, lease_of, acquire_lease, with_lease}
use aurium.Lease.Exclusion.{Grants, Keeps, acquire_lease_rule}
use aurium.Lease.Holding.{Request, acquire, release, renew, serve_all, serve_all-Holds}
use aurium.Lease.Within.{with_lease_busy, with_lease_runs, IsLetGo}

abbrev cli : Text
cli = codes "cli/pid-7"

abbrev daemon : Text
daemon = codes "auriumd/pid-2"

abbrev box : Text
box = codes "c_1"

abbrev by_cli : Lease
by_cli = record {
  container = box;
  holder = cli;
  operation = codes "sync";
  acquired_at = pos 10;
  expires_at = at (pos 100);
}

abbrev busy : Tables
busy = record { containers = box ∷ codes "c_2" ∷ []; leases = by_cli ∷ [] }

acquire_busy :
    acquire_lease box daemon (codes "sync") (pos 5) (pos 50) busy []
    ≡ (err (held box cli (codes "sync") (at (pos 100))), busy, [])
unfolding acquire_lease statement tx text_eq
acquire_busy = refl

-- A negative duration gives a lease that is over at once.
acquire_negative :
    (acquire_lease box daemon (codes "gc") (negsuc 4) (pos 200) busy []).1.leases
    ≡ record {
      container = box;
      holder = daemon;
      operation = codes "gc";
      acquired_at = pos 200;
      expires_at = at (pos 195);
    }
      ∷ []
unfolding acquire_lease statement ◌+ℤ◌ tx text_eq
acquire_negative = refl

acquire_lease_rule_example :
    Post
      (Grants box daemon (codes "sync") (pos 5) (pos 200) busy)
      (Keeps box daemon (codes "sync") (pos 5) (pos 200) busy)
      (λ t. t ≡ busy)
      (acquire_lease box daemon (codes "sync") (pos 5) (pos 200) busy (false ∷ true ∷ []))
acquire_lease_rule_example =
    acquire_lease_rule box daemon (codes "sync") (pos 5) (pos 200) busy (false ∷ true ∷ [])

abbrev others : List Request
others =
    acquire box daemon (codes "sync") (pos 5) (pos 50)
    ∷ release box daemon
    ∷ renew box daemon (pos 5) (pos 60)
    ∷ acquire (codes "c_2") daemon (codes "sync") (pos 5) (pos 99)
    ∷ []

serve_all-Holds_example :
    lease_of box (serve_all others busy (false ∷ true ∷ [])).0.leases ≡ some by_cli
unfolding text_eq
serve_all-Holds_example =
    serve_all-Holds box by_cli (pos 99) refl others busy (false ∷ true ∷ [])
      (omega arith, (refl, (refl, (omega arith, tt)))) refl

-- A callback that forgets every container.
abbrev forget : Sql LeaseError Tables (Unit {0})
forget = modify (λ s. record s { containers = [] })

with_lease_busy_example :
    with_lease box daemon (codes "sync") (pos 50) forget busy []
    ≡ (err (held box cli (codes "sync") (at (pos 100))), busy, [])
unfolding text_eq
with_lease_busy_example =
    with_lease_busy box daemon (codes "sync") (pos 50) forget busy {l = by_cli} refl refl

with_lease_runs_example :
    let (r, t, fs) = with_lease box daemon (codes "sync") (pos 150) forget busy [] in
    (r ≡ ok tt) × IsLetGo box daemon t.leases
unfolding statement text_eq
with_lease_runs_example =
    with_lease_runs box daemon (codes "sync") (pos 150) forget busy refl refl (ok tt) _ refl
