-- ===== src/Lease/Holding.antt =====
-- A lease over time: requests of several processes, in any order and whatever the database does.
use aurium.Base.{
  ◌≡◌, Bool, true, false, some, List, [], ◌∷◌, Text, text_eq, text_eq_sound, ◌∙◌, All, arith, inl,
  inr, Bool-cases, any,
}
use aurium.Base.Int.{ℤ, ◌≤ℤ◌}
use aurium.Db.{Result, ok, failed, err, Faults, statement}
use aurium.Db.Rules.{Post}
use aurium.Lease.{
  Stamp, at, corrupt, Lease, Tables, LeaseError, is_live, lease_of, is_held_by, acquire_lease,
  release_lease, renew_lease,
}
use aurium.Lease.Rows.{lease_of-release, lease_of-renew}
use aurium.Lease.Exclusion.{IsOver, Grants, Keeps, acquire_lease_rule}

-- A call of the store by one process, with the clock that it reads.
pub data Request : Type 0 where
  acquire : Text → Text → Text → ℤ → ℤ → Request
  release : Text → Text → Request
  renew : Text → Text → ℤ → ℤ → Request

-- The tables and the faults that are left after a call.
abbrev rest : {A : Type 0} → Result LeaseError A × Tables × Faults → Tables × Faults
rest (_, s, fs) = (s, fs)

unfoldable pub serve : Request → Tables → Faults → Tables × Faults
unfolding acquire_lease release_lease renew_lease
serve (acquire c h op ttl now) s fs = rest (acquire_lease c h op ttl now s fs)
serve (release c h) s fs = rest (release_lease c h s fs)
serve (renew c h ttl now) s fs = rest (renew_lease c h ttl now s fs)

unfoldable pub serve_all : List Request → Tables → Faults → Tables × Faults
unfolding serve
serve_all [] s fs = (s, fs)
serve_all (r ∷ rs) s fs = let (s', fs') = serve r s fs in serve_all rs s' fs'

-- Who makes a call, and by what clock an acquisition judges a lease.
abbrev pub IsByOther : Text → ℤ → Request → Type 0
IsByOther h latest (acquire _ _ _ _ now) = now ≤ℤ latest
IsByOther h latest (release _ k) = text_eq k h ≡ false
IsByOther h latest (renew _ k _ _) = text_eq k h ≡ false

live_earlier :
    (now latest : ℤ) (x : Stamp) → now ≤ℤ latest → is_live latest x ≡ true → is_live now x ≡ true
live_earlier now latest (at t) h l = ground arith
live_earlier now latest (corrupt t) h l = cc

module _ (c : Text) (l : Lease) (latest : ℤ) (live : is_live latest l.expires_at ≡ true) where
  abbrev Holds : Tables → Type 0
  Holds s = lease_of c s.leases ≡ some l

  not_over :
      (d : Text) (now : ℤ) (s : Tables)
      → now ≤ℤ latest
      → Holds s
      → IsOver now (lease_of d s.leases)
      → text_eq d c ≡ false
  not_over d now s early e o = elim (Bool-cases (text_eq d c)) [
    | inl same ↦ absurd (
        clash (rw (text_eq_sound d c same, e) at o)
          (live_earlier now latest l.expires_at early live))
    | inr other ↦ other
  ]
    where
      clash : {b : Bool} → b ≡ false → b ≡ true → ⊥
      clash p q = cc

  module _ (d h op : Text) (ttl now : ℤ) (s : Tables) (early : now ≤ℤ latest) (e : Holds s) where
    keep_of_Post :
        (o : Result LeaseError Lease × Tables × Faults)
        → Post (Grants d h op ttl now s) (Keeps d h op ttl now s) (λ t. t ≡ s) o
        → Holds (rest o).0
    keep_of_Post (ok a, t, fs) p = p.2.1 c (not_over d now s early e p.1) ∙ e
    keep_of_Post (failed, t, fs) p = rw p e
    keep_of_Post (err x, t, fs) p = rw p.1 e

    acquire-Holds : (fs : Faults) → Holds (rest (acquire_lease d h op ttl now s fs)).0
    acquire-Holds fs =
        keep_of_Post (acquire_lease d h op ttl now s fs) (acquire_lease_rule d h op ttl now s fs)

  release-Holds :
      (d h : Text) (s : Tables) (fs : Faults)
      → text_eq h l.holder ≡ false
      → Holds s
      → Holds (rest (release_lease d h s fs)).0
  unfolding release_lease statement
  release-Holds d h s [] o e = lease_of-release c d h s.leases l e (inr o)
  release-Holds d h s (true ∷ fs) o e = e
  release-Holds d h s (false ∷ fs) o e = lease_of-release c d h s.leases l e (inr o)

  renew-Holds :
      (d h : Text) (ttl now : ℤ) (s : Tables) (fs : Faults)
      → text_eq h l.holder ≡ false
      → Holds s
      → Holds (rest (renew_lease d h ttl now s fs)).0
  unfolding renew_lease statement
  renew-Holds d h ttl now s [] o e = elim (Bool-cases (any (is_held_by d h) s.leases)) [
    | inl hit ↦ rw hit (lease_of-renew c d h _ s.leases l e (inr o))
    | inr miss ↦ rw miss (lease_of-renew c d h _ s.leases l e (inr o))
  ]
  renew-Holds d h ttl now s (true ∷ fs) o e = e
  renew-Holds d h ttl now s (false ∷ fs) o e = elim (Bool-cases (any (is_held_by d h) s.leases)) [
    | inl hit ↦ rw hit (lease_of-renew c d h _ s.leases l e (inr o))
    | inr miss ↦ rw miss (lease_of-renew c d h _ s.leases l e (inr o))
  ]

  serve-Holds :
      (r : Request) (s : Tables) (fs : Faults)
      → IsByOther l.holder latest r
      → Holds s
      → Holds (serve r s fs).0
  unfolding serve
  serve-Holds (acquire d h op ttl now) s fs o e = acquire-Holds d h op ttl now s o e fs
  serve-Holds (release d h) s fs o e = release-Holds d h s fs o e
  serve-Holds (renew d h ttl now) s fs o e = renew-Holds d h ttl now s fs o e

  -- A live lease stays its holder's: whatever calls other processes make, in any order, with any
  -- failures of the database, the row of its container is unchanged, as long as the acquisitions
  -- among them (by anyone) happen at a clock by which it is still live and no release or renewal
  -- names its holder.
  pub serve_all-Holds :
      (rs : List Request) (s : Tables) (fs : Faults)
      → All (IsByOther l.holder latest) rs
      → Holds s
      → Holds (serve_all rs s fs).0
  unfolding serve_all
  serve_all-Holds [] s fs o e = e
  serve_all-Holds (r ∷ rs) s fs o e =
      serve_all-Holds rs (serve r s fs).0 (serve r s fs).1 o.1 (serve-Holds r s fs o.0 e)
