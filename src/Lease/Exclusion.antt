-- ===== src/Lease/Exclusion.antt =====
-- One holder at a time: what `acquire_lease` does, however the database fails.
use aurium.Base.{
  ◌≡◌, refl, true, false, Option, none, some, Text, text_eq, text_eq_refl, text_eq_iff, any, ◌&&◌,
  arith, if◌then◌else◌, Bool-cases, inl, inr,
}
use aurium.Base.Int.{ℤ, ◌+ℤ◌}
use aurium.Db.{Faults, ◌>>◌, pure, statement, query}
use aurium.Db.Rules.{Post, statement_rule, query_rule, bind_rule, tx_rule}
use aurium.Lease.{
  at, Lease, Tables, LeaseError, held, is_live, lease_of, insert_lease, is_free, take_over,
  effective_ttl, acquire_lease,
}
use aurium.Lease.Rows.{lease_of-without}

-- The row that the tables hold for `c` is over at `now`, or there is none.
abbrev pub IsOver : ℤ → Option Lease → Type 0
IsOver now none = Unit
IsOver now (some l) = is_live now l.expires_at ≡ false

-- The refusal that names the holder of a live row.
abbrev pub Refuses : Text → ℤ → Option Lease → LeaseError → Type 0
Refuses c now none e = ⊥
Refuses c now (some l) e =
    (is_live now l.expires_at ≡ true) × (e ≡ held c l.holder l.operation l.expires_at)

-- Only the row of `c` differs, and in `t` it is `l`.
abbrev pub Takes : Text → Lease → Tables → Tables → Type 0
Takes c l s t =
    (lease_of c t.leases ≡ some l)
    × ((d : Text) → text_eq c d ≡ false → lease_of d t.leases ≡ lease_of d s.leases)

-- The same rows as `s`, for every container but `c`; at `c` none.
abbrev Cleared : Text → Tables → Tables → Type 0
Cleared c s t =
    (d : Text) → lease_of d t.leases ≡ (if text_eq c d then none else lease_of d s.leases)

module _ (c holder operation : Text) (ttl now : ℤ) (s : Tables) where
  abbrev pub granted : Lease
  granted = record {
    container = c;
    holder = holder;
    operation = operation;
    acquired_at = now;
    expires_at = at (now +ℤ effective_ttl ttl);
  }

  abbrev pub Grants : Lease → Tables → Type 0
  Grants l t = (l ≡ granted) × IsOver now (lease_of c s.leases) × Takes c l s t

  abbrev pub Keeps : LeaseError → Tables → Type 0
  Keeps e t = Refuses c now (lease_of c s.leases) e × (t ≡ s)

  take_over_rule :
      (row : Option Lease) (fs : Faults)
      → lease_of c s.leases ≡ row
      → Post
          (λ _ t. Cleared c s t × IsOver now (lease_of c s.leases))
          (λ e _. Keeps e s)
          (λ _. Unit)
          (take_over c now row s fs)
  unfolding take_over
  take_over_rule none fs h = (λ d. ground (arith, text_eq_iff c d), rw h tt)
  take_over_rule (some l) fs h = elim (Bool-cases (is_live now l.expires_at)) [
    | inl live ↦ rw (live, h) ((live, refl), refl)
    | inr over ↦ rw over (
        statement_rule _ (λ e _. Keeps e s) (λ _. Unit) _ s fs tt
          (λ d. lease_of-without c d s.leases, rw h over))
  ]

  insert_rule :
      (t : Tables) (fs : Faults)
      → Cleared c s t
      → IsOver now (lease_of c s.leases)
      → Post
          (λ _ u. Grants granted u)
          (λ e _. Keeps e s)
          (λ _. Unit)
          (statement (insert_lease granted) t fs)
  insert_rule t fs h o =
      statement_rule (λ _ u. Grants granted u) (λ e _. Keeps e s) (λ _. Unit) (insert_lease granted)
        t fs tt
        (elim (Bool-cases (any (text_eq c) t.containers && is_free (lease_of c t.leases))) [
          | inl free ↦ rw free (
            refl,
            o,
            (
              rw (text_eq_refl c) refl,
              λ d ne. ground (arith, h d, text_eq_iff c d, text_eq_iff d c),
            ),
          )
          | inr taken ↦ rw taken tt
        ])

  abbrev Read : Option Lease → Tables → Type 0
  Read row t = (lease_of c s.leases ≡ row) × (t ≡ s)

  store_rule :
      (t : Tables) (fs : Faults)
      → Cleared c s t × IsOver now (lease_of c s.leases)
      → Post Grants
          (λ e _. Keeps e s)
          (λ _. Unit)
          ((statement (insert_lease granted) >> pure granted) t fs)
  store_rule t fs h =
      bind_rule Grants (λ e _. Keeps e s) (λ _. Unit) (λ (_ : Unit {0}) u. Grants granted u)
        (statement (insert_lease granted)) (λ _. pure granted) t fs (insert_rule t fs h.0 h.1)
        (λ _ u fs g. g)

  write_rule :
      (row : Option Lease) (t : Tables) (fs : Faults)
      → Read row t
      → Post Grants
          (λ e _. Keeps e s)
          (λ _. Unit)
          ((take_over c now row >> (statement (insert_lease granted) >> pure granted)) t fs)
  write_rule row t fs h = rw h.1 (
      bind_rule Grants (λ e _. Keeps e s) (λ _. Unit)
        (λ (_ : Unit {0}) t. Cleared c s t × IsOver now (lease_of c s.leases)) (take_over c now row)
        (λ _. statement (insert_lease granted) >> pure granted) s fs (take_over_rule row fs h.0)
        (λ _ t fs k. store_rule t fs k))

  -- Whatever the faults of the database: a lease is granted only if no live lease stands on the
  -- container, and then the container's row is the lease returned and no other container's row
  -- differs; an error names the live holder, and then, as after a failure of the database, the
  -- tables are as they were.
  pub acquire_lease_rule :
      (fs : Faults) → Post Grants Keeps (λ t. t ≡ s) (acquire_lease c holder operation ttl now s fs)
  unfolding acquire_lease
  acquire_lease_rule fs =
      tx_rule Grants Keeps (λ t. t ≡ s) _ s fs refl
        λ fs.
          bind_rule Grants (λ e _. Keeps e s) (λ _. Unit) Read (query (λ s. lease_of c s.leases))
            (λ row. take_over c now row >> (statement (insert_lease granted) >> pure granted)) s fs
            (query_rule Read (λ e _. Keeps e s) (λ _. Unit) (λ s. lease_of c s.leases) s fs tt
              (refl, refl))
            write_rule
