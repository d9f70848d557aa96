-- ===== src/Lease/Rows.antt =====
-- What each statement on the lease table does to the row of one container.
use aurium.Base.{
  ◌≡◌, refl, Bool, false, not, none, some, List, [], ◌∷◌, map, Text, text_eq, text_eq_iff, select,
  arith, if◌then◌else◌, ◌⊎◌,
}
use aurium.Lease.{Stamp, Lease, lease_of, without, is_held_by, renew_row}

-- Deleting a container's rows hides them, and no others.
pub lease_of-without :
    (c d : Text) (ls : List Lease)
    → lease_of d (without c ls) ≡ (if text_eq c d then none else lease_of d ls)
lease_of-without c d [] = ground arith
lease_of-without c d (l ∷ ls) = ground (
  arith,
  lease_of-without c d ls,
  text_eq_iff c d,
  text_eq_iff c l.container,
  text_eq_iff d l.container,
)

-- A container has one lease at most.
abbrev pub IsUnique : List Lease → Type 0
IsUnique [] = Unit
IsUnique (l ∷ ls) = (lease_of l.container ls ≡ none) × IsUnique ls

-- A selection shows no row that was not there.
pub lease_of-select-none :
    (p : Lease → Bool) (d : Text) (ls : List Lease)
    → lease_of d ls ≡ none
    → lease_of d (select p ls) ≡ none
lease_of-select-none p d [] h = refl
lease_of-select-none p d (l ∷ ls) h = ground (arith, lease_of-select-none p d ls)

pub select-IsUnique : (p : Lease → Bool) (ls : List Lease) → IsUnique ls → IsUnique (select p ls)
select-IsUnique p [] h = tt
select-IsUnique p (l ∷ ls) h =
    ground (arith, select-IsUnique p ls, lease_of-select-none p l.container ls)

-- A release by another holder leaves the row of `c` alone.
pub lease_of-release :
    (c d holder : Text) (ls : List Lease) (l : Lease)
    → lease_of c ls ≡ some l
    → (text_eq d c ≡ false) ⊎ (text_eq holder l.holder ≡ false)
    → lease_of c (select (λ l. not (is_held_by d holder l)) ls) ≡ some l
lease_of-release c d holder [] l e h = cc
lease_of-release c d holder (k ∷ ls) l e h = ground (
  arith,
  lease_of-release c d holder ls l,
  text_eq_iff c k.container,
  text_eq_iff d k.container,
  text_eq_iff d c,
)

-- So does a renewal by another holder.
pub lease_of-renew :
    (c d holder : Text) (stamp : Stamp) (ls : List Lease) (l : Lease)
    → lease_of c ls ≡ some l
    → (text_eq d c ≡ false) ⊎ (text_eq holder l.holder ≡ false)
    → lease_of c (map (renew_row d holder stamp) ls) ≡ some l
lease_of-renew c d holder stamp [] l e h = cc
lease_of-renew c d holder stamp (k ∷ ls) l e h = ground (
  arith,
  lease_of-renew c d holder stamp ls l,
  text_eq_iff c k.container,
  text_eq_iff d k.container,
  text_eq_iff d c,
)
