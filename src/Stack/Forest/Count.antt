-- ===== src/Stack/Forest/Count.antt =====
-- How many rows a walk has not seen.
use aurium.Base.{
  ◌≡◌, ℕ, ◌≤◌, ◌<◌, Bool, true, false, not, ◌||◌, List, [], ◌∷◌, ◌++◌, Text, text_eq, any, select,
  length, arith, text_eq_sound,
}
use aurium.Stack.Forest.{Container, is_id}

abbrev pub In : Text → List Container → Type 0
In i ns = any (is_id i) ns ≡ true

abbrev pub unseen : List Container → List Container → ℕ
unseen out cs = length (select (λ (c : Container). not (any (is_id c.id) out)) cs)

pub In-append : (i : Text) (xs ys : List Container) → In i xs → In i (xs ++ ys)
In-append i [] ys h = cc
In-append i (x ∷ xs) ys h = ground (arith, In-append i xs ys)

pub any-snoc :
    (p : Container → Bool) (xs : List Container) (n : Container)
    → any p (xs ++ n ∷ []) ≡ (any p xs || p n)
any-snoc p [] n = ground arith
any-snoc p (x ∷ xs) n = ground (arith, any-snoc p xs n)

-- What is seen is a matter of the id.
pub In-same :
    (i j : Text) (ns : List Container) → text_eq i j ≡ true → any (is_id i) ns ≡ any (is_id j) ns
In-same i j ns h = let e : i ≡ j = text_eq_sound i j h in simp e

module _ (out more : List Container) (grows : (i : Text) → In i out → In i more) where
  pub unseen_mono : (cs : List Container) → unseen more cs ≤ unseen out cs
  unseen_mono [] = omega arith
  unseen_mono (c ∷ cs) = ground (arith, unseen_mono cs, grows c.id)

  pub unseen_less :
      (i : Text) (cs : List Container)
      → In i cs
      → any (is_id i) out ≡ false
      → In i more
      → unseen more cs < unseen out cs
  unseen_less i [] m o n = cc
  unseen_less i (c ∷ cs) m o n =
      ground (
        arith,
        unseen_less i cs,
        unseen_mono cs,
        In-same i c.id out,
        In-same i c.id more,
        grows c.id,
      )

-- Where nothing is unseen, all is seen.
pub unseen_none : (i : Text) (out cs : List Container) → In i cs → unseen out cs ≡ 0 → In i out
unseen_none i out [] m h = cc
unseen_none i out (c ∷ cs) m h = ground (arith, unseen_none i out cs, In-same i c.id out)
