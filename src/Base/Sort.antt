-- ===== src/Base/Sort.antt =====
-- Insertion sort by a test, which keeps the order of what the test does not tell apart.
use Prim.Native.Nat.{suc}
use mathlib.Core.Path.{◌≡◌, refl}
use mathlib.Core.Bool.{Bool, true, false, ◌||◌}
use mathlib.Core.List.{List, [], ◌∷◌}
use native.Mathlib.Omega.{arith}
use aurium.Base.Tests.{if◌then◌else◌}
use aurium.Base.Lists.{All, length, any}

module _ {ℓ} {A : Type ℓ} (lt : A → A → Bool) where
  abbrev pub insert_by : A → List A → List A
  insert_by x [] = x ∷ []
  insert_by x (y ∷ ys) = let rest = insert_by x ys in if lt y x then y ∷ rest else x ∷ y ∷ ys

  abbrev pub sort_by : List A → List A
  sort_by [] = []
  sort_by (x ∷ xs) = insert_by x (sort_by xs)

  pub length-insert_by : (x : A) (ys : List A) → length (insert_by x ys) ≡ suc (length ys)
  length-insert_by x [] = refl
  length-insert_by x (y ∷ ys) = ground (arith, length-insert_by x ys)

  pub length-sort_by : (xs : List A) → length (sort_by xs) ≡ length xs
  length-sort_by [] = refl
  length-sort_by (x ∷ xs) = omega (arith, length-insert_by x (sort_by xs), length-sort_by xs)

  module _ (p : A → Bool) where
    pub any-insert_by : (x : A) (ys : List A) → any p (insert_by x ys) ≡ (p x || any p ys)
    any-insert_by x [] = refl
    any-insert_by x (y ∷ ys) = ground (arith, any-insert_by x ys)

    pub any-sort_by : (xs : List A) → any p (sort_by xs) ≡ any p xs
    any-sort_by [] = refl
    any-sort_by (x ∷ xs) = ground (arith, any-insert_by x (sort_by xs), any-sort_by xs)

module _ {ℓ κ} {A : Type ℓ} (lt : A → A → Bool) (P : A → Type κ) where
  All-kept :
      (b : Bool) (x y : A) (ys zs : List A)
      → P x
      → All P (y ∷ ys)
      → All P zs
      → All P (if b then y ∷ zs else x ∷ y ∷ ys)
  All-kept true x y ys zs h hs k = (hs.0, k)
  All-kept false x y ys zs h hs k = (h, hs)

  All-insert_by : (x : A) (ys : List A) → P x → All P ys → All P (insert_by lt x ys)
  All-insert_by x [] h hs = (h, tt)
  All-insert_by x (y ∷ ys) h hs =
      All-kept (lt y x) x y ys (insert_by lt x ys) h hs (All-insert_by x ys h hs.1)

  pub All-sort_by : (xs : List A) → All P xs → All P (sort_by lt xs)
  All-sort_by [] h = tt
  All-sort_by (x ∷ xs) h = All-insert_by x (sort_by lt xs) h.0 (All-sort_by xs h.1)
