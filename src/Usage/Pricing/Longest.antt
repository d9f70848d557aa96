-- ===== src/Usage/Pricing/Longest.antt =====
-- The loop over the keys, in any order.
use aurium.Base.{
  ◌≡◌, refl, sym, ap, ◌∙◌, ◌↔◌, ℕ, suc, ◌≤◌, Bool, true, false, ◌&&◌, Option, none, some, find,
  is_empty, List, [], ◌∷◌, Text, text_eq, text_eq_refl, text_eq_sound, length, any, ltb, ◌==◌,
  ==_iff, arith, if◌then◌else◌, ◌⊎◌, inl, inr, Bool-cases, and_true,
}
use aurium.Usage.Pricing.{Price, is_prefix, better, best_from, price_at, priced, lookup}

zero_not_suc : (n : ℕ) → ¬ (0 ≡ suc n)
zero_not_suc n = omega arith

-- Two prefixes of a text that are as long as each other are the same.
prefix_same :
    (p q m : Text) → is_prefix p m ≡ true → is_prefix q m ≡ true → length p ≡ length q → p ≡ q
unfolding is_prefix
prefix_same [] [] m h k e = refl
prefix_same [] (d ∷ q) m h k e = elim (zero_not_suc (length q) e) [ ]
prefix_same (c ∷ p) [] m h k e = elim (zero_not_suc (length p) (sym e)) [ ]
prefix_same (c ∷ p) (d ∷ q) [] h k e = cc
prefix_same (c ∷ p) (d ∷ q) (x ∷ m) h k e =
    let (h1, h2) = and_true (c == x) (is_prefix p m) h in
    let (k1, k2) = and_true (d == x) (is_prefix q m) k in
    let a : c ≡ x = (==_iff c x).0 h1 in
    let b : d ≡ x = (==_iff d x).0 k1 in
    let rest : p ≡ q = prefix_same p q m h2 k2 (omega (arith, e)) in simp (a, b, rest)

abbrev pub Has : Text → List Text → Type 0
Has key keys = any (text_eq key) keys ≡ true

better_at : (m x best : Text) → is_prefix x m ≡ true → length x ≤ length (better m x best)
better_at m x best h = ground arith

better_grows : (m x best : Text) → length best ≤ length (better m x best)
better_grows m x best = ground arith

better_is :
    (m x best : Text) → (better m x best ≡ best) ⊎ ((better m x best ≡ x) × (is_prefix x m ≡ true))
better_is m x best = pick (is_prefix x m) (ltb (length best) (length x)) refl
  where
    pick :
        (a b : Bool)
        → is_prefix x m ≡ a
        → ((if a && b then x else best) ≡ best)
          ⊎ (((if a && b then x else best) ≡ x) × (is_prefix x m ≡ true))
    pick true true e = inr (refl, e)
    pick true false e = inl refl
    pick false b e = inl refl

best_grows : (m best : Text) (keys : List Text) → length best ≤ length (best_from m best keys)
unfolding best_from
best_grows m best [] = omega arith
best_grows m best (x ∷ keys) =
    omega (arith, best_grows m (better m x best) keys, better_grows m x best)

-- A key that begins the text is no longer than the best one.
best_max :
    (m best : Text) (keys : List Text) (key : Text)
    → Has key keys
    → is_prefix key m ≡ true
    → length key ≤ length (best_from m best keys)
unfolding best_from
best_max m best [] key h k = cc
best_max m best (x ∷ keys) key h k = elim (Bool-cases (text_eq key x)) [
  | inr n ↦ best_max m (better m x best) keys key (ground arith) k
  | inl y ↦
      let e : key ≡ x = text_eq_sound key x y in
      let f : is_prefix x m ≡ true = ap (λ (z : Text). is_prefix z m) (sym e) ∙ k in
      let g : length key ≡ length x = ap (λ (z : Text). length z) e in
      omega (arith, g, better_at m x best f, best_grows m (better m x best) keys)
]

Has-cons : (key x : Text) (keys : List Text) → Has key keys → Has key (x ∷ keys)
Has-cons key x keys h = ground arith

-- The best is what it was, or a key that begins the text.
best_is :
    (m best : Text) (keys : List Text)
    → (best_from m best keys ≡ best)
      ⊎ (Has (best_from m best keys) keys × (is_prefix (best_from m best keys) m ≡ true))
unfolding best_from
best_is m best [] = inl refl
best_is m best (x ∷ keys) =
    let b = best_from m (better m x best) keys in
    elim (best_is m (better m x best) keys) [
      | inr h ↦ inr (Has-cons b x keys h.0, h.1)
      | inl e ↦ elim (better_is m x best) [
        | inl f ↦ inl (e ∙ f)
        | inr f ↦
            let g : b ≡ x = e ∙ f.0 in
            inr (
              ground (arith, ap (λ (z : Text). text_eq z x) g, text_eq_refl x),
              ap (λ (z : Text). is_prefix z m) g ∙ f.1,
            )
      ]
    ]

abbrev pub best : Text → List Text → Text
best m keys = best_from m [] keys

best_prefix : (m : Text) (keys : List Text) → is_prefix (best m keys) m ≡ true
unfolding is_prefix
best_prefix m keys = elim (best_is m [] keys) [
  | inl e ↦ ap (λ (z : Text). is_prefix z m) e
  | inr h ↦ h.1
]

shorter :
    (m : Text) (keys more : List Text)
    → ((key : Text) → Has key keys → Has key more)
    → length (best m keys) ≤ length (best m more)
shorter m keys more f = elim (best_is m [] keys) [
  | inl e ↦ let g : length (best m keys) ≡ 0 = ap (λ (z : Text). length z) e in omega (arith, g)
  | inr h ↦ best_max m [] more (best m keys) (f (best m keys) h.0) h.1
]

best-order :
    (m : Text) (keys others : List Text)
    → ((key : Text) → Has key keys ↔ Has key others)
    → best m keys ≡ best m others
best-order m keys others f =
    prefix_same (best m keys) (best m others) m (best_prefix m keys) (best_prefix m others)
      (omega (arith, shorter m keys others (λ k. (f k).0), shorter m others keys (λ k. (f k).1)))

-- The price of the first row with this key.
abbrev pub price_of : Option (Text × Price) → Option Price
price_of none = none
price_of (some r) = some r.1

abbrev pub row_price : Text → List (Text × Price) → Option Price
row_price key table = price_of (find (λ (r : Text × Price). text_eq key r.0) table)

price_at-row_price :
    (key : Text) (table : List (Text × Price)) → price_at key table ≡ row_price key table
price_at-row_price key [] = refl
price_at-row_price key (r ∷ rest) = ground (arith, price_at-row_price key rest)

-- A key that begins a name, and that no key that begins it is longer than.
abbrev pub IsLongest : Text → List Text → Text → Type 0
IsLongest m keys key =
    Has key keys
    × (is_prefix key m ≡ true)
    × ((other : Text) → Has other keys → is_prefix other m ≡ true → length other ≤ length key)

-- The price that `Lookup` is to give: that of the row under the longest key, or none.
abbrev pub Prices : Text → List (Text × Price) → List Text → Option Price → Type 0
Prices m table keys o =
    ((key : Text) × (IsLongest m keys key × (o ≡ row_price key table)))
    ⊎ (((key : Text) → Has key keys → is_prefix key m ≡ true → key ≡ []) × (o ≡ none))

empty_of : (key : Text) → length key ≤ 0 → key ≡ []
empty_of [] h = refl
empty_of (c ∷ key) h = elim (zero_not_suc (length key) (omega (arith, h))) [ ]

best-IsLongest :
    (m : Text) (keys : List Text) (b : Text)
    → best m keys ≡ b
    → IsLongest m keys (best m keys)
    → IsLongest m keys b
best-IsLongest m keys b e h = rw e at h

-- With the best key known.
priced-Prices :
    (m : Text) (table : List (Text × Price)) (keys : List Text) (b : Text)
    → best m keys ≡ b
    → Prices m table keys (if is_empty m then none else priced b table)
unfolding is_prefix
priced-Prices [] table keys b e = inr (λ key h k. prefix_of_empty key k, refl)
  where
    prefix_of_empty : (key : Text) → is_prefix key [] ≡ true → key ≡ []
    prefix_of_empty [] k = refl
    prefix_of_empty (c ∷ key) k = cc
priced-Prices (x ∷ m) table keys [] e = inr (
  λ key h k.
      let short = best_max (x ∷ m) [] keys key h k in
      let g : length (best (x ∷ m) keys) ≡ 0 = ap (λ (z : Text). length z) e in
      empty_of key (omega (arith, short, g)),
  refl,
)
priced-Prices (x ∷ m) table keys (c ∷ s) e = elim (best_is (x ∷ m) [] keys) [
  | inl f ↦ let g : [] ≡ c ∷ s = sym f ∙ e in cc
  | inr h ↦ inl (
    c ∷ s,
    (
      best-IsLongest (x ∷ m) keys (c ∷ s) e (h.0, h.1, best_max (x ∷ m) [] keys),
      price_at-row_price (c ∷ s) table,
    ),
  )
]

-- Lookup gives the price of the first row of the table under a key that begins the model's name and
-- that no key that begins it is longer than (none where no row has that key); or it gives none, and
-- no key but the empty one begins the name. It does not depend on the order in which the keys are
-- met: for two lists with the same keys it gives the same price, or none for both.
pub lookup_lem :
    (normal : Text → Text) (table : List (Text × Price)) (keys others : List Text) (model : Text)
    → ((key : Text) → Has key keys ↔ Has key others)
    → Prices (normal model) table keys (lookup normal table keys model)
      × (lookup normal table keys model ≡ lookup normal table others model)
unfolding lookup
lookup_lem normal table keys others model f = (
  priced-Prices (normal model) table keys (best (normal model) keys) refl,
  simp (best-order (normal model) keys others f),
)
