-- ===== src/Ids/Words.antt =====
-- The bytes of an id as one number, and the entropy's increment.
use native.Mathlib.Nat.{pow-suc}
use aurium.Base.{
  ℕ, suc, ◌+◌, ◌*◌, ◌%◌, ◌^◌, ◌≤◌, ◌<◌, ◌≡◌, refl, ap, Bool, true, false, List, [], ◌∷◌, ◌++◌,
  arith, length, All, Bool-cases, inl, inr, ◌==◌, if◌then◌else◌,
}
use aurium.Ids.{bump, increment, be_bytes, be_value}

abbrev pub IsByte : ℕ → Type 0
IsByte b = b < 256

pub be_value-append :
    (acc : ℕ) (xs ys : List ℕ) → be_value acc (xs ++ ys) ≡ be_value (be_value acc xs) ys
unfolding be_value
be_value-append acc [] ys = refl
be_value-append acc (x ∷ xs) ys = be_value-append (acc * 256 + x) xs ys

pub be_value-shift :
    (acc : ℕ) (xs : List ℕ) → be_value acc xs ≡ acc * 256 ^ length xs + be_value 0 xs
unfolding be_value
be_value-shift acc [] = omega arith
be_value-shift acc (x ∷ xs) = omega (
  arith,
  be_value-shift (acc * 256 + x) xs,
  be_value-shift (0 * 256 + x) xs,
  ap (λ (t : ℕ). acc * t) (pow-suc 256 (length xs)),
)

scaled : (x p : ℕ) → x < 256 → x * p + p ≤ 256 * p
scaled x p h = grind arith

pub be_value-lt : (xs : List ℕ) → All IsByte xs → be_value 0 xs < 256 ^ length xs
unfolding be_value
be_value-lt [] h = omega arith
be_value-lt (x ∷ xs) h = grind (
  arith,
  be_value-shift (0 * 256 + x) xs,
  be_value-lt xs h.1,
  pow-suc 256 (length xs),
  scaled x (256 ^ length xs) h.0,
)

-- Six bytes hold 48 bits.
pub be_value-be_bytes : (ms : ℕ) → ms < 2 ^ 48 → be_value 0 (be_bytes 6 ms) ≡ ms
unfolding be_value be_bytes
be_value-be_bytes ms h = omega arith

pub increment_shape :
    (xs : List ℕ)
    → All IsByte xs
    → All IsByte (increment xs).0 × (length (increment xs).0 ≡ length xs)
unfolding increment
increment_shape [] h = (tt, refl)
increment_shape (x ∷ xs) h = ground (arith, increment_shape xs h.1)

be_value-cons : (x : ℕ) (xs : List ℕ) → be_value 0 (x ∷ xs) ≡ x * 256 ^ length xs + be_value 0 xs
unfolding be_value
be_value-cons x xs = omega (arith, be_value-shift (0 * 256 + x) xs)

-- One byte more of the increment, by the carry that reaches it.
increment_byte :
    (x : ℕ) (xs cs : List ℕ) (carry : Bool)
    → x < 256
    → length cs ≡ length xs
    → be_value 0 cs + (if carry then 256 ^ length xs else 0) ≡ be_value 0 xs + 1
    → let (ys, out) = if◌then◌else◌ {A = List ℕ × Bool} carry (bump x cs) (x ∷ cs, false) in
      be_value 0 ys + (if out then 256 ^ suc (length xs) else 0) ≡ be_value 0 (x ∷ xs) + 1
increment_byte x xs cs false h len e =
    rw (be_value-cons x cs, be_value-cons x xs, len) (omega arith)
increment_byte x xs cs true h len e = elim (Bool-cases ((x + 1) % 256 == 0)) [
  | inl wraps ↦
      let last : x ≡ 255 = ground arith in
      rw
        (
          wraps,
          be_value-cons ((x + 1) % 256) cs,
          be_value-cons x xs,
          len,
          last,
          pow-suc 256 (length xs),
        )
        (omega arith)
  | inr stays ↦
      let plain : (x + 1) % 256 ≡ x + 1 = ground arith in
      rw (stays, be_value-cons ((x + 1) % 256) cs, be_value-cons x xs, len, plain) (omega arith)
]

-- The carry says that the bytes wrapped; else the number is one more.
pub increment_value :
    (xs : List ℕ)
    → All IsByte xs
    → be_value 0 (increment xs).0 + (if (increment xs).1 then 256 ^ length xs else 0)
      ≡ be_value 0 xs + 1
unfolding increment
increment_value [] h = unfold be_value in omega arith
increment_value (x ∷ xs) h =
    increment_byte x xs (increment xs).0 (increment xs).1 h.0 (increment_shape xs h.1).1
      (increment_value xs h.1)
