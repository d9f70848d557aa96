-- ===== src/Ids/Bits.antt =====
-- `|` on words that have no one-bit in common is a sum.
use Prim.Native.Nat.{bit_or, bit_or-bitwise, digits, max}
use native.Mathlib.Nat.{pow-suc}
use aurium.Base.{
  ℕ, zero, suc, ◌+◌, ◌*◌, ◌/◌, ◌%◌, ◌^◌, ◌≤◌, ◌<◌, ◌≡◌, refl, sym, ap, ◌∙◌, ◌-◌, arith,
}

-- The definition that `|` stands for, on the steps that are left to it.
abbrev or_in : ℕ → ℕ → ℕ → ℕ
or_in steps = digits (λ rest. rest) max steps

-- A number has no more digits than its value, so that one step more changes nothing.
or_in_more : (steps x y : ℕ) → x ≤ steps → or_in (suc steps) x y ≡ or_in steps x y
or_in_more zero zero y h = refl
or_in_more (suc steps) zero y h = refl
or_in_more zero (suc x) y h = absurd (omega arith)
or_in_more (suc steps) (suc x) y h =
    let halves = or_in_more steps (suc x / 2) (y / 2) (omega arith) in omega arith

-- Nor does any number of steps more.
or_in_later : (extra steps x y : ℕ) → x ≤ steps → or_in (steps + extra) x y ≡ or_in steps x y
or_in_later zero steps x y h = ap (λ k. or_in k x y) (omega arith)
or_in_later (suc extra) steps x y h =
    let k : steps + suc extra ≡ suc (steps + extra) = omega arith in
    ap (λ k. or_in k x y) k
    ∙ or_in_more (steps + extra) x y (omega arith)
    ∙ or_in_later extra steps x y h

or_half : (x y : ℕ) → or_in x (suc x / 2) y ≡ bit_or (suc x / 2) y
or_half x y =
    let k : x ≡ suc x / 2 + (x - suc x / 2) = omega arith in
    ap (λ k. or_in k (suc x / 2) y) k
    ∙ or_in_later (x - suc x / 2) (suc x / 2) (suc x / 2) y (omega arith)
    ∙ sym (bit_or-bitwise (suc x / 2) y)

zero-bit_or : (y : ℕ) → bit_or 0 y ≡ y
zero-bit_or = bit_or-bitwise 0

-- The lowest digit, and the digits above it.
bit_or_step : (x y : ℕ) → bit_or x y ≡ bit_or (x / 2) (y / 2) * 2 + max (x % 2) (y % 2)
bit_or_step zero y = let whole = zero-bit_or y in let half = zero-bit_or (y / 2) in omega arith
bit_or_step (suc x) y =
    let whole = bit_or-bitwise (suc x) y in let half = or_half x (y / 2) in omega arith

double_half : (b : ℕ) → b * 2 / 2 ≡ b
double_half b = omega arith

bit_or-double_right : (a b : ℕ) → bit_or a (b * 2) ≡ bit_or (a / 2) b * 2 + a % 2
bit_or-double_right a b = rw (bit_or_step a (b * 2), double_half b) (omega arith)

bit_or-double_left : (a b : ℕ) → bit_or (b * 2) a ≡ bit_or b (a / 2) * 2 + a % 2
bit_or-double_left a b = rw (bit_or_step (b * 2) a, double_half b) (omega arith)

shift_suc : (b k : ℕ) → b * 2 ^ suc k ≡ b * 2 ^ k * 2
shift_suc b k = rw (pow-suc 2 k) (omega arith)

-- `lo | hi << k`
pub bit_or_low : (k a b : ℕ) → a < 2 ^ k → bit_or a (b * 2 ^ k) ≡ a + b * 2 ^ k
bit_or_low zero zero b h = omega (arith, zero-bit_or (b * 2 ^ 0))
bit_or_low zero (suc a) b h = absurd (omega arith)
bit_or_low (suc k) a b h =
    rw (shift_suc b k, bit_or-double_right a (b * 2 ^ k))
      (omega (arith, bit_or_low k (a / 2) b (omega (arith, pow-suc 2 k))))

-- `hi << k | lo`
bit_or-zero : (n b : ℕ) → b ≤ n → bit_or b 0 ≡ b
bit_or-zero n zero h = zero-bit_or 0
bit_or-zero zero (suc b) h = absurd (omega arith)
bit_or-zero (suc n) (suc b) h =
    omega (arith, bit_or_step (suc b) 0, bit_or-zero n (suc b / 2) (omega arith))

pub bit_or_high : (k a b : ℕ) → a < 2 ^ k → bit_or (b * 2 ^ k) a ≡ b * 2 ^ k + a
bit_or_high zero zero b h = omega (arith, bit_or-zero (b * 2 ^ 0) (b * 2 ^ 0))
bit_or_high zero (suc a) b h = absurd (omega arith)
bit_or_high (suc k) a b h =
    rw (shift_suc b k, bit_or-double_left a (b * 2 ^ k))
      (omega (arith, bit_or_high k (a / 2) b (omega (arith, pow-suc 2 k))))
