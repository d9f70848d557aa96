-- ===== src/Ids/Codec.antt =====
-- Base 32: the two-word loop of `encode` against the digits of one number, and back.
use native.Mathlib.Nat.{pow-suc, pow-succ', zero-add, div-div-eq-div-mul}
use aurium.Base.{
  if◌then◌else◌, ℕ, zero, suc, ◌+◌, ◌*◌, ◌/◌, ◌%◌, ◌^◌, ◌<◌, ◌≡◌, refl, sym, Bool, true, false,
  Option, some, none, [], ◌∷◌, ◌++◌, append_assoc, append-nil, arith, ◌==◌, Text,
}
use Prim.Native.Nat.{bit_or}
use Prim.Native.Nat.add
use aurium.Ids.{u64, encode_loop, digit_char, decode_table, decode_from}
use aurium.Ids.Bits.{bit_or_low, bit_or_high}

-- `n` digits of `v`, the highest first.
unfoldable pub base32 : ℕ → ℕ → Text
base32 zero v = []
base32 (suc n) v = base32 n (v / 32) ++ digit_char (v % 32) ∷ []

low_word :
    (hi lo : ℕ) → lo < 2 ^ 64 → bit_or (lo / 32) (hi * 2 ^ 59 % u64) ≡ lo / 32 + hi % 32 * 2 ^ 59
low_word hi lo h = rw (shifted) (bit_or_low 59 (lo / 32) (hi % 32) (omega arith))
  where
    shifted : hi * 2 ^ 59 % u64 ≡ hi % 32 * 2 ^ 59
    shifted = omega arith

pub encode_loop-eq-base32 :
    (n hi lo : ℕ) (out : Text)
    → lo < 2 ^ 64
    → encode_loop n hi lo out ≡ base32 n (hi * 2 ^ 64 + lo) ++ out
unfolding encode_loop base32
encode_loop-eq-base32 zero hi lo out h = refl
encode_loop-eq-base32 (suc n) hi lo out h = rw (low_word hi lo h) (
    rw
      (encode_loop-eq-base32 n (hi / 32) (lo / 32 + hi % 32 * 2 ^ 59) (digit_char (lo % 32) ∷ out)
        (omega arith))
      (rw (quotient, digit)
        (sym (append_assoc (base32 n ((hi * 2 ^ 64 + lo) / 32)) (digit_char (lo % 32) ∷ []) out))))
  where
    quotient : hi / 32 * 2 ^ 64 + (lo / 32 + hi % 32 * 2 ^ 59) ≡ (hi * 2 ^ 64 + lo) / 32
    quotient = omega arith

    digit : (hi * 2 ^ 64 + lo) % 32 ≡ lo % 32
    digit = omega arith

abbrev returns : Option ℕ → ℕ → Bool
returns none d = false
returns (some e) d = e == d

-- Whether the table returns the digits below a number.
digits_return : ℕ → Bool
digits_return zero = true
digits_return (suc n) =
    let earlier = digits_return n in
    if returns (decode_table (digit_char n)) n then earlier else false

below-digits_return :
    (d n : ℕ) → d < n → digits_return n ≡ true → returns (decode_table (digit_char d)) d ≡ true
unfolding digits_return
below-digits_return d zero lt h = absurd (omega arith)
below-digits_return d (suc n) lt h = ground (arith, below-digits_return d n)

-- The table undoes the alphabet.
pub decode_table-digit_char : (d : ℕ) → d < 32 → decode_table (digit_char d) ≡ some d
decode_table-digit_char d h =
    is_some (decode_table (digit_char d)) (below-digits_return d 32 h table)
  where
    is_some : (o : Option ℕ) → returns o d ≡ true → o ≡ some d
    is_some none e = cc
    is_some (some c) e = ground arith

    table : digits_return 32 ≡ true
    table = unfold digits_return decode_table digit_char in refl

decode_from-append :
    (xs ys : Text) (acc : ℕ) → decode_from acc (xs ++ ys) ≡ decode_from (decode_from acc xs) ys
unfolding decode_from
decode_from-append [] ys acc = refl
decode_from-append (x ∷ xs) ys acc = decode_from-append xs ys _

-- One character more: the number is shifted by five bits and the digit put in.
decode_from-digit :
    (q d : ℕ) → d < 32 → q * 32 < 2 ^ 64 → decode_from q (digit_char d ∷ []) ≡ q * 32 + d
unfolding decode_from
decode_from-digit q d h k = rw (decode_table-digit_char d h) (rw (fits) (bit_or_high 5 d q h))
  where
    fits : q * 32 % u64 ≡ q * 32
    fits = omega arith

-- Decoding gives the number back, if it fits the digits and a word.
pub decode_from-base32 : (n v : ℕ) → v < 32 ^ n → v < 2 ^ 64 → decode_from 0 (base32 n v) ≡ v
unfolding base32
decode_from-base32 zero v h k = unfold decode_from in omega arith
decode_from-base32 (suc n) v h k =
    rw (decode_from-append (base32 n (v / 32)) (digit_char (v % 32) ∷ []) 0) (
      rw (decode_from-base32 n (v / 32) (omega (arith, pow-suc 32 n)) (omega arith))
        (rw (decode_from-digit (v / 32) (v % 32) (omega arith) (omega arith)) (omega arith)))

-- The first digits are those of the quotient.
pub base32-split : (m n v : ℕ) → base32 (m + n) v ≡ base32 n (v / 32 ^ m) ++ base32 m v
unfolding base32
base32-split zero n v = rw (zero-add, whole) (sym (append-nil (base32 n v)))
  where
    whole : v / 32 ^ 0 ≡ v
    whole = omega arith
base32-split (suc m) n v = rw (add.suc m n) (
    rw (base32-split m n (v / 32), div-div-eq-div-mul v 32 (32 ^ m), ← pow-succ' 32 m)
      (append_assoc (base32 n (v / 32 ^ suc m)) (base32 m (v / 32)) (digit_char (v % 32) ∷ [])))
