-- ===== src/Ids/Order.antt =====
-- The order of ids of one type, as texts.
use native.Mathlib.Nat.{pow-suc}
use native.Mathlib.Decide.{dec_lt}
use aurium.Base.{
  ℕ, zero, suc, ◌+◌, ◌*◌, ◌/◌, ◌%◌, ◌^◌, ◌≤◌, ◌<◌, ◌≡◌, refl, ap, ◌∙◌, sym, Bool, true, false, ◌&&◌,
  ◌||◌, Option, some, none, List, [], ◌∷◌, ◌++◌, append-nil, arith, length, take, drop, ◌==◌,
  ==_refl, ltb, Text, All, All-append, All-drop, take-append-drop, length-drop, length-append,
  Bool-cases, ◌⊎◌, inl, inr, if◌then◌else◌,
}
use aurium.Ids.{
  Monotonic, underscore, encode, digit_char, be_bytes, be_value, increment, next_entropy, drawn,
  new_id,
}
use aurium.Ids.Words.{
  IsByte, be_value-append, be_value-shift, be_value-lt, be_value-be_bytes, increment_value,
  increment_shape,
}
use aurium.Ids.Codec.{base32, encode_loop-eq-base32}

-- Go's `<` on strings.
unfoldable pub text_lt : Text → Text → Bool
text_lt s [] = false
text_lt [] (d ∷ t) = true
text_lt (c ∷ s) (d ∷ t) = ltb c d || ((c == d) && text_lt s t)

text_lt-append : (p s t : Text) → text_lt (p ++ s) (p ++ t) ≡ text_lt s t
unfolding text_lt
text_lt-append [] s t = refl
text_lt-append (c ∷ p) s t = ground (arith, text_lt-append p s t)

text_lt-snoc :
    (s t : Text) (a b : ℕ)
    → length s ≡ length t
    → text_lt s t ≡ true
    → text_lt (s ++ a ∷ []) (t ++ b ∷ []) ≡ true
unfolding text_lt
text_lt-snoc [] [] a b e h = cc
text_lt-snoc [] (d ∷ t) a b e h = absurd (omega arith)
text_lt-snoc (c ∷ s) [] a b e h = cc
text_lt-snoc (c ∷ s) (d ∷ t) a b e h = ground (arith, text_lt-snoc s t a b (omega arith))

pub length-base32 : (n v : ℕ) → length (base32 n v) ≡ n
unfolding base32
length-base32 zero v = refl
length-base32 (suc n) v =
    rw (length-append (base32 n (v / 32)) (digit_char (v % 32) ∷ []), length-base32 n (v / 32))
      (omega arith)

-- The alphabet is in the order of its characters.
rising : ℕ → Bool
rising zero = true
rising (suc d) = ltb (digit_char d) (digit_char (suc d)) && rising d

digit_char-lt_suc : (n d : ℕ) → rising n ≡ true → d < n → digit_char d < digit_char (suc d)
unfolding rising
digit_char-lt_suc zero d h k = absurd (omega arith)
digit_char-lt_suc (suc n) d h k = ground (arith, digit_char-lt_suc n d)

digit_char_mono : (e d : ℕ) → d < e → e < 32 → digit_char d < digit_char e
unfolding rising
digit_char_mono zero d h k = absurd (omega arith)
digit_char_mono (suc e) d h k =
    grind
      (arith, digit_char-lt_suc 31 e (unfold digit_char in refl) (omega arith), digit_char_mono e d)

-- Digits of one length compare as the numbers do.
base32_mono : (n v w : ℕ) → v < w → w < 32 ^ n → text_lt (base32 n v) (base32 n w) ≡ true
unfolding base32
base32_mono zero v w h k = absurd (omega arith)
base32_mono (suc n) v w h k = elim (split v w h) [
  | inl below ↦
      text_lt-snoc (base32 n (v / 32)) (base32 n (w / 32)) (digit_char (v % 32))
        (digit_char (w % 32)) (length-base32 n (v / 32) ∙ sym (length-base32 n (w / 32)))
        (base32_mono n (v / 32) (w / 32) below (omega (arith, pow-suc 32 n)))
  | inr (same, digit) ↦
      rw
        (
          same,
          text_lt-append (base32 n (w / 32)) (digit_char (v % 32) ∷ []) (digit_char (w % 32) ∷ []),
        )
        (last (digit_char (v % 32)) (digit_char (w % 32))
          (digit_char_mono (w % 32) (v % 32) digit (omega arith)))
]
  where
    split : (v w : ℕ) → v < w → (v / 32 < w / 32) ⊎ ((v / 32 ≡ w / 32) × (v % 32 < w % 32))
    split v w h = elim (dec_lt (v / 32) (w / 32)) [
      | yes p ↦ inl p
      | no p ↦ inr (omega arith, omega arith)
    ]

    last : (c d : ℕ) → c < d → text_lt (c ∷ []) (d ∷ []) ≡ true
    last c d h = unfold text_lt in ground arith

-- The entropy of an id: ten bytes.
abbrev pub IsEntropy : List ℕ → Type 0
IsEntropy e = All IsByte e × (length e ≡ 10)

be_bytes-All : (n x : ℕ) → All IsByte (be_bytes n x)
unfolding be_bytes
be_bytes-All zero x = tt
be_bytes-All (suc n) x = (omega arith, be_bytes-All n x)

length-be_bytes : (n x : ℕ) → length (be_bytes n x) ≡ n
unfolding be_bytes
length-be_bytes zero x = refl
length-be_bytes (suc n) x = ap suc (length-be_bytes n x)

-- Sixteen bytes are encoded as the digits of their value.
encode-eq-base32 :
    (raw : List ℕ) → All IsByte raw → length raw ≡ 16 → encode raw ≡ base32 26 (be_value 0 raw)
unfolding encode
encode-eq-base32 raw h len =
    rw (encode_loop-eq-base32 26 (be_value 0 (take 8 raw)) (be_value 0 (drop 8 raw)) [] small) (
      rw
        (
          append-nil (base32 26 (be_value 0 (take 8 raw) * 2 ^ 64 + be_value 0 (drop 8 raw))),
          sym joined,
        )
        refl)
  where
    eight : length (drop 8 raw) ≡ 8
    eight = omega (arith, length-drop 8 raw)

    small : be_value 0 (drop 8 raw) < 2 ^ 64
    small = rw eight at (be_value-lt (drop 8 raw) (All-drop IsByte 8 raw h))

    joined : be_value 0 raw ≡ be_value 0 (take 8 raw) * 2 ^ 64 + be_value 0 (drop 8 raw)
    joined =
        ap (be_value 0) (sym (take-append-drop 8 raw))
        ∙ be_value-append 0 (take 8 raw) (drop 8 raw)
        ∙ rw eight at (be_value-shift (be_value 0 (take 8 raw)) (drop 8 raw))

-- The value behind the characters of an id: the clock above the entropy.
pub body-eq-base32 :
    (ms : ℕ) (e : List ℕ)
    → ms < 2 ^ 48
    → IsEntropy e
    → encode (be_bytes 6 ms ++ e) ≡ base32 26 (ms * 2 ^ 80 + be_value 0 e)
body-eq-base32 ms e h valid =
    encode-eq-base32 (be_bytes 6 ms ++ e)
      (All-append IsByte (be_bytes 6 ms) e (be_bytes-All 6 ms) valid.0)
      (omega (arith, length-append (be_bytes 6 ms) e, length-be_bytes 6 ms, valid.1))
    ∙ ap (base32 26) value
  where
    value : be_value 0 (be_bytes 6 ms ++ e) ≡ ms * 2 ^ 80 + be_value 0 e
    value =
        be_value-append 0 (be_bytes 6 ms) e
        ∙ rw (be_value-be_bytes ms h) (rw valid.1 at (be_value-shift ms e))

-- What `rand.Read` may give: ten bytes, or an error.
abbrev pub IsFresh : Option (List ℕ) → Type 0
IsFresh none = Unit
IsFresh (some e) = IsEntropy e

drawn-IsEntropy : (ms : ℕ) (fresh : Option (List ℕ)) → IsFresh fresh → IsEntropy (drawn ms fresh)
unfolding drawn
drawn-IsEntropy ms none h = (
  All-append IsByte (be_bytes 8 ms) (0 ∷ 0 ∷ []) (be_bytes-All 8 ms) (omega arith),
  omega (arith, length-append (be_bytes 8 ms) (0 ∷ 0 ∷ []), length-be_bytes 8 ms),
)
drawn-IsEntropy ms (some e) h = h

pub next_entropy-IsEntropy :
    (ms : ℕ) (fresh : Option (List ℕ)) (m : Monotonic)
    → IsEntropy m.last_rand
    → IsFresh fresh
    → IsEntropy (next_entropy ms fresh m)
unfolding next_entropy
next_entropy-IsEntropy ms fresh m h f = elim (Bool-cases (ms == m.last_ms)) [
  | inl same ↦ let (bytes, len) = increment_shape m.last_rand h.0 in rw same (bytes, len ∙ h.1)
  | inr new ↦ rw new (drawn-IsEntropy ms fresh f)
]

-- Within a millisecond the entropy is one more, unless all its bytes are 255.
next_entropy_value :
    (ms : ℕ) (fresh : Option (List ℕ)) (m : Monotonic)
    → IsEntropy m.last_rand
    → be_value 0 m.last_rand + 1 < 2 ^ 80
    → ms ≡ m.last_ms
    → be_value 0 (next_entropy ms fresh m) ≡ be_value 0 m.last_rand + 1
unfolding next_entropy
next_entropy_value ms fresh m h small same = rw same (
    rw (==_refl m.last_ms)
      (uncarried (increment m.last_rand).1 (rw h.1 at (increment_value m.last_rand h.0))))
  where
    uncarried :
        (carry : Bool)
        → be_value 0 (increment m.last_rand).0 + (if carry then 256 ^ 10 else 0)
          ≡ be_value 0 m.last_rand + 1
        → be_value 0 (increment m.last_rand).0 ≡ be_value 0 m.last_rand + 1
    uncarried true e = absurd (omega arith)
    uncarried false e = omega arith

-- Two successive calls of `new_id` with one prefix: the second id sorts after the first, if the kept
-- entropy and what `rand.Read` gives, where it gives any, are ten bytes, the clock has not gone back, it
-- counts fewer than 2^48 milliseconds, and, where both calls fall in one millisecond, the entropy of
-- the first was not all ones.
pub new_id_increasing :
    (prefix : Text) (ms ms' : ℕ) (fresh fresh' : Option (List ℕ)) (m : Monotonic)
    → IsEntropy m.last_rand
    → IsFresh fresh
    → IsFresh fresh'
    → ms ≤ ms'
    → ms' < 2 ^ 48
    → (ms ≡ ms' → be_value 0 (new_id prefix ms fresh m).1.last_rand + 1 < 2 ^ 80)
    → text_lt (new_id prefix ms fresh m).0 (new_id prefix ms' fresh' (new_id prefix ms fresh m).1).0
      ≡ true
unfolding new_id
new_id_increasing prefix ms ms' fresh fresh' m valid f f' le small room =
    rw text_lt-append (tail (body ms e h₁ v₁) (body ms' e' small v₂))
  where
    e : List ℕ
    e = next_entropy ms fresh m

    m' : Monotonic
    m' = record { last_ms = ms; last_rand = e }

    e' : List ℕ
    e' = next_entropy ms' fresh' m'

    h₁ : ms < 2 ^ 48
    h₁ = omega arith

    v₁ : IsEntropy e
    v₁ = next_entropy-IsEntropy ms fresh m valid f

    v₂ : IsEntropy e'
    v₂ = next_entropy-IsEntropy ms' fresh' m' v₁ f'

    value_lt : (x : List ℕ) → IsEntropy x → be_value 0 x < 2 ^ 80
    value_lt x v = rw v.1 at (be_value-lt x v.0)

    body :
        (t : ℕ) (x : List ℕ)
        → t < 2 ^ 48
        → IsEntropy x
        → encode (be_bytes 6 t ++ x) ≡ base32 26 (t * 2 ^ 80 + be_value 0 x)
    body t x h v = body-eq-base32 t x h v

    grows : ms * 2 ^ 80 + be_value 0 e < ms' * 2 ^ 80 + be_value 0 e'
    grows = elim (dec_lt ms ms') [
      | yes later ↦ omega (arith, value_lt e v₁)
      | no same ↦
          let at_once : ms ≡ ms' = omega arith in
          omega (arith, next_entropy_value ms' fresh' m' v₁ (room at_once) (sym at_once))
    ]

    tail :
        encode (be_bytes 6 ms ++ e) ≡ base32 26 (ms * 2 ^ 80 + be_value 0 e)
        → encode (be_bytes 6 ms' ++ e') ≡ base32 26 (ms' * 2 ^ 80 + be_value 0 e')
        → text_lt
            (underscore ∷ encode (be_bytes 6 ms ++ e))
            (underscore ∷ encode (be_bytes 6 ms' ++ e'))
          ≡ true
    tail p q =
        rw (p, q)
          (text_lt-append (underscore ∷ []) (base32 26 (ms * 2 ^ 80 + be_value 0 e))
              (base32 26 (ms' * 2 ^ 80 + be_value 0 e'))
            ∙ base32_mono 26 (ms * 2 ^ 80 + be_value 0 e) (ms' * 2 ^ 80 + be_value 0 e') grows
                (omega (arith, value_lt e' v₂)))
