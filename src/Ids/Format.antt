-- ===== src/Ids/Format.antt =====
-- The form of an id: what `Prefix`, `Valid` and `Time` read back.
use aurium.Base.{
  ℕ, zero, suc, ◌+◌, ◌*◌, ◌/◌, ◌%◌, ◌^◌, ◌<◌, ◌≡◌, refl, ap, ◌∙◌, true, false, not, ◌&&◌, Option,
  some, none, List, [], ◌∷◌, ◌++◌, arith, take, ◌==◌, Text, text_eq, text_eq_refl, text_eq_sound,
  is_empty, All, ◌≢◌, Bool-cases, inl, inr, ◌↔◌, take-append_self,
}
use aurium.Ids.{
  Monotonic, underscore, digit_char, be_value, cut_underscore, push, all_digits, valid_body,
  prefix_of, well_formed, valid, time_of, new_id, next_entropy,
}
use aurium.Ids.Words.{be_value-lt}
use aurium.Ids.Codec.{base32, base32-split, decode_from-base32, decode_table-digit_char}
use aurium.Ids.Order.{IsEntropy, IsFresh, next_entropy-IsEntropy, body-eq-base32, length-base32}

-- A type prefix: not empty, and without an underscore.
abbrev pub IsPlain : Text → Type 0
IsPlain = All (λ c. c ≢ underscore)

cut_underscore-append :
    (p b : Text) → IsPlain p → cut_underscore (p ++ underscore ∷ b) ≡ some (p, b)
unfolding cut_underscore
cut_underscore-append [] b h = refl
cut_underscore-append (c ∷ p) b h = rw (cut_underscore-append p b h.1) (ground arith)

-- What is cut is put together again, and the part before is plain.
abbrev Cuts : Text → Option (Text × Text) → Type 0
Cuts s none = Unit
Cuts s (some (a, b)) = (s ≡ a ++ underscore ∷ b) × IsPlain a

cut_underscore-Cuts : (s : Text) → Cuts s (cut_underscore s)
unfolding cut_underscore
cut_underscore-Cuts [] = tt
cut_underscore-Cuts (c ∷ s) = elim (Bool-cases (c == underscore)) [
  | inl here ↦ rw here (let e : c ≡ underscore = ground arith in (rw e refl, tt))
  | inr away ↦ rw away (pushed (cut_underscore s) (λ e. ground arith) (cut_underscore-Cuts s))
]
  where
    pushed : (o : Option (Text × Text)) → c ≢ underscore → Cuts s o → Cuts (c ∷ s) (push c o)
    pushed none ne h = tt
    pushed (some (a, b)) ne h = (ap (λ t. c ∷ t) h.0, (ne, h.1))

all_digits-append : (s t : Text) → all_digits (s ++ t) ≡ (all_digits s && all_digits t)
unfolding all_digits
all_digits-append [] t = refl
all_digits-append (c ∷ s) t = ground (arith, all_digits-append s t)

all_digits-base32 : (n v : ℕ) → all_digits (base32 n v) ≡ true
unfolding base32
all_digits-base32 zero v = unfold all_digits in refl
all_digits-base32 (suc n) v =
    rw
      (
        all_digits-append (base32 n (v / 32)) (digit_char (v % 32) ∷ []),
        all_digits-base32 n (v / 32),
      )
      (unfold all_digits in rw (decode_table-digit_char (v % 32) (omega arith)))

valid_body-base32 : (v : ℕ) → valid_body (base32 26 v) ≡ true
unfolding valid_body
valid_body-base32 v = rw (length-base32 26 v, all_digits-base32 26 v)

module _ (prefix : Text) (c : ℕ) (ms : ℕ) (fresh : Option (List ℕ)) (m : Monotonic) where
  abbrev id : Text
  id = (new_id (c ∷ prefix) ms fresh m).0

  module _ (plain : IsPlain (c ∷ prefix)) (entropy : IsEntropy m.last_rand) (f : IsFresh fresh)
      (small : ms < 2 ^ 48) where
    number : ℕ
    number = ms * 2 ^ 80 + be_value 0 (next_entropy ms fresh m)

    cut-id : cut_underscore id ≡ some (c ∷ prefix, base32 26 number)
    unfolding new_id number
    cut-id =
        rw
          (body-eq-base32 ms (next_entropy ms fresh m) small
            (next_entropy-IsEntropy ms fresh m entropy f))
          (cut_underscore-append (c ∷ prefix)
            (base32 26 (ms * 2 ^ 80 + be_value 0 (next_entropy ms fresh m))) plain)

    -- A new id carries its type prefix and the clock: `Prefix` and `Time` read both back, and
    -- `Valid` accepts it. The prefix is not empty and has no underscore, the clock is below 2^48, and
    -- the kept entropy and what `rand.Read` gives, where it gives any, are ten bytes.
    pub new_id_reads_back :
        (prefix_of id ≡ c ∷ prefix) × (valid id (c ∷ prefix) ≡ true) × (time_of id ≡ some ms)
    unfolding prefix_of valid
    new_id_reads_back = (reads, rw reads (text_eq_refl (c ∷ prefix)), clock)
      where
        reads : well_formed (cut_underscore id) ≡ c ∷ prefix
        reads = rw cut-id (rw (valid_body-base32 number))

        entropy_lt : be_value 0 (next_entropy ms fresh m) < 2 ^ 80
        entropy_lt =
            let v = next_entropy-IsEntropy ms fresh m entropy f in
            rw v.1 at (be_value-lt (next_entropy ms fresh m) v.0)

        high : number / 32 ^ 16 ≡ ms
        high = unfold number in omega (arith, entropy_lt)

        first_ten : take 10 (base32 26 number) ≡ base32 10 ms
        first_ten =
            ap (take 10) (base32-split 16 10 number)
            ∙ take-append_self 10 (base32 10 (number / 32 ^ 16)) (base32 16 number)
                (length-base32 10 (number / 32 ^ 16))
            ∙ ap (base32 10) high

        clock : time_of id ≡ some ms
        clock =
            unfold time_of in
            rw reads (
              rw cut-id
                (rw first_ten (ap some (decode_from-base32 10 ms (omega arith) (omega arith)))))

-- `Valid` accepts a text for a type prefix (one that is not empty) exactly when the text is that
-- prefix, an underscore and a body of 26 characters of the alphabet, and the prefix has no underscore.
pub valid_iff :
    (s prefix : Text)
    → is_empty prefix ≡ false
    → (valid s prefix ≡ true)
      ↔ ((b : Text) × (s ≡ prefix ++ underscore ∷ b) × IsPlain prefix × (valid_body b ≡ true))
unfolding valid prefix_of
valid_iff s prefix full = (forth (cut_underscore s) (cut_underscore-Cuts s), back)
  where
    empty : (p : Text) → is_empty p ≡ false → ¬ (text_eq [] p ≡ true)
    empty [] f e = cc
    empty (x ∷ p) f e = cc (text_eq_sound [] (x ∷ p) e)

    forth :
        (o : Option (Text × Text))
        → Cuts s o
        → text_eq (well_formed o) prefix ≡ true
        → (b : Text) × (s ≡ prefix ++ underscore ∷ b) × IsPlain prefix × (valid_body b ≡ true)
    forth none h e = absurd (empty prefix full e)
    forth (some (a, b)) h e = elim (Bool-cases (not (is_empty a) && valid_body b)) [
      | inl good ↦
          let same : a ≡ prefix = text_eq_sound a prefix (rw good at e) in
          (b, rw same at h.0, rw same at h.1, ground arith)
      | inr bad ↦ absurd (empty prefix full (rw bad at e))
    ]

    back :
        (b : Text) × (s ≡ prefix ++ underscore ∷ b) × IsPlain prefix × (valid_body b ≡ true)
        → text_eq (well_formed (cut_underscore s)) prefix ≡ true
    back (b, e, plain, body) =
        rw (e, cut_underscore-append prefix b plain) (rw (full, body) (text_eq_refl prefix))
