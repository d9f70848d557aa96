-- ===== src/Ids.antt =====
-- Identifiers: internal/ids/ids.go. A type prefix, an underscore, and 26 characters of Crockford's
-- base 32 for 48 bits of milliseconds and 80 bits of entropy.
--
-- The clock and `rand.Read` are arguments, and the variable `monotonic` is a record that is passed
-- on; its lock makes a call one step. Bytes and words are natural numbers with their wrap written
-- out. `x & 0x1f` is `x % 32`, and a shift is a product or a quotient by a power of two.
pub mod Bits
pub mod Words
pub mod Codec
pub mod Order
pub mod Format
mod Tests
use Prim.Native.Nat.{bit_or}
use aurium.Base.{
  ℕ, zero, suc, ◌+◌, ◌*◌, ◌/◌, ◌%◌, ◌^◌, ◌<◌, Bool, true, false, ◌&&◌, not, Option, none, some,
  List, [], ◌∷◌, ◌++◌, Text, codes, text_eq, is_empty, length, get_elem?, take, drop, ◌==◌,
  if◌then◌else◌,
}

abbrev pub u64 : ℕ
u64 = 2 ^ 64

abbrev pub underscore : ℕ
underscore = b'_'

abbrev pub crockford : Text
crockford = codes "0123456789ABCDEFGHJKMNPQRSTVWXYZ"

abbrev pub encoded_len : ℕ
encoded_len = 26

-- The `monotonic` variable.
pub record Monotonic : Type 0 where
  pub last_ms : ℕ
  pub last_rand : List ℕ

-- `crockford[i]`; an index out of range does not occur.
abbrev pub char_or_zero : Option ℕ → ℕ
char_or_zero none = 0
char_or_zero (some c) = c

unfoldable pub digit_char : ℕ → ℕ
digit_char d = char_or_zero (get_elem? crockford d)

-- `decodeTable`: the place of a byte in the alphabet, or -1.
abbrev pub place_from : ℕ → Text → ℕ → Option ℕ
place_from i [] c = none
place_from i (a ∷ rest) c = if a == c then some i else place_from (suc i) rest c

unfoldable pub decode_table : ℕ → Option ℕ
decode_table c = place_from 0 crockford c

-- `entropy[i]++`, and whether the loop goes on: the byte became zero.
abbrev pub bump : ℕ → List ℕ → List ℕ × Bool
bump b bs = (((b + 1) % 256) ∷ bs, (b + 1) % 256 == 0)

-- The loop over the bytes from the last one up: the bytes, and whether the first one wrapped.
unfoldable pub increment : List ℕ → List ℕ × Bool
increment [] = ([], true)
increment (b ∷ bs) = let (cs, carry) = increment bs in if carry then bump b cs else (b ∷ cs, false)

-- `binary.BigEndian.PutUint64` and `Uint64`
unfoldable pub be_bytes : ℕ → ℕ → List ℕ
be_bytes zero x = []
be_bytes (suc n) x = ((x / 256 ^ n) % 256) ∷ be_bytes n x

unfoldable pub be_value : ℕ → List ℕ → ℕ
be_value acc [] = acc
be_value acc (b ∷ bs) = be_value (acc * 256 + b) bs

drawn : ℕ → Option (List ℕ) → List ℕ
unfolding be_bytes
drawn ms none = be_bytes 8 ms ++ 0 ∷ 0 ∷ []
drawn ms (some bytes) = bytes

-- The entropy of a new id: the last one plus one within a millisecond, else fresh bytes, or the
-- clock where there are none.
unfoldable pub next_entropy : ℕ → Option (List ℕ) → Monotonic → List ℕ
unfolding increment drawn
next_entropy ms fresh m = if ms == m.last_ms then (increment m.last_rand).0 else drawn ms fresh

-- `encode`: 26 rounds on the two words, from the last character up.
unfoldable pub encode_loop : ℕ → ℕ → ℕ → Text → Text
encode_loop zero hi lo out = out
encode_loop (suc n) hi lo out =
    encode_loop n (hi / 32) (bit_or (lo / 32) (hi * 2 ^ 59 % u64)) (digit_char (lo % 32) ∷ out)

unfoldable pub encode : List ℕ → Text
unfolding encode_loop be_value
encode raw = encode_loop encoded_len (be_value 0 (take 8 raw)) (be_value 0 (drop 8 raw)) []

-- `New`: the id, and the variable afterwards.
unfoldable pub new_id : Text → ℕ → Option (List ℕ) → Monotonic → Text × Monotonic
unfolding encode next_entropy be_bytes
new_id prefix ms fresh m =
    let entropy = next_entropy ms fresh m in
    (
      prefix ++ underscore ∷ encode (be_bytes 6 ms ++ entropy),
      record { last_ms = ms; last_rand = entropy },
    )

abbrev push : ℕ → Option (Text × Text) → Option (Text × Text)
push c none = none
push c (some (a, b)) = some (c ∷ a, b)

-- `strings.IndexByte(id, '_')`, as what stands before and after it.
unfoldable pub cut_underscore : Text → Option (Text × Text)
cut_underscore [] = none
cut_underscore (c ∷ s) =
    let rest = cut_underscore s in if c == underscore then some ([], s) else push c rest

abbrev is_digit : Option ℕ → Bool
is_digit none = false
is_digit (some _) = true

unfoldable pub all_digits : Text → Bool
all_digits [] = true
all_digits (c ∷ s) = is_digit (decode_table c) && all_digits s

unfoldable pub valid_body : Text → Bool
unfolding all_digits
valid_body body = (length body == encoded_len) && all_digits body

-- `Prefix`; the empty text is the answer for an id that is not well formed.
abbrev well_formed : Option (Text × Text) → Text
well_formed none = []
well_formed (some (a, b)) = if not (is_empty a) && valid_body b then a else []

unfoldable pub prefix_of : Text → Text
unfolding cut_underscore valid_body
prefix_of id = well_formed (cut_underscore id)

-- `Valid`
unfoldable pub valid : Text → Text → Bool
unfolding prefix_of
valid id prefix = text_eq (prefix_of id) prefix

-- The loop of `Time`: `ms<<5 | decodeTable[c]` for the first ten characters.
abbrev value_or_zero : Option ℕ → ℕ
value_or_zero none = 0
value_or_zero (some d) = d

unfoldable pub decode_from : ℕ → Text → ℕ
decode_from ms [] = ms
decode_from ms (c ∷ s) = decode_from (bit_or (ms * 32 % u64) (value_or_zero (decode_table c))) s

abbrev body_of : Option (Text × Text) → Text
body_of none = []
body_of (some (a, b)) = b

-- `Time`, in milliseconds; `none` is the zero time.
unfoldable pub time_of : Text → Option ℕ
unfolding prefix_of decode_from
time_of id =
    if is_empty (prefix_of id)
    then none
    else some (decode_from 0 (take 10 (body_of (cut_underscore id))))
