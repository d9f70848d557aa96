-- ===== src/Ids/Tests.antt =====
-- Ids at concrete clocks.
use aurium.Base.{ℕ, ◌≡◌, refl, true, none, some, List, [], ◌∷◌, ◌++◌, ◌↔◌, Text, codes, arith}
use aurium.Ids.{
  Monotonic, new_id, prefix_of, valid, time_of, valid_body, underscore, decode_table, digit_char,
  be_value,
}
use aurium.Ids.Order.{text_lt, new_id_increasing}
use aurium.Ids.Format.{IsPlain, new_id_reads_back, valid_iff}

abbrev start : Monotonic
start = record { last_ms = 0; last_rand = 0 ∷ 0 ∷ 0 ∷ 0 ∷ 0 ∷ 0 ∷ 0 ∷ 0 ∷ 0 ∷ 0 ∷ [] }

abbrev noise : List ℕ
noise = 1 ∷ 2 ∷ 3 ∷ 4 ∷ 5 ∷ 6 ∷ 7 ∷ 8 ∷ 9 ∷ 255 ∷ []

first_id :
    (new_id (codes "c") 1700000000000 (some noise) start).0 ≡ codes "c_01HF7YAT00041061050R3GG2FZ"
unfolding new_id digit_char
first_id = refl

not_an_id : prefix_of (codes "c_01HF7YAT0008103G81860W1T9I") ≡ []
unfolding prefix_of decode_table
not_an_id = refl

new_id_increasing_example :
    text_lt
      (new_id (codes "c") 1700000000000 (some noise) start).0
      (new_id
        (codes "c")
        1700000000000
        none
        (new_id (codes "c") 1700000000000 (some noise) start).1).0
    ≡ true
unfolding new_id be_value
new_id_increasing_example =
    new_id_increasing (codes "c") 1700000000000 1700000000000 (some noise) none start
      (omega arith, refl) (omega arith, refl) tt (omega arith) (omega arith) (λ _. omega arith)

new_id_reads_back_example :
    let id = (new_id (codes "ap") 1700000000000 none start).0 in
    (prefix_of id ≡ codes "ap") × (valid id (codes "ap") ≡ true) × (time_of id ≡ some 1700000000000)
new_id_reads_back_example =
    new_id_reads_back (codes "p") b'a' 1700000000000 none start (omega arith) (omega arith, refl) tt
      (omega arith)

valid_iff_example : (valid (codes "c_01HF7YAT0008103G81860W1T9Z") (codes "c") ≡ true) ↔ (
    (b : Text) × (codes "c_01HF7YAT0008103G81860W1T9Z" ≡ codes "c" ++ underscore ∷ b)
    × IsPlain (codes "c")
    × (valid_body b ≡ true))
valid_iff_example = valid_iff (codes "c_01HF7YAT0008103G81860W1T9Z") (codes "c") refl
