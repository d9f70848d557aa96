-- ===== src/Glob.antt =====
-- `path.Match` of Go's standard library, which both grant tables match names with: `*` stands for
-- any run of characters but `/`, `?` for one of them, `[a-z]` and `[^a-z]` for one of a class, and
-- `\` takes the next character as it is. A malformed pattern is an error, whatever the name.
pub mod Literal
use aurium.Base.{
  ℕ, Bool, true, false, not, ◌&&◌, ◌||◌, Option, none, some, List, [], ◌∷◌, ◌++◌, Text, codes, leb,
  ◌==◌, if◌then◌else◌, is_empty,
}

abbrev pub slash : ℕ
slash = b'/'

pub data Token : Type 0 where
  star one : Token
  letter : ℕ → Token
  class : Bool → List (ℕ × ℕ) → Token

-- Where the scan of a pattern is. In a class: at its start, between items, behind a character, or
-- behind a dash; `negated` and the ranges so far come first, and a flag says that `\` was read.
pub data Mode : Type 0 where
  plain escaped class_start : Mode
  items : Bool → List (ℕ × ℕ) → Bool → Mode
  after_low : Bool → List (ℕ × ℕ) → ℕ → Mode
  after_dash : Bool → List (ℕ × ℕ) → ℕ → Bool → Mode

abbrev put : Token → Option (List Token) → Option (List Token)
put t none = none
put t (some ts) = some (t ∷ ts)

abbrev close : Bool → List (ℕ × ℕ) → Option (Option Token × Mode)
close neg [] = none
close neg (r ∷ rs) = some (some (class neg (r ∷ rs)), plain)

-- An item of a class begins; a class that is still empty cannot be closed.
abbrev step_item : Bool → List (ℕ × ℕ) → Bool → ℕ → Option (Option Token × Mode)
step_item neg rs true c = some (none, after_low neg rs c)
step_item neg rs false c =
    if c == b']'
    then close neg rs
    else if c == b'-'
    then none
    else if c == b'\\'
    then some (none, items neg rs true)
    else some (none, after_low neg rs c)

-- The upper end of a range.
abbrev step_high : Bool → List (ℕ × ℕ) → ℕ → Bool → ℕ → Option (Option Token × Mode)
step_high neg rs lo true c = some (none, items neg ((lo, c) ∷ rs) false)
step_high neg rs lo false c =
    if (c == b']') || (c == b'-')
    then none
    else if c == b'\\'
    then some (none, after_dash neg rs lo true)
    else some (none, items neg ((lo, c) ∷ rs) false)

-- What one character does in a mode: an error, or a finished token and the next mode.
abbrev pub step : Mode → ℕ → Option (Option Token × Mode)
step plain c =
    if c == b'*'
    then some (some star, plain)
    else if c == b'?'
    then some (some one, plain)
    else if c == b'\\'
    then some (none, escaped)
    else if c == b'['
    then some (none, class_start)
    else some (some (letter c), plain)
step escaped c = some (some (letter c), plain)
step class_start c =
    if c == b'^' then some (none, items true [] false) else step_item false [] false c
step (items neg rs esc) c = step_item neg rs esc c
step (after_low neg rs lo) c =
    if c == b'-'
    then some (none, after_dash neg rs lo false)
    else step_item neg ((lo, lo) ∷ rs) false c
step (after_dash neg rs lo esc) c = step_high neg rs lo esc c

-- A pattern ends between tokens.
abbrev at_end : Mode → Option (List Token)
at_end plain = some []
at_end _ = none

unfoldable pub tokens : Mode → Text → Option (List Token)
tokens m [] = at_end m
tokens m (c ∷ s) = elim (step m c) [
  | none ↦ none
  | some (out, m') ↦ elim out [ none ↦ tokens m' s | some t ↦ put t (tokens m' s) ]
]

abbrev within : ℕ → List (ℕ × ℕ) → Bool
within c [] = false
within c ((lo, hi) ∷ rs) = (leb lo c && leb c hi) || within c rs

abbrev xor_neg : Bool → Bool → Bool
xor_neg true b = not b
xor_neg false b = b

-- How a match ends: well, with no match at this place, or with none at all.
pub data Outcome : Type 0 where
  yes no_match_here no_match : Outcome

-- The tokens up to the next star are a chunk. Behind a star a chunk is tried at each place in turn, and
-- the first place where it matches is kept, as `Match` does; the last chunk has to reach the end.
unfoldable pub try_match : List Token → Text → Outcome
try_match [] [] = yes
try_match [] (c ∷ s) = no_match_here
try_match (star ∷ ts) [] = elim (try_match ts []) [
  | yes ↦ yes
  | no_match_here ↦ no_match
  | no_match ↦ no_match
]
try_match (star ∷ ts) (c ∷ s) = elim (try_match ts (c ∷ s)) [
  | yes ↦ yes
  | no_match_here ↦ elim (c == slash) [ true ↦ no_match | false ↦ try_match (star ∷ ts) s ]
  | no_match ↦ no_match
]
try_match (one ∷ ts) [] = no_match_here
try_match (one ∷ ts) (c ∷ s) = elim (c == slash) [ true ↦ no_match_here | false ↦ try_match ts s ]
try_match (letter d ∷ ts) [] = no_match_here
try_match (letter d ∷ ts) (c ∷ s) = elim (d == c) [ true ↦ try_match ts s | false ↦ no_match_here ]
try_match (class neg rs ∷ ts) [] = no_match_here
try_match (class neg rs ∷ ts) (c ∷ s) = elim (xor_neg neg (within c rs)) [
  | true ↦ try_match ts s
  | false ↦ no_match_here
]

abbrev pub is_yes : Outcome → Bool
is_yes yes = true
is_yes _ = false

unfoldable pub matches : List Token → Text → Bool
unfolding try_match
matches ts s = is_yes (try_match ts s)

abbrev matched : Option (List Token) → Text → Option Bool
matched none s = none
matched (some ts) s = some (matches ts s)

-- `path.Match`; `none` is `ErrBadPattern`.
unfoldable pub path_match : Text → Text → Option Bool
unfolding tokens matches
path_match pattern name = matched (tokens plain pattern) name

-- `ok, err := path.Match(glob, name); return err == nil && ok`
abbrev pub is_match : Option Bool → Bool
is_match none = false
is_match (some b) = b
