-- ===== src/Glob/Literal.antt =====
-- Patterns without special characters.
use aurium.Base.{
  ℕ, ◌≡◌, refl, Bool, true, false, ◌&&◌, List, some, [], ◌∷◌, Text, text_eq, All, arith, map, ◌==◌,
  ◌||◌,
}
use aurium.Glob.{
  Token, letter, plain, tokens, Outcome, no_match_here, is_yes, try_match, matches, path_match,
}

abbrev pub is_special : ℕ → Bool
is_special c = (c == b'*') || ((c == b'?') || ((c == b'\\') || (c == b'[')))

abbrev pub IsLiteral : Text → Type 0
IsLiteral = All (λ c. is_special c ≡ false)

tokens-literal : (s : Text) → IsLiteral s → tokens plain s ≡ some (map letter s)
unfolding tokens
tokens-literal [] h = refl
tokens-literal (c ∷ s) h = ground (arith, tokens-literal s h.1)

-- With the test of the first letter known.
letter_first :
    (b : Bool) (ts : List Token) (s t : Text)
    → matches ts t ≡ text_eq s t
    → is_yes (elim b as (λ _. Outcome) [ true ↦ try_match ts t | false ↦ no_match_here ])
      ≡ (b && text_eq s t)
unfolding matches
letter_first true ts s t h = h
letter_first false ts s t h = refl

matches-letters : (s t : Text) → matches (map letter s) t ≡ text_eq s t
unfolding matches text_eq
matches-letters [] [] = refl
matches-letters [] (d ∷ t) = refl
matches-letters (c ∷ s) [] = refl
matches-letters (c ∷ s) (d ∷ t) = letter_first (c == d) (map letter s) s t (matches-letters s t)

pub path_match-literal : (s t : Text) → IsLiteral s → path_match s t ≡ some (text_eq s t)
unfolding path_match
path_match-literal s t h = rw (tokens-literal s h, matches-letters s t)
