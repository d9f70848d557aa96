-- ===== src/Tokens/Scopes.antt =====
-- The scopes of a token as they are stored: joined, and split again.
use aurium.Base.{◌≡◌, refl, ap, ◌∙◌, false, List, [], ◌∷◌, ◌++◌, Text, any, All, ◌==◌, arith}
use aurium.Tokens.{comma, join_scopes, split_scopes}

abbrev pub HasNoComma : Text → Type 0
HasNoComma s = any (λ c. c == comma) s ≡ false

split_one : (s : Text) → HasNoComma s → split_scopes s ≡ s ∷ []
unfolding split_scopes
split_one [] h = refl
split_one (c ∷ s) h = ground (arith, split_one s)

split_first :
    (s rest : Text) → HasNoComma s → split_scopes (s ++ comma ∷ rest) ≡ s ∷ split_scopes rest
unfolding split_scopes
split_first [] rest h = refl
split_first (c ∷ s) rest h = ground (arith, split_first s rest)

-- A list of scopes, of which none has a comma, is read back as it was stored. A list of none is read
-- back as the empty scope alone.
pub split-join :
    (scope : Text) (scopes : List Text)
    → All HasNoComma (scope ∷ scopes)
    → split_scopes (join_scopes (scope ∷ scopes)) ≡ scope ∷ scopes
unfolding join_scopes
split-join scope [] (h, hs) = split_one scope h
split-join scope (next ∷ scopes) (h, hs) =
    split_first scope (join_scopes (next ∷ scopes)) h
    ∙ ap (λ xs. scope ∷ xs) (split-join next scopes hs)
