-- ===== src/Usage/Tests.antt =====
-- Prices by the table of the source.
use aurium.Base.{◌≡◌, refl, ◌↔◌, List, [], ◌∷◌, Text, codes, text_eq, arith}
use aurium.Usage.Pricing.{prices, models, is_prefix, best_from, lookup}
use aurium.Usage.Pricing.Longest.{Has, Prices, best, lookup_lem}

abbrev same : Text → Text
same m = m

best_mini : best (codes "gpt-5-mini-2026") models ≡ codes "gpt-5-mini"
unfolding best_from is_prefix text_eq
best_mini = refl

abbrev gpt : List Text
gpt = codes "gpt-5" ∷ codes "gpt-5-mini" ∷ []

abbrev gpt_back : List Text
gpt_back = codes "gpt-5-mini" ∷ codes "gpt-5" ∷ []

same_keys : (key : Text) → Has key gpt ↔ Has key gpt_back
same_keys key = (λ h. ground arith, λ h. ground arith)

abbrev model : Text
model = codes "gpt-5-mini-2026"

lookup_lem_example :
    Prices model prices gpt (lookup same prices gpt model)
    × (lookup same prices gpt model ≡ lookup same prices gpt_back model)
lookup_lem_example = lookup_lem same prices gpt gpt_back model same_keys
