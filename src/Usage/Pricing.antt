-- ===== src/Usage/Pricing.antt =====
-- internal/usage/pricing.go: the price of a model, by the longest prefix that the table has.
--
-- `normal` is `strings.ToLower` of `strings.TrimSpace`, a parameter. A price is in hundredths of a
-- dollar. Go ranges over a map in an order of its own, so the keys' order is an argument.
-- `Cost` is not modelled: it is floating-point arithmetic.
pub mod Longest
use aurium.Base.{
  ℕ, Bool, true, false, ◌&&◌, Option, none, some, List, [], ◌∷◌, Text, codes, text_eq, is_empty,
  length, map, ltb, ◌==◌, if◌then◌else◌,
}

-- `Price`
pub record Price : Type 0 where
  pub provider : Text
  pub input_pmt : ℕ
  pub output_pmt : ℕ

abbrev anthropic : ℕ → ℕ → Price
anthropic i o = record { provider = codes "anthropic"; input_pmt = i; output_pmt = o }

abbrev openai : ℕ → ℕ → Price
openai i o = record { provider = codes "openai"; input_pmt = i; output_pmt = o }

-- `prices`
abbrev pub prices : List (Text × Price)
prices =
    (codes "claude-opus-5", anthropic 1500 7500)
    ∷ (codes "claude-sonnet-5", anthropic 300 1500)
    ∷ (codes "claude-haiku-4", anthropic 80 400)
    ∷ (codes "claude-opus-4", anthropic 1500 7500)
    ∷ (codes "claude-sonnet-4", anthropic 300 1500)
    ∷ (codes "gpt-5", openai 125 1000)
    ∷ (codes "gpt-5-mini", openai 25 200)
    ∷ (codes "gpt-4.1", openai 200 800)
    ∷ (codes "gpt-4o", openai 250 1000)
    ∷ (codes "o3", openai 200 800)
    ∷ []

-- `strings.HasPrefix`, the prefix first.
unfoldable pub is_prefix : Text → Text → Bool
is_prefix [] s = true
is_prefix (c ∷ p) [] = false
is_prefix (c ∷ p) (d ∷ s) = (c == d) && is_prefix p s

abbrev pub better : Text → Text → Text → Text
better m key best = if is_prefix key m && ltb (length best) (length key) then key else best

-- The loop of `Lookup`.
unfoldable pub best_from : Text → Text → List Text → Text
unfolding is_prefix
best_from m best [] = best
best_from m best (key ∷ keys) = best_from m (better m key best) keys

abbrev pub price_at : Text → List (Text × Price) → Option Price
price_at key [] = none
price_at key ((k, p) ∷ rest) = if text_eq key k then some p else price_at key rest

-- `prices[best]`, where the best is none if it is empty.
abbrev pub priced : Text → List (Text × Price) → Option Price
priced [] table = none
priced (c ∷ s) table = price_at (c ∷ s) table

-- `Lookup`, for a table and an order of its keys.
unfoldable pub lookup : (Text → Text) → List (Text × Price) → List Text → Text → Option Price
unfolding best_from
lookup normal table keys model =
    let m = normal model in if is_empty m then none else priced (best_from m [] keys) table

-- `Models`, in the table's order.
abbrev pub models : List Text
models = map (λ (r : Text × Price). r.0) prices

-- `ProviderFor`, with `strings.ToLower`.
unfoldable pub provider_for : (Text → Text) → Text → Text
provider_for lower adapter =
    if text_eq (lower adapter) (codes "claude")
    then codes "anthropic"
    else if text_eq (lower adapter) (codes "codex")
    then codes "openai"
    else []
