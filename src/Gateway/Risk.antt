-- ===== src/Gateway/Risk.antt =====
-- internal/gateway/risk.go: the risk of a capability, guessed from the words of its name.
--
-- A name is read as ASCII: a byte is a rune.

use aurium.Base.{
  ℕ, ◌+◌, Bool, not, ◌&&◌, ◌||◌, List, [], ◌∷◌, ◌++◌, Text, codes, text_eq, is_empty, any, map, leb,
  ◌==◌, if◌then◌else◌,
}

pub data Risk : Type 0 where
  low medium high : Risk

abbrev pub high_verbs : List Text
high_verbs =
    codes "delete"
    ∷ codes "remove"
    ∷ codes "drop"
    ∷ codes "destroy"
    ∷ codes "merge"
    ∷ codes "force"
    ∷ codes "purge"
    ∷ codes "revoke"
    ∷ codes "disable"
    ∷ codes "terminate"
    ∷ codes "close"
    ∷ codes "archive"
    ∷ codes "transfer"
    ∷ codes "pay"
    ∷ []

abbrev pub medium_verbs : List Text
medium_verbs =
    codes "create"
    ∷ codes "update"
    ∷ codes "write"
    ∷ codes "push"
    ∷ codes "comment"
    ∷ codes "add"
    ∷ codes "set"
    ∷ codes "edit"
    ∷ codes "post"
    ∷ codes "send"
    ∷ codes "assign"
    ∷ codes "label"
    ∷ codes "upload"
    ∷ codes "move"
    ∷ codes "rename"
    ∷ codes "patch"
    ∷ []

abbrev pub low_verbs : List Text
low_verbs =
    codes "get"
    ∷ codes "list"
    ∷ codes "search"
    ∷ codes "read"
    ∷ codes "fetch"
    ∷ codes "find"
    ∷ codes "query"
    ∷ codes "show"
    ∷ codes "describe"
    ∷ codes "view"
    ∷ codes "count"
    ∷ codes "check"
    ∷ codes "diff"
    ∷ codes "log"
    ∷ []

unfoldable pub is_upper : ℕ → Bool
is_upper c = leb b'A' c && leb c b'Z'

unfoldable pub is_separator : ℕ → Bool
is_separator c = (c == b'_') || ((c == b'-') || ((c == b'.') || ((c == b'/') || (c == b' '))))

-- `strings.ToLower`
unfoldable pub to_lower : ℕ → ℕ
unfolding is_upper
to_lower c = if is_upper c then c + 32 else c

-- `flush`: the word so far, if it is not empty, is put behind the others.
unfoldable pub flush : List Text → Text → List Text
unfolding to_lower
flush parts [] = parts
flush parts (c ∷ cur) = parts ++ map to_lower (c ∷ cur) ∷ []

-- The loop of `splitIdentifier`: the words, the current word, and the character before. A capital
-- starts a word unless a capital stands before it.
unfoldable pub split_from : List Text → Text → ℕ → Text → List Text
unfolding flush is_separator is_upper
split_from parts cur prev [] = flush parts cur
split_from parts cur prev (c ∷ s) =
    let next : List Text × Text =
      if is_separator c
      then (flush parts cur, [])
      else if is_upper c && (not (is_empty cur) && not (is_upper prev))
      then (flush parts cur, c ∷ [])
      else (parts, cur ++ c ∷ []) in
    split_from next.0 next.1 c s

unfoldable pub split_identifier : Text → List Text
unfolding split_from
split_identifier s = split_from [] [] 0 s

abbrev pub has_word : List Text → Text → Bool
has_word words want = any (λ w. text_eq w want) words

-- The first list of verbs that holds a word decides.
unfoldable pub classify_risk : Text → Risk
unfolding split_identifier
classify_risk name =
    let words = split_identifier name in
    if any (has_word words) high_verbs
    then high
    else if any (has_word words) medium_verbs
    then medium
    else if any (has_word words) low_verbs
    then low
    else medium
