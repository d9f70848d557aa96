-- ===== src/Gateway/Grants/Strictest.antt =====
-- The loop and the fall-through of `resolve` against an order-free description.
use aurium.Base.{
  ◌≡◌, refl, ap, ◌∙◌, Bool, true, false, ◌&&◌, Option, none, some, List, [], ◌∷◌, Text, is_empty,
  any, select, arith, if◌then◌else◌,
}
use aurium.Db.{Result, Faults, Sql, query}
use aurium.Db.Rules.{Post, query_rule, bind_rule, Post-mono}
use aurium.Gateway.Grants.{
  Mode, allow, deny, approve, Level, Subject, Grant, Grants, match_capability, at_level, match_from,
  found_or, resolve_levels, levels, resolve,
}

abbrev pub is_mode : Mode → Mode → Bool
is_mode allow allow = true
is_mode deny deny = true
is_mode approve approve = true
is_mode _ _ = false

-- Whether a matching grant of a mode is among the rows.
abbrev pub has_grant : Mode → Text → List Grant → Bool
has_grant m capability =
    any (λ g. match_capability g.capability_glob capability && is_mode m g.mode)

-- The strictest matching mode.
abbrev pub strictest : Text → List Grant → Option Mode
strictest capability gs =
    if has_grant deny capability gs
    then some deny
    else if has_grant approve capability gs
    then some approve
    else if has_grant allow capability gs
    then some allow
    else none

abbrev pub mode_of : Option (Mode × Text) → Option Mode
mode_of none = none
mode_of (some (m, _)) = some m

-- What was found before, beside what the rest gives.
abbrev beside : Option Mode → Option Mode → Option Mode
beside none later = later
beside (some allow) none = some allow
beside (some allow) (some m) = some m
beside (some approve) none = some approve
beside (some approve) (some deny) = some deny
beside (some approve) (some _) = some approve
beside (some deny) _ = some deny

-- A deny is never carried on: it ends the loop.
abbrev IsCarried : Option (Mode × Text) → Type 0
IsCarried none = Unit
IsCarried (some (m, _)) = is_mode deny m ≡ false

match_from-beside :
    (capability : Text) (best : Option (Mode × Text)) (gs : List Grant)
    → IsCarried best
    → mode_of (match_from capability best gs) ≡ beside (mode_of best) (strictest capability gs)
unfolding match_from
match_from-beside capability none [] h = refl
match_from-beside capability (some (allow, g)) [] h = refl
match_from-beside capability (some (approve, g)) [] h = refl
match_from-beside capability (some (deny, g)) [] h = cc
match_from-beside capability none (g ∷ gs) h =
    let glob = g.capability_glob in
    let later_none = match_from-beside capability none gs tt in
    let later_allow = match_from-beside capability (some (allow, glob)) gs refl in
    let later_approve = match_from-beside capability (some (approve, glob)) gs refl in ground arith
match_from-beside capability (some (allow, old)) (g ∷ gs) h =
    let later_allow = match_from-beside capability (some (allow, old)) gs refl in
    let later_approve = match_from-beside capability (some (approve, g.capability_glob)) gs refl in
    ground arith
match_from-beside capability (some (approve, old)) (g ∷ gs) h =
    let later_approve = match_from-beside capability (some (approve, old)) gs refl in ground arith
match_from-beside capability (some (deny, old)) (g ∷ gs) h = cc

-- Within a level the order of the grants does not matter: the loop finds the strictest mode among
-- the grants whose glob matches, deny before approve before allow, and nothing if none matches.
pub match_from-strictest :
    (capability : Text) (gs : List Grant)
    → mode_of (match_from capability none gs) ≡ strictest capability gs
match_from-strictest capability gs = match_from-beside capability none gs tt

abbrev pub mode_or : Option Mode → Mode → Mode
mode_or none m = m
mode_or (some m) _ = m

-- The mode of the first level, of those that are named, that has a matching grant; else a deny.
abbrev pub verdict : Text → Text → Grants → List (Level × Text) → Mode
verdict integration capability gs [] = deny
verdict integration capability gs ((level, subject) ∷ rest) =
    let later = verdict integration capability gs rest in
    if is_empty subject
    then later
    else mode_or (strictest capability (select (at_level integration level subject) gs)) later

-- What a resolution gives, whichever statements the database refuses: the verdict or its failure.
abbrev pub Resolved : Mode → Grants → Result Text Mode × Grants × Faults → Type 0
Resolved m gs = Post (λ m' t. (m' ≡ m) × (t ≡ gs)) (λ _ _. ⊥) (λ t. t ≡ gs)

found_or-Resolved :
    (found : Option (Mode × Text)) (o : Option Mode) (m : Mode) (gs : Grants)
    (next : Sql Text Grants Mode) (fs : Faults)
    → mode_of found ≡ o
    → Resolved m gs (next gs fs)
    → Resolved (mode_or o m) gs (found_or found next gs fs)
found_or-Resolved none o m gs next fs e h =
    Post-mono (next gs fs) (λ a t h. (h.0 ∙ ap (λ o. mode_or o m) e, h.1)) (λ _ _ h. h) (λ _ h. h) h
found_or-Resolved (some (a, g)) o m gs next fs e h = (ap (λ o. mode_or o m) e, refl)

resolve_levels-Resolved :
    (integration capability : Text) (gs : Grants) (ls : List (Level × Text)) (fs : Faults)
    → Resolved
        (verdict integration capability gs ls)
        gs
        (resolve_levels integration capability ls gs fs)
unfolding resolve_levels
resolve_levels-Resolved integration capability gs [] fs = (refl, refl)
resolve_levels-Resolved integration capability gs ((level, []) ∷ rest) fs =
    resolve_levels-Resolved integration capability gs rest fs
resolve_levels-Resolved integration capability gs ((level, c ∷ subject) ∷ rest) fs =
    bind_rule _ (λ _ _. ⊥) (λ t. t ≡ gs) (λ rows t. (rows ≡ select here gs) × (t ≡ gs))
      (query (select here)) answer gs fs
      (query_rule _ (λ _ _. ⊥) (λ t. t ≡ gs) (select here) gs fs refl (refl, refl))
      (λ rows t fs h.
        rw (h.0, h.1)
          (found_or-Resolved (match_from capability none (select here gs))
            (strictest capability (select here gs)) (verdict integration capability gs rest) gs
            (resolve_levels integration capability rest) fs
            (match_from-strictest capability (select here gs))
            (resolve_levels-Resolved integration capability gs rest fs)))
  where
    here : Grant → Bool
    here = at_level integration level (c ∷ subject)

    answer : List Grant → Sql Text Grants Mode
    answer rows =
        found_or (match_from capability none rows) (resolve_levels integration capability rest)

pub resolve-verdict :
    (s : Subject) (integration capability : Text) (gs : Grants) (fs : Faults)
    → Resolved
        (verdict integration capability gs (levels s))
        gs
        (resolve s integration capability gs fs)
unfolding resolve
resolve-verdict s integration capability gs fs =
    resolve_levels-Resolved integration capability gs (levels s) fs
