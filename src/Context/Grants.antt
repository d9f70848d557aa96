-- ===== src/Context/Grants.antt =====
-- internal/contextengine/grants.go: what a subject may do with an item.
--
-- GetContainer is a query of the ids of the containers and their parents.
pub mod Justified
use aurium.Base.{
  ◌+◌, ℕ, zero, suc, ◌-◌, Bool, true, false, not, ◌&&◌, ◌||◌, Option, none, some, List, [], ◌∷◌,
  ◌++◌, Text, codes, text_eq, is_empty, any, select, length, take, drop, ltb, leb, ◌==◌,
  if◌then◌else◌,
}
use aurium.Db.{Result, ok, failed, err, Faults, Sql, pure, raise, ◌>>=◌, ◌>>◌, query, statement}
use aurium.Glob.{path_match, is_match}
use aurium.Context.Store.{
  Scope, project, container, agent, scope_eq, Ref, Perm, none_, read, append, propose, write,
  ContextError, permission,
}

-- `rank`
unfoldable pub rank : Perm → ℕ
rank none_ = 0
rank read = 1
rank append = 2
rank propose = 3
rank write = 4

-- `Perm.Allows`
unfoldable pub allows : Perm → Perm → Bool
unfolding rank
allows p want = leb (rank want) (rank p)

-- `Subject`
pub record Subject : Type 0 where
  pub agent_id : Text
  pub role : Text
  pub container_id : Text
  pub project_id : Text
  pub is_human : Bool

-- The types of subject that the table's CHECK allows.
pub data Level : Type 0 where
  by_agent by_role by_container by_project : Level

unfoldable pub level_eq : Level → Level → Bool
level_eq by_agent by_agent = true
level_eq by_role by_role = true
level_eq by_container by_container = true
level_eq by_project by_project = true
level_eq _ _ = false

-- `Grant`, a row of `context_grants`.
pub record Grant : Type 0 where
  pub id : Text
  pub scope : Scope
  pub scope_id : Text
  pub key_glob : Text
  pub subject_type : Level
  pub subject_id : Text
  pub perm : Perm

-- What the checks read: the grants, and the containers' ids with their parents.
pub record Access : Type 0 where
  pub grants : List Grant
  pub containers : List (Text × Text)

-- `GrantPerm`, with the id that `ids.New` would give.
abbrev pub insert_grant : Grant → Access → Result ContextError (Unit {0}) × Access
insert_grant g a =
    if any (λ (h : Grant). text_eq g.id h.id) a.grants
    then (failed, a)
    else (ok tt, record a { grants = a.grants ++ g ∷ [] })

unfoldable pub grant_perm : Text → Grant → Sql ContextError Access Grant
grant_perm fresh g = do
  let row : Grant = record g { id = if is_empty g.id then fresh else g.id }
  statement (insert_grant row)
  pure row

-- `containsSlash`
abbrev pub contains_slash : Text → Bool
contains_slash = any (λ c. c == b'/')

-- `hasPrefix`
unfoldable pub has_prefix : Text → Text → Bool
has_prefix s prefix = leb (length prefix) (length s) && text_eq (take (length prefix) s) prefix

-- `cutSuffix`: what stands before the suffix.
unfoldable pub cut_suffix : Text → Text → Option Text
cut_suffix s suffix =
    let n = length s - length suffix in
    if leb (length suffix) (length s) && text_eq (drop n s) suffix then some (take n s) else none

abbrev pub under_or : Option Text → Text → Bool → Bool
under_or none key rest = rest
under_or (some dir) key rest = text_eq key dir || has_prefix key (dir ++ codes "/")

-- `matchKey`
unfoldable pub match_key : Text → Text → Bool
unfolding path_match has_prefix cut_suffix
match_key glob key =
    if text_eq glob (codes "**") || (text_eq glob (codes "*") && not (contains_slash key))
    then true
    else under_or (cut_suffix glob (codes "/**")) key (is_match (path_match glob key))

-- The SQL of `bestGrant`.
abbrev pub at_level : Ref → Level → Text → Grant → Bool
at_level r level subject g =
    level_eq g.subject_type level
    && (text_eq g.subject_id subject
        && (scope_eq g.scope r.scope
            && (text_eq g.scope_id r.scope_id || text_eq g.scope_id (codes "*"))))

-- The loop of `bestGrant`: the strongest so far, and whether there was a match.
unfoldable pub best_from : Text → Perm → Bool → List Grant → Perm × Bool
unfolding rank
best_from key best found [] = (best, found)
best_from key best found (g ∷ gs) =
    if match_key g.key_glob key
    then best_from key (if ltb (rank best) (rank g.perm) then g.perm else best) true gs
    else best_from key best found gs

abbrev pub best_grant : Ref → Level → Text → Sql ContextError Access (Perm × Bool)
best_grant r level subject = do
  rows ← query (λ (a : Access). select (at_level r level subject) a.grants)
  pure (best_from r.key none_ false rows)

abbrev pub parent_in : Text → List (Text × Text) → Option Text
parent_in id [] = none
parent_in id ((c, p) ∷ cs) = if text_eq id c then some p else parent_in id cs

-- GetContainer as `isAncestorContainer` reads it: any error is a broken chain.
abbrev pub or_broken :
    Result ContextError (Option Text) × Access × Faults
    → Result ContextError (Option Text) × Access × Faults
or_broken (ok p, a, fs) = (ok p, a, fs)
or_broken (failed, a, fs) = (ok none, a, fs)
or_broken (err e, a, fs) = (ok none, a, fs)

abbrev pub parent_of : Text → Sql ContextError Access (Option Text)
parent_of id a fs = or_broken (query (λ (a : Access). parent_in id a.containers) a fs)

abbrev pub climb :
    Text
    → List Text
    → (Text → Sql ContextError Access Bool)
    → Option Text
    → Sql ContextError Access Bool
climb ancestor seen next none = pure false
climb ancestor seen next (some parent) =
    if is_empty parent
    then pure false
    else if text_eq parent ancestor
    then pure true
    else if any (text_eq parent) seen
    then pure false
    else next parent

-- The loop of `isAncestorContainer`, on the steps that are left.
unfoldable pub ancestor_from : ℕ → Text → List Text → Text → Sql ContextError Access Bool
ancestor_from zero ancestor seen current = pure false
ancestor_from (suc n) ancestor seen current =
    parent_of current
    >>= climb ancestor seen (λ parent. ancestor_from n ancestor (parent ∷ seen) parent)

unfoldable pub is_ancestor_container : Text → Text → Sql ContextError Access Bool
unfolding ancestor_from
is_ancestor_container child ancestor = ancestor_from 64 ancestor [] child

-- Whose context an item is; what is not read through an ancestor.
abbrev pub own : Subject → Ref → Perm
own s r =
    if scope_eq r.scope container && text_eq r.scope_id s.container_id
    then write
    else if scope_eq r.scope agent && text_eq r.scope_id s.agent_id
    then write
    else none_

abbrev pub read_or : Perm → Bool → Sql ContextError Access Perm
read_or p true = pure read
read_or p false = pure p

abbrev pub inherited : Subject → Ref → Sql ContextError Access Perm
inherited s r =
    if scope_eq r.scope container
      && (not (is_empty s.container_id) && not (text_eq r.scope_id s.container_id))
    then (is_ancestor_container s.container_id r.scope_id >>= read_or (own s r))
    else pure (own s r)

abbrev pub found_or : Sql ContextError Access Perm → Perm × Bool → Sql ContextError Access Perm
found_or next (p, true) = pure p
found_or next (p, false) = next

-- The levels in turn: the first that has a match decides.
unfoldable pub resolve_levels : Subject → Ref → List (Level × Text) → Sql ContextError Access Perm
unfolding is_ancestor_container best_from
resolve_levels s r [] = inherited s r
resolve_levels s r ((level, subject) ∷ rest) =
    if is_empty subject
    then resolve_levels s r rest
    else (best_grant r level subject >>= found_or (resolve_levels s r rest))

abbrev pub levels : Subject → List (Level × Text)
levels s =
    (by_agent, s.agent_id)
    ∷ (by_role, s.role)
    ∷ (by_container, s.container_id)
    ∷ (by_project, s.project_id)
    ∷ []

-- `ResolvePerm`
unfoldable pub resolve_perm : Subject → Ref → Sql ContextError Access Perm
unfolding resolve_levels
resolve_perm s r = if s.is_human then pure write else resolve_levels s r (levels s)

abbrev pub check : Ref → Perm → Perm → Sql ContextError Access (Unit {0})
check r want has = if allows has want then pure tt else raise (permission r want has)

-- `Require`
unfoldable pub require : Subject → Ref → Perm → Sql ContextError Access (Unit {0})
unfolding resolve_perm allows
require s r want = resolve_perm s r >>= check r want

-- The rows of `SeedDefaults`: a project's grants to a role.
abbrev pub default_grant : Text → Text → Text → Perm → Grant
default_grant id role glob perm = record {
  id = [];
  scope = project;
  scope_id = id;
  key_glob = glob;
  subject_type = by_role;
  subject_id = role;
  perm = perm;
}

abbrev pub lead_grants : Text → Text → List Grant
lead_grants id role =
    default_grant id role (codes "**") read
    ∷ default_grant id role (codes "architecture/**") propose
    ∷ default_grant id role (codes "conventions/**") propose
    ∷ default_grant id role (codes "decisions/**") append
    ∷ []

unfoldable pub default_grants : Text → List Grant
default_grants id =
    lead_grants id (codes "primary")
    ++ (lead_grants id (codes "master") ++ default_grant id (codes "worker") (codes "**") read ∷ [])

-- Rows added one by one, up to an error; `fresh` gives the id of each.
unfoldable pub grant_all : (ℕ → Text) → ℕ → List Grant → Sql ContextError Access (Unit {0})
unfolding grant_perm
grant_all fresh n [] = pure tt
grant_all fresh n (g ∷ gs) = grant_perm (fresh n) g >> grant_all fresh (n + 1) gs

-- `SeedDefaults`
unfoldable pub seed_defaults : (ℕ → Text) → Text → Sql ContextError Access (Unit {0})
unfolding grant_all default_grants
seed_defaults fresh id = grant_all fresh 0 (default_grants id)
