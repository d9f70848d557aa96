-- ===== src/Stack/Tests.antt =====
-- A small forest, and syncs of a repository that is a list of moves.
use aurium.Base.{
  ◌≡◌, refl, ℕ, Bool, true, false, none, some, List, [], ◌∷◌, ◌++◌, Text, codes, text_eq, is_empty,
  All, ◌⊎◌, if◌then◌else◌,
}
use aurium.Stack.Forest.{Container, roots, sort_nodes, visit, topo_order}
use aurium.Stack.Forest.Count.{In}
use aurium.Stack.Forest.Order.{IsDistinct, ParentsFirst, topo_order-ParentsFirst}
use aurium.Stack.Forest.Cycles.{topo_order-IsCyclic}
use aurium.Stack.Forest.Complete.{topo_order_complete}
use aurium.Stack.Sync.{Target, Options, done, Git, Files, rebase_in_progress, sync}
use aurium.Stack.Sync.Refusals.{MayRebase, sync-MayRebase}
use aurium.Stack.Sync.Bases.{HasBase, sync-HasBase}

abbrev node : Text → Text → Text → Container
node id parent branch = record { id = id; parent_container_id = parent; branch = branch }

-- A root, its child, an orphan, and a container that is its own parent.
abbrev rows : List Container
rows =
    node (codes "b") (codes "a") (codes "b")
    ∷ node (codes "a") [] (codes "a")
    ∷ node (codes "o") (codes "gone") (codes "c")
    ∷ []

abbrev looped : List Container
looped = rows ++ node (codes "l") (codes "l") (codes "d") ∷ []

topo_order-ParentsFirst_example :
    IsDistinct (topo_order looped (roots looped))
    × ParentsFirst (roots looped) [] (topo_order looped (roots looped))
topo_order-ParentsFirst_example = topo_order-ParentsFirst looped (roots looped)

abbrev rank : Text → ℕ
rank i = if text_eq i (codes "b") then 1 else 0

topo_order_complete_example : All (λ (c : Container). In c.id (topo_order rows (roots rows))) rows
unfolding text_eq
topo_order_complete_example = topo_order_complete rows rank (refl, (refl, (refl, tt)))

abbrev is_loop : Text → Bool
is_loop i = text_eq i (codes "l")

topo_order-IsCyclic_example :
    All (λ (c : Container). is_loop c.id ≡ false) (topo_order looped (roots looped))
unfolding text_eq
topo_order-IsCyclic_example = topo_order-IsCyclic looped is_loop (refl, (refl, (refl, (refl, tt))))

order_rows :
    topo_order looped (roots looped)
    ≡ node (codes "a") [] (codes "a")
      ∷ node (codes "b") (codes "a") (codes "b")
      ∷ node (codes "o") (codes "gone") (codes "c")
      ∷ []
unfolding topo_order visit sort_nodes text_eq
order_rows = refl

-- The parent's branch is at "2" and the child was built on "1".
abbrev git : Git (List Text)
git = record {
  rev_parse = λ b g. some (codes "2");
  is_ancestor = λ a b g. some true;
  is_clean = λ g. some true;
  count = λ a b g. some 1;
  unmerged = λ g. none;
  rebase = λ s onto base branch g. (done, onto ∷ g);
  abort = λ g. g;
}

abbrev files : Files
files = record {
  stat = λ p. if is_empty p then some true else none;
  read_file = λ p. none;
  join = λ a b. a ++ b;
  trim_space = λ t. t;
}

abbrev target : Target
target = record { branch = codes "child"; parent_branch = codes "main"; base_sha = codes "1" }

abbrev plain : Options
plain = record { dry_run = false; autostash = false; abort_on_conflict = false; force = false }

sync-MayRebase_example :
    ((sync git files (codes "w") target plain []).1 ≡ [])
    ⊎ MayRebase git target plain [] (rebase_in_progress files (codes "w"))
sync-MayRebase_example = sync-MayRebase git target plain [] files (codes "w")

sync-HasBase_example : HasBase git target plain [] (sync git files (codes "w") target plain [])
sync-HasBase_example = sync-HasBase git target plain [] files (codes "w")
