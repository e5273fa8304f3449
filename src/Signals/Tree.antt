-- ===== src/Signals/Tree.antt =====
-- `_tree_depths` of backend/app/signals.py and the tree that `build_process_signals` hands it.
pub mod Depths
use whs_dynamic.Base.{
  ℕ, zero, suc, ◌+◌, List, [], ◌∷◌, ◌++◌, Option, none, some, Bool, true, false, Text, codes,
  String, ◌==◌, nat_eq, list_eq, string_eq, contains, find, put, map, lower, length, if◌then◌else◌,
  ◌>>=◌,
}
use whs_dynamic.Event.{Value, null, boolean, number, text, texts, Data, Event, get_key}

pub record Node : Type 0 where
  pub exe : Text
  pub stage : String
  pub ppid : Option ℕ

abbrev pub Tree : Type 0
Tree = List (ℕ × Node)

abbrev pub Depths : Type 0
Depths = List (ℕ × ℕ)

-- `tree.get(pid, {}).get("ppid")`
unfoldable pub parent_of : Tree → ℕ → Option ℕ
parent_of tree pid = elim (find pid tree) [ none ↦ none | some node ↦ node.ppid ]

-- `pid in tree`
unfoldable pub in_tree : Tree → ℕ → Bool
in_tree tree pid = elim (find pid tree) [ none ↦ false | some node ↦ true ]

-- `ppid is None or ppid not in tree or ppid in seen` is a missing `next_pid`.
unfoldable pub next_pid : Tree → List ℕ → ℕ → Option ℕ
unfolding parent_of in_tree
next_pid tree seen pid = elim (parent_of tree pid) [
  | none ↦ none
  | some ppid ↦ if in_tree tree ppid then (if contains seen ppid then none else some ppid) else none
]

-- `resolve`, on fuel: the depth and the memo table.
unfoldable pub resolve : ℕ → Tree → ℕ → List ℕ → Depths → Option (ℕ × Depths)
unfolding next_pid
resolve zero tree pid seen depth = none
resolve (suc fuel) tree pid seen depth = elim (find pid depth) [
  | some d ↦ some (d, depth)
  | none ↦ elim (next_pid tree seen pid) [
    | none ↦ some (0, put pid 0 depth)
    | some ppid ↦ elim (resolve fuel tree ppid (ppid ∷ seen) depth) [
      | none ↦ none
      | some (d, depth') ↦ some (suc d, put pid (suc d) depth')
    ]
  ]
]

unfoldable pub resolve_all : ℕ → Tree → List ℕ → Depths → Option Depths
unfolding resolve
resolve_all fuel tree [] depth = some depth
resolve_all fuel tree (pid ∷ pids) depth = elim (resolve fuel tree pid (pid ∷ []) depth) [
  | none ↦ none
  | some (d, depth') ↦ resolve_all fuel tree pids depth'
]

-- `_tree_depths`, with a round for every node and one more.
unfoldable pub tree_depths : Tree → Option Depths
unfolding resolve_all
tree_depths tree = resolve_all (suc (length tree)) tree (map (λ e. e.0) tree) []
