-- ===== src/Signals/Process/Trees.antt =====
-- The reported process tree: its pids and their depths.
use mathlib.Core.Path.{subst}
use whs_dynamic.Base.{
  ℕ, List, [], ◌∷◌, Option, none, some, Bool, true, ◌≡◌, sym, refl, ◌⊎◌, inl, inr, Text, nat_eq,
  string_eq, find, put, find-put, find-put_other, map, All, any, eqb, eqb_iff, Bool-cases,
  Option-cases, arith,
}
use whs_dynamic.Event.{Value, Data, Event}
use whs_dynamic.Signals.{of_type}
use whs_dynamic.Signals.Tree.{Node, Tree, Depths, in_tree}
use whs_dynamic.Signals.Tree.Depths.{AreDepths, tree_depths_lem}
use whs_dynamic.Signals.Process.{
  TreeNode, ProcessSignals, set_default, set_parent, child_of, first_node, add_parents, add_nodes,
  process_tree, with_depths, signals_of, build_process_signals,
}

in_tree-put_self : (pid : ℕ) (node : Node) (tree : Tree) → in_tree (put pid node tree) pid ≡ true
unfolding in_tree
in_tree-put_self pid node tree = rw (in_tree, find-put pid node tree) refl

in_tree-put :
    (k pid : ℕ) (node : Node) (tree : Tree)
    → in_tree tree k ≡ true
    → in_tree (put pid node tree) k ≡ true
unfolding in_tree
in_tree-put k pid node tree h = elim (Bool-cases (eqb pid k)) [
  | inl q ↦ rw ((eqb_iff pid k).0 q) (in_tree-put_self k node tree)
  | inr q ↦ rw (in_tree, find-put_other k pid node tree q) h
]

in_tree-set_default :
    (k pid : ℕ) (node : Node) (tree : Tree)
    → in_tree tree k ≡ true
    → in_tree (set_default pid node tree) k ≡ true
unfolding set_default
in_tree-set_default k pid node tree h = elim (Option-cases (find pid tree)) [
  | inl q ↦ rw (set_default, q) (in_tree-put k pid node tree h)
  | inr (old, q) ↦ rw (set_default, q) h
]

in_tree-set_default_self :
    (pid : ℕ) (node : Node) (tree : Tree) → in_tree (set_default pid node tree) pid ≡ true
unfolding set_default in_tree
in_tree-set_default_self pid node tree = elim (Option-cases (find pid tree)) [
  | inl q ↦ rw (set_default, q) (in_tree-put_self pid node tree)
  | inr (old, q) ↦ rw (set_default, q) (rw (in_tree, q) refl)
]

in_tree-set_parent :
    (k child : ℕ) (ppid : Option ℕ) (tree : Tree)
    → in_tree tree k ≡ true
    → in_tree (set_parent child ppid tree) k ≡ true
unfolding set_parent
in_tree-set_parent k child ppid tree h = elim (Option-cases (find child tree)) [
  | inl q ↦ rw (set_parent, q) h
  | inr (node, q) ↦ rw (set_parent, q) (in_tree-put k child _ tree h)
]

in_tree-add_parents :
    (k : ℕ) (events : List Event) (tree : Tree)
    → in_tree tree k ≡ true
    → in_tree (add_parents events tree) k ≡ true
unfolding add_parents
in_tree-add_parents k [] tree h = h
in_tree-add_parents k (e ∷ events) tree h = elim (Option-cases (child_of e)) [
  | inl q ↦ rw (add_parents, q) (in_tree-add_parents k events tree h)
  | inr (child, q) ↦
      rw (add_parents, q) (in_tree-add_parents k events _ (in_tree-set_parent k child e.pid tree h))
]

in_tree-add_nodes :
    (parse_ts : Text → Option ℕ) (to_str : Value → Text) (data_str : Data → Text) (k : ℕ)
    (events : List Event) (tree : Tree)
    → in_tree tree k ≡ true
    → in_tree (add_nodes parse_ts to_str data_str events tree) k ≡ true
unfolding add_nodes
in_tree-add_nodes parse_ts to_str data_str k [] tree h = h
in_tree-add_nodes parse_ts to_str data_str k (e ∷ events) tree h = elim (Option-cases e.pid) [
  | inl q ↦ rw (add_nodes, q) (in_tree-add_nodes parse_ts to_str data_str k events tree h)
  | inr (pid, q) ↦
      rw (add_nodes, q)
        (in_tree-add_nodes parse_ts to_str data_str k events _ (in_tree-set_default k pid _ tree h))
]

-- The pid of the event, if it has one, is in the tree.
abbrev pub IsIn : Tree → Event → Type 0
IsIn tree e = (e.pid ≡ none) ⊎ ((k : ℕ) × (e.pid ≡ some k) × (in_tree tree k ≡ true))

add_nodes-IsIn :
    (parse_ts : Text → Option ℕ) (to_str : Value → Text) (data_str : Data → Text)
    (events : List Event) (tree : Tree)
    → All (IsIn (add_nodes parse_ts to_str data_str events tree)) events
unfolding add_nodes
add_nodes-IsIn parse_ts to_str data_str [] tree = tt
add_nodes-IsIn parse_ts to_str data_str (e ∷ events) tree = elim (Option-cases e.pid) [
  | inl q ↦
      let same : add_nodes parse_ts to_str data_str (e ∷ events) tree
          ≡ add_nodes parse_ts to_str data_str events tree =
        rw (add_nodes, q) refl in
      (
        inl q,
        subst (λ t. All (IsIn t) events) (sym same)
            (add_nodes-IsIn parse_ts to_str data_str events tree),
      )
  | inr (pid, q) ↦
      let tree' = set_default pid (first_node parse_ts to_str data_str e) tree in
      let same : add_nodes parse_ts to_str data_str (e ∷ events) tree
          ≡ add_nodes parse_ts to_str data_str events tree' =
        rw (add_nodes, q) refl in
      let kept =
        in_tree-add_nodes parse_ts to_str data_str pid events tree'
          (in_tree-set_default_self pid _ tree) in
      (
        inr (pid, q, subst (λ t. in_tree t pid ≡ true) (sym same) kept),
        subst (λ t. All (IsIn t) events) (sym same)
            (add_nodes-IsIn parse_ts to_str data_str events tree'),
      )
]

-- Every node has the depth of the table.
abbrev pub IsNodeOf : Depths → TreeNode → Type 0
IsNodeOf depths n = find n.pid depths ≡ some n.depth

with_depths-IsNodeOf :
    (tree : Tree) (depths : Depths) → All (IsNodeOf depths) (with_depths tree depths)
unfolding with_depths
with_depths-IsNodeOf [] depths = tt
with_depths-IsNodeOf ((pid, node) ∷ tree) depths = elim (Option-cases (find pid depths)) [
  | inl q ↦ rw (with_depths, q) (with_depths-IsNodeOf tree depths)
  | inr (d, q) ↦ rw (with_depths, q) (q, with_depths-IsNodeOf tree depths)
]

abbrev pub has_node : ℕ → List TreeNode → Bool
has_node k nodes = any (λ n. eqb n.pid k) nodes

has_node-with_depths :
    (k : ℕ) (tree : Tree) (depths : Depths)
    → All (λ pid. (d : ℕ) × (find pid depths ≡ some d)) (map (λ e. e.0) tree)
    → in_tree tree k ≡ true
    → has_node k (with_depths tree depths) ≡ true
unfolding with_depths in_tree find
has_node-with_depths k [] depths h e = ground (arith, e)
has_node-with_depths k ((pid, node) ∷ tree) depths ((d, q), h) e =
    rw (with_depths, q)
      (elim (Bool-cases (eqb pid k)) [
        | inl same ↦ rw same refl
        | inr other ↦ rw other (has_node-with_depths k tree depths h (ground (arith, e, other)))
      ])

-- The pid of the event, if it has one, is reported.
abbrev pub IsReported : ProcessSignals → Event → Type 0
IsReported s e = (e.pid ≡ none) ⊎ ((k : ℕ) × (e.pid ≡ some k) × (has_node k s.process_tree ≡ true))

All-IsReported :
    (s : ProcessSignals) (tree : Tree)
    → ((k : ℕ) → in_tree tree k ≡ true → has_node k s.process_tree ≡ true)
    → (events : List Event) → All (IsIn tree) events
    → All (IsReported s) events
All-IsReported s tree f [] h = tt
All-IsReported s tree f (e ∷ events) (h, hs) = (
  elim h [ inl q ↦ inl q | inr (k, q, in') ↦ inr (k, q, f k in') ],
  All-IsReported s tree f events hs,
)

-- The process signals are built from all events. Every started program with a pid is a node of the
-- reported tree, and every node has its depth in one table. A depth of 0 stands only at a pid whose
-- parent is unknown or not in the tree, or which is its own ancestor; any other depth is one more than
-- that of the parent, which is in the tree. Of the pids of a cycle the theorem does not say which has
-- depth 0.
pub build_process_signals_lem :
    (parse_ts : Text → Option ℕ) (to_str : Value → Text) (data_str : Data → Text)
    (events : List Event)
    → (s : ProcessSignals) × (depths : Depths) × (build_process_signals parse_ts to_str data_str
          events
        ≡ some s)
      × AreDepths (process_tree parse_ts to_str data_str events) depths
      × All (IsNodeOf depths) s.process_tree
      × All (IsReported s) (of_type parse_ts "process.exec" events)
unfolding build_process_signals process_tree
build_process_signals_lem parse_ts to_str data_str events =
    let tree = process_tree parse_ts to_str data_str events in
    let commands = of_type parse_ts "process.exec" events in
    let nodes = add_nodes parse_ts to_str data_str commands [] in
    let forks = of_type parse_ts "process.fork" events in
    let (depths, q, right, found) = tree_depths_lem tree in
    let s = signals_of parse_ts to_str data_str events depths in
    (
      s,
      depths,
      rw (build_process_signals, q) refl,
      right,
      with_depths-IsNodeOf tree depths,
      All-IsReported s nodes
          (λ k in'.
            has_node-with_depths k tree depths found (in_tree-add_parents k forks nodes in'))
          commands (add_nodes-IsIn parse_ts to_str data_str commands []),
    )
