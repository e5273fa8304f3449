-- ===== src/Signals/Process.antt =====
-- `build_process_signals` of backend/app/signals.py. Python's `str` of a value that is no text, and of a
-- dictionary, are arguments.
pub mod Trees
use whs_dynamic.Base.{
  ℕ, List, [], ◌∷◌, Option, none, some, Bool, true, false, ◌&&◌, Text, codes, String, ◌==◌, nat_eq,
  list_eq, contains, find, put, map, lower, has_text, filter_by, if◌then◌else◌,
}
use whs_dynamic.Event.{Value, number, text, Data, Event, get_key, truthy}
use whs_dynamic.Analyzer.{after_slash}
use whs_dynamic.Signals.{Pair, of_type, time_near}
use whs_dynamic.Signals.Tree.{Node, Tree, Depths, tree_depths}

-- `_SHELLS`
abbrev pub shells : List Text
shells = codes "sh" ∷ codes "bash" ∷ codes "dash" ∷ codes "zsh" ∷ codes "ksh" ∷ []

-- `_DOWNLOADERS`
abbrev pub downloaders : List Text
downloaders = codes "curl" ∷ codes "wget" ∷ codes "certutil" ∷ []

-- `data.get(key, default)`
unfoldable pub get_or : Option Value → Option Value → Option Value
get_or none default = default
get_or (some v) default = some v

-- `a or b`
unfoldable pub or_value : Option Value → Option Value → Option Value
or_value none b = b
or_value (some v) b = if truthy v then some v else b

abbrev pub argv_of : Data → Option Value
argv_of d = or_value (get_key (codes "argv") d) (get_key (codes "args") d)

-- A started program: the fields of the three lists that report it.
pub record Command : Type 0 where
  pub stage : String
  pub pid : Option ℕ
  pub exe : Text
  pub argv : Option Value

pub record ChmodExec : Type 0 where
  pub path : Text
  pub stage : String
  pub gap : ℕ

-- A node of the tree with its depth.
pub record TreeNode : Type 0 where
  pub pid : ℕ
  pub node : Node
  pub depth : ℕ

pub record ProcessSignals : Type 0 where
  pub commands : List Command
  pub shell_spawns : List Command
  pub downloader_invocations : List Command
  pub chmod_then_exec : List ChmodExec
  pub process_tree : List TreeNode

-- `tree.setdefault(pid, node)`
unfoldable pub set_default : ℕ → Node → Tree → Tree
set_default pid node tree = elim (find pid tree) [ none ↦ put pid node tree | some old ↦ tree ]

-- `tree[child]["ppid"] = ppid`, where the child is in the tree.
unfoldable pub set_parent : ℕ → Option ℕ → Tree → Tree
set_parent child ppid tree = elim (find child tree) [
  | none ↦ tree
  | some node ↦ put child record { exe = node.exe; stage = node.stage; ppid = ppid } tree
]

-- `e["data"].get("child_pid")`, of a number.
unfoldable pub child_of : Event → Option ℕ
child_of e = elim (get_key (codes "child_pid") e.payload) [
  | none ↦ none
  | some v ↦ elim v [ number child ↦ some child | _ ↦ none ]
]

-- The loop over the fork events.
unfoldable pub add_parents : List Event → Tree → Tree
unfolding set_parent child_of
add_parents [] tree = tree
add_parents (e ∷ events) tree = elim (child_of e) [
  | none ↦ add_parents events tree
  | some child ↦ add_parents events (set_parent child e.pid tree)
]

-- `node["depth"] = depths[pid]`
unfoldable pub with_depths : Tree → Depths → List TreeNode
with_depths [] depths = []
with_depths ((pid, node) ∷ tree) depths =
    let rest = with_depths tree depths in
    elim (find pid depths) [
      | none ↦ rest
      | some d ↦ record { pid = pid; node = node; depth = d } ∷ rest
    ]

module _ (parse_ts : Text → Option ℕ) (to_str : Value → Text) (data_str : Data → Text) where
  unfoldable pub str_value : Value → Text
  str_value (text s) = s
  str_value v = to_str v

  unfoldable pub str_or_empty : Option Value → Text
  unfolding str_value
  str_or_empty none = []
  str_or_empty (some v) = str_value v

  -- `_exec_exe`
  unfoldable pub exec_exe : Data → Text
  unfolding get_or str_or_empty
  exec_exe d = lower (
      after_slash [] (
        str_or_empty (
          get_or (get_key (codes "exe") d)
            (get_or (get_key (codes "comm") d) (get_key (codes "executable") d)))))

  abbrev pub command : Event → Command
  command e = record {
    stage = e.stage;
    pid = e.pid;
    exe = exec_exe e.payload;
    argv = argv_of e.payload;
  }

  abbrev pub runs_one_of : List Text → Event → Bool
  runs_one_of names e = contains names (exec_exe e.payload)

  abbrev pub first_node : Event → Node
  first_node e = record { exe = exec_exe e.payload; stage = e.stage; ppid = none }

  -- The loop over the commands, the first one of a pid counts.
  unfoldable pub add_nodes : List Event → Tree → Tree
  unfolding set_default
  add_nodes [] tree = tree
  add_nodes (e ∷ events) tree = elim e.pid [
    | none ↦ add_nodes events tree
    | some pid ↦ add_nodes events (set_default pid (first_node e) tree)
  ]

  unfoldable pub process_tree : List Event → Tree
  unfolding add_nodes add_parents
  process_tree events =
      add_parents (of_type parse_ts "process.fork" events)
        (add_nodes (of_type parse_ts "process.exec" events) [])

  -- The path of the permission change stands in the data of the started program.
  unfoldable pub chmod_execs : List Pair → List ChmodExec
  chmod_execs [] = []
  chmod_execs (p ∷ pairs) =
      let rest = chmod_execs pairs in
      elim (get_key (codes "path") p.a.payload) [
        | none ↦ rest
        | some v ↦ elim v [
          | text path ↦
              if truthy (text path) && has_text (data_str p.b.payload) path
              then record { path = path; stage = p.a.stage; gap = p.gap } ∷ rest
              else rest
          | _ ↦ rest
        ]
      ]

  abbrev pub signals_of : List Event → Depths → ProcessSignals
  signals_of events depths = record {
    commands = map command (of_type parse_ts "process.exec" events);
    shell_spawns =
        map command (filter_by (runs_one_of shells) (of_type parse_ts "process.exec" events));
    downloader_invocations =
        map command (filter_by (runs_one_of downloaders) (of_type parse_ts "process.exec" events));
    chmod_then_exec = chmod_execs (time_near parse_ts events "file.chmod" "process.exec" 10000);
    process_tree = with_depths (process_tree events) depths;
  }

  -- `build_process_signals`; `none` would be a search for a depth out of rounds.
  unfoldable pub build_process_signals : List Event → Option ProcessSignals
  build_process_signals events = elim (tree_depths (process_tree events)) [
    | none ↦ none
    | some depths ↦ some (signals_of events depths)
  ]
