-- ===== src/Instrumentation.antt =====
-- The hooks that `_SITECUSTOMIZE_SOURCE` of backend/app/instrumentation.py puts into each program that is
-- analysed: the proxy of os.environ and the audit hook. The str of a value is an argument, `none` where it
-- raises. A run of one process is modelled, with its stage and its two log files.
pub mod Caps
use whs_dynamic.Base.{
  ℕ, ◌+◌, List, [], ◌∷◌, ◌++◌, Option, none, some, Bool, true, false, Text, codes, take, length,
  leb, ◌==◌, nat_eq, list_eq, if◌then◌else◌,
}

abbrev pub max_lines : ℕ
max_lines = 2000

-- `_s`
unfoldable pub shortened : ℕ → Option Text → Option Text
shortened limit none = none
shortened limit (some s) = some (take limit s)

-- The rows of the two logs.
pub data Row : Type 0 where
  bulk_iteration : (via : Text) → Row
  access : (key : Option Text) → Row
  compiled : (filename source_head : Option Text) (source_len : ℕ) → Row
  executed : (filename : Option Text) → Row
  imported : (module_name filename : Option Text) → Row

-- A row with the time and the stage that `_write` adds, and whether the file can be written then.
pub record Attempt : Type 0 where
  pub row : Row
  pub timestamp : ℕ
  pub stage : Text
  pub writable : Bool

-- A log file and its entry in `_counts`.
pub record Log : Type 0 where
  pub lines : ℕ
  pub rows : List Attempt

-- `_write`
unfoldable pub write : Attempt → Log → Log
write a l =
    if leb max_lines l.lines
    then l
    else record { lines = l.lines + 1; rows = if a.writable then l.rows ++ a ∷ [] else l.rows }

-- The methods of the environment that a program calls; those that are not listed, such as `in`, are calls
-- of these.
pub data Access : Type 0 where
  iterate keys items : Access
  subscript get : (key : Option Text) → Access

-- The rows that a call of a method of `_EnvProxy` tries to write. `super().get` is that of `Mapping`, which
-- calls `__getitem__` in its turn. The views that `keys` and `items` give call `__iter__` and `__getitem__`
-- when the program walks them, which are calls of their own here.
unfoldable pub access_rows : Access → List Row
unfolding shortened
access_rows iterate = bulk_iteration (codes "__iter__") ∷ []
access_rows keys = bulk_iteration (codes "keys") ∷ []
access_rows items = bulk_iteration (codes "items") ∷ []
access_rows (subscript key) = access (shortened 100 key) ∷ []
access_rows (get key) = access (shortened 100 key) ∷ access (shortened 100 key) ∷ []

-- An audit event: its name, the str of its arguments, and that of the first one's `co_filename`.
pub record Audit : Type 0 where
  pub event : Text
  pub arguments : List (Option Text)
  pub co_filename : Option Text

-- `_s(args[0] if args else None)`, and `_s(args[1] if len(args) > 1 else None)`
unfoldable pub first_argument : List (Option Text) → Option Text
unfolding shortened
first_argument [] = some (codes "None")
first_argument (s ∷ ss) = shortened 200 s

unfoldable pub second_argument : List (Option Text) → Option Text
unfolding first_argument
second_argument [] = some (codes "None")
second_argument (s ∷ ss) = first_argument ss

-- `len(src) if src else 0`
unfoldable pub size_of : Option Text → ℕ
size_of none = 0
size_of (some s) = length s

-- `_audit_hook`; `none` where nothing is written.
unfoldable pub audit_row : Audit → Option Row
unfolding shortened first_argument second_argument size_of
audit_row a =
    if a.event == codes "compile"
    then some (
        compiled (second_argument a.arguments) (first_argument a.arguments)
          (size_of (first_argument a.arguments)))
    else if a.event == codes "exec"
    then some (executed (shortened 200 a.co_filename))
    else if a.event == codes "import"
    then some (imported (first_argument a.arguments) (second_argument a.arguments))
    else none

pub record Hooks : Type 0 where
  pub env_log : Log
  pub code_log : Log

-- What the program does, with the time and whether the log can be written then.
pub data Action : Type 0 where
  accessed : Access → Action
  audited : Audit → Action

pub record Moment : Type 0 where
  pub action : Action
  pub now : ℕ
  pub writable : Bool

unfoldable pub attempt_of : Text → Moment → Row → Attempt
attempt_of stage m r = record { row = r; timestamp = m.now; stage = stage; writable = m.writable }

unfoldable pub write_rows : Text → Moment → List Row → Log → Log
unfolding write attempt_of
write_rows stage m [] l = l
write_rows stage m (r ∷ rows) l = write_rows stage m rows (write (attempt_of stage m r) l)

-- The hooks that an action calls.
unfoldable pub hook : Text → Moment → Hooks → Hooks
unfolding write access_rows audit_row attempt_of write_rows
hook stage m s = elim m.action [
  | accessed a ↦ record s { env_log = write_rows stage m (access_rows a) s.env_log }
  | audited a ↦ elim (audit_row a) [
    | none ↦ s
    | some r ↦ record s { code_log = write (attempt_of stage m r) s.code_log }
  ]
]

unfoldable pub run_hooks : Text → List Moment → Hooks → Hooks
unfolding hook
run_hooks stage [] s = s
run_hooks stage (m ∷ ms) s = run_hooks stage ms (hook stage m s)

-- `_counts` and the files at the start of the process.
unfoldable pub new_hooks : List Attempt → List Attempt → Hooks
new_hooks env_rows code_rows = record {
  env_log = record { lines = 0; rows = env_rows };
  code_log = record { lines = 0; rows = code_rows };
}
