-- ===== src/Pipeline.antt =====
-- Small parts of the pipeline: `run_stage` of backend/app/package.py, the runtime
-- check of sandbox.py, `FilesystemCollector.diff` of collectors.py, `read_jsonl` of instrumentation.py and
-- `_previous_version` of static_scan.py. The subprocess, the JSON decoder and the version parser are
-- arguments.
pub mod Previous
pub mod Run
pub mod Artifacts
pub mod Metadata
use whs_dynamic.Base.{
  ℕ, List, [], ◌∷◌, ◌++◌, Option, none, some, Bool, true, false, ◌&&◌, ◌||◌, not, Text, codes,
  length, drop, ◌-◌, eqb, ltb, leb, map, filter_by, ◌==◌, nat_eq, list_eq, find, has_text,
  if◌then◌else◌,
}

-- `text[-n:]`
unfoldable pub tail_of : ℕ → Text → Text
tail_of n s = drop (length s - n) s

-- A finished process, or subprocess.TimeoutExpired with what was read until then.
pub data Process : Type 0 where
  finished : (returncode : ℕ) (stdout stderr : Text) → Process
  timeout_expired : (stdout stderr : Option Text) → Process

pub record StageResult : Type 0 where
  pub name : Text
  pub status : Text
  pub exit_code : Option ℕ
  pub stdout : Text
  pub stderr : Text
  pub timeout : Bool

unfoldable pub or_empty : Option Text → Text
or_empty none = []
or_empty (some s) = s

-- `run_stage`, of the process that was run; its clocks are left out.
unfoldable pub run_stage : ℕ → Text → Process → StageResult
unfolding tail_of or_empty
run_stage max_output name (finished code out err) = record {
  name = name;
  status = if eqb code 0 then codes "completed" else codes "failed";
  exit_code = some code;
  stdout = tail_of max_output out;
  stderr = tail_of max_output err;
  timeout = false;
}
run_stage max_output name (timeout_expired out err) = record {
  name = name;
  status = codes "timeout";
  exit_code = none;
  stdout = tail_of max_output (or_empty out);
  stderr = tail_of max_output (or_empty err);
  timeout = true;
}

-- `check_runtime`, without the reason: the outputs of the two commands, where docker is installed.
unfoldable pub check_runtime : Text → Option (ℕ × Text) → Bool × Text
check_runtime runtime none = (false, runtime)
check_runtime runtime (some (returncode, runtimes)) =
    if not (eqb returncode 0)
    then (false, runtime)
    else if not (has_text runtimes runtime)
    then (false, runtime)
    else (
      true,
      if has_text runtimes (runtime ++ codes "-trace") then runtime ++ codes "-trace" else runtime,
    )

-- A snapshot's record of a file: size, hash and mode.
pub record FileState : Type 0 where
  pub size : ℕ
  pub digest : Text
  pub mode : Text

abbrev pub Snapshot : Type 0
Snapshot = List (Text × FileState)

unfoldable pub same_state : FileState → FileState → Bool
same_state f g = eqb f.size g.size && (f.digest == g.digest && f.mode == g.mode)

pub record FsDiff : Type 0 where
  pub created : List Text
  pub modified : List Text
  pub deleted : List Text

-- `p not in d`
unfoldable pub absent : Snapshot → Text → Bool
absent d p = elim (find p d) [ none ↦ true | some f ↦ false ]

-- `p in before and after[p] != before[p]`
unfoldable pub changed : Snapshot → Snapshot → Text → Bool
unfolding same_state
changed before after p = elim (find p before) [
  | none ↦ false
  | some f ↦ elim (find p after) [ none ↦ false | some g ↦ not (same_state g f) ]
]

abbrev pub keys : Snapshot → List Text
keys = map (λ e. e.0)

-- `diff`, with the paths of its entries.
unfoldable pub diff : Snapshot → Snapshot → FsDiff
unfolding absent changed
diff before after = record {
  created = filter_by (absent before) (keys after);
  modified = filter_by (changed before after) (keys after);
  deleted = filter_by (absent after) (keys before);
}

-- `read_jsonl`, of the lines of a file that exists, with `strip` and the decoder.
unfoldable pub read_jsonl :
    {Row : Type 0} → (Text → Text) → (Text → Option Row) → List Text → List Row
read_jsonl strip decode [] = []
read_jsonl strip decode (line ∷ lines) =
    let rest = read_jsonl strip decode lines in
    elim (strip line) [
      | [] ↦ rest
      | c ∷ s ↦ elim (decode (c ∷ s)) [ none ↦ rest | some row ↦ row ∷ rest ]
    ]

module _ {Version : Type 0} (parse : Text → Option Version) (less : Version → Version → Bool) where
  -- The versions of the history that are older.
  unfoldable pub older_versions : Version → List Text → List Version
  older_versions current [] = []
  older_versions current (v ∷ history) =
      let rest = older_versions current history in
      elim (parse v) [ none ↦ rest | some w ↦ if less w current then w ∷ rest else rest ]

  -- `max(older)`
  unfoldable pub greatest : Version → List Version → Version
  greatest best [] = best
  greatest best (v ∷ vs) = greatest (if less best v then v else best) vs

  unfoldable pub newest_of : List Version → Option Version
  unfolding greatest
  newest_of [] = none
  newest_of (v ∷ vs) = some (greatest v vs)

  -- `_previous_version`, before `str`.
  unfoldable pub previous_version : Option Text → List Text → Option Version
  unfolding older_versions newest_of
  previous_version none history = none
  previous_version (some []) history = none
  previous_version (some (c ∷ current)) history = elim (parse (c ∷ current)) [
    | none ↦ none
    | some v ↦ newest_of (older_versions v history)
  ]
