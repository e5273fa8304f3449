-- ===== src/Collectors/Bpftrace.antt =====
-- `EbpfCollector` of backend/app/collectors.py. The pattern of a line is an argument, which gives the
-- kind, the pid, the program's name and the file, and so are the answers of the subprocess.
pub mod Limits
use whs_dynamic.Base.{
  ℕ, List, [], ◌∷◌, ◌++◌, Option, none, some, Bool, true, false, ◌&&◌, not, Text, codes, has_text,
  length, leb, eqb, contains, ◌==◌, nat_eq, list_eq, String, if◌then◌else◌,
}

-- `_IGNORE`
abbrev pub ignored : List Text
ignored =
    codes "docker"
    ∷ codes "dockerd"
    ∷ codes "containerd"
    ∷ codes "runsc"
    ∷ codes "systemd"
    ∷ codes "sudo"
    ∷ codes "bpftrace"
    ∷ codes "tcpdump"
    ∷ codes "pkill"
    ∷ codes "sh"
    ∷ []

pub record Match : Type 0 where
  pub kind : Text
  pub pid : ℕ
  pub comm : Text
  pub file : Option Text

pub record Observation : Type 0 where
  pub event_type : String
  pub pid : ℕ
  pub comm : Text
  pub file : Option Text

pub data Status : Type 0 where
  not_started not_installed failed_to_start tracing : Status
  no_sudo : Status
  failed : Text → Status
  success : ℕ → Status

pub record Tracer : Type 0 where
  pub running : Bool
  pub observations : List Observation
  pub status : Status

abbrev pub new_tracer : Tracer
new_tracer = record { running = false; observations = []; status = not_started }

-- `start`: whether bpftrace is found, and whether it could be run.
unfoldable pub start : Bool → Bool → Tracer → Tracer
start false started c = record c { status = not_installed }
start true true c = record c { running = true; status = tracing }
start true false c = record c { status = failed_to_start }

-- An empty file is no file.
unfoldable pub or_no_file : Option Text → Option Text
or_no_file none = none
or_no_file (some []) = none
or_no_file (some (c ∷ s)) = some (c ∷ s)

-- What the process that was stopped leaves: its lines, its errors, and its return code.
pub record Ended : Type 0 where
  pub lines : List Text
  pub err : Text
  pub returncode : ℕ

-- The event of a match that is not ignored.
unfoldable pub observation : Match → Option Observation
unfolding or_no_file
observation m =
    if contains ignored m.comm
    then none
    else some record {
      event_type = if m.kind == codes "EXEC" then "process.exec" else "network.connect";
      pid = m.pid;
      comm = m.comm;
      file = or_no_file m.file;
    }

unfoldable pub add : List Observation → Option Observation → List Observation
add seen none = seen
add seen (some o) = seen ++ o ∷ []

module _ (pattern : Text → Option Match) where
  -- `parse_line`
  unfoldable pub parse_line : Text → Option Observation
  unfolding observation
  parse_line line = elim (pattern line) [ none ↦ none | some m ↦ observation m ]

  -- The loop over the lines, which ends at the limit.
  unfoldable pub observe : ℕ → List Text → List Observation → List Observation
  unfolding parse_line add
  observe limit [] seen = seen
  observe limit (line ∷ lines) seen =
      let seen' = add seen (parse_line line) in
      let rest = observe limit lines seen' in if leb limit (length seen') then seen' else rest

  -- The status behind the loop, with the first line of the errors.
  unfoldable pub final_status : (Text → Text) → Ended → List Observation → Status
  final_status first_line e seen =
      if has_text e.err (codes "password is required")
      then no_sudo
      else if not (eqb e.returncode 0) && eqb (length seen) 0
      then failed (first_line e.err)
      else success (length seen)

  -- `stop`
  unfoldable pub stop : (Text → Text) → ℕ → Ended → Tracer → Tracer
  unfolding observe final_status
  stop first_line limit e c =
      let seen = observe limit e.lines c.observations in
      if c.running
      then record c { observations = seen; status = final_status first_line e seen }
      else c
