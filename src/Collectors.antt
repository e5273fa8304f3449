-- ===== src/Collectors.antt =====
-- backend/app/collectors.py: the strace collector and the difference of two snapshots. The regular
-- expressions are Python's; what a search with each gives is an argument. A number that is not positive
-- is given as 0.
pub mod Reads
pub mod Sampler
pub mod Tcpdump
pub mod Bpftrace
use whs_dynamic.Base.{
  ℕ, zero, suc, ◌+◌, List, [], ◌∷◌, ◌++◌, Option, none, some, Bool, true, false, ◌&&◌, ◌||◌, not,
  Text, codes, String, take, any, has_text, contains, ◌==◌, nat_eq, list_eq, find, put, ltb, leb,
  length, if◌then◌else◌,
}
use whs_dynamic.Event.{Value, null, number, text, Data, Event}

-- What `_STRACE_LINE` finds: pid, comm, syscall and arguments.
pub record Entry : Type 0 where
  pub pid : ℕ
  pub comm : Text
  pub syscall : Text
  pub args : Text

-- The searches.
pub record Patterns : Type 0 where
  pub strace_line : Text → Option Entry
  pub strace_exit_line : Text → Option (Entry × ℕ)
  pub path : Text → Option Text
  pub argv : Text → Option Text
  pub connect_addr : Text → Option Text
  pub dns_port : Text → Bool
  pub write_flags : Text → Bool
  pub chmod_mode : Text → Option Text
  pub nanosleep_sec : Text → Option ℕ

abbrev pub sensitive : List Text
sensitive =
    codes ".aws" ∷ codes ".ssh" ∷ codes ".netrc" ∷ codes "/etc/passwd" ∷ codes "/etc/shadow" ∷ []

abbrev pub evasion_paths : List Text
evasion_paths =
    codes "/proc/cpuinfo"
    ∷ codes "/sys/class/dmi/id/product_name"
    ∷ codes "/proc/scsi/scsi"
    ∷ codes "/sys/hypervisor"
    ∷ codes "/proc/xen"
    ∷ []

abbrev pub privilege : List Text
privilege =
    codes "setuid"
    ∷ codes "setgid"
    ∷ codes "setreuid"
    ∷ codes "setregid"
    ∷ codes "setresuid"
    ∷ codes "setresgid"
    ∷ codes "capset"
    ∷ []

abbrev pub escape : List Text
escape =
    codes "ptrace"
    ∷ codes "mount"
    ∷ codes "umount2"
    ∷ codes "unshare"
    ∷ codes "setns"
    ∷ codes "pivot_root"
    ∷ codes "chroot"
    ∷ codes "init_module"
    ∷ codes "finit_module"
    ∷ codes "bpf"
    ∷ codes "keyctl"
    ∷ codes "add_key"
    ∷ []

abbrev pub own_write_prefixes : List Text
own_write_prefixes = codes "/workspace/site" ∷ codes "/workspace/built" ∷ []

abbrev pub own_write_files : List Text
own_write_files = codes "/workspace/_env-access.log" ∷ codes "/workspace/_code-exec.log" ∷ []

abbrev pub autorun_patterns : List Text
autorun_patterns =
    codes ".bashrc"
    ∷ codes ".bash_profile"
    ∷ codes ".profile"
    ∷ codes "/etc/cron"
    ∷ codes "/etc/systemd"
    ∷ codes ".config/systemd"
    ∷ codes ".config/autostart"
    ∷ codes "/etc/rc.local"
    ∷ codes "/etc/init.d"
    ∷ []

abbrev pub opens : List Text
opens = codes "open" ∷ codes "openat" ∷ []

unfoldable pub or_null : Option Text → Value
or_null none = null
or_null (some s) = text s

unfoldable pub or_else : Option Text → Text → Text
or_else none s = s
or_else (some t) s = t

-- `syscall in (...)`
unfoldable pub is_one_of : List Text → Text → Bool
is_one_of = contains

-- `any(part in args for part in parts)`
unfoldable pub mentions : List Text → Text → Bool
mentions parts args = any (has_text args) parts

module _ (now : Text) (p : Patterns) (stage : String) where
  abbrev pub event : String → String → ℕ → Data → Event
  event category event_type pid payload = record {
    timestamp = now;
    source = "gvisor";
    category = category;
    event_type = event_type;
    stage = stage;
    pid = some pid;
    ppid = none;
    payload = payload;
  }

  -- The tests from the opens on.
  unfoldable pub open_events : Entry → Text → List Event
  unfolding or_else
  open_events e args =
      if is_one_of opens e.syscall && mentions sensitive args
      then event "file" (if p.write_flags args then "file.write" else "file.read") e.pid
          ((codes "comm", text e.comm) ∷ (codes "path", text args) ∷ [])
        ∷ []
      else if is_one_of opens e.syscall && mentions evasion_paths args
      then event "evasion" "evasion.probe" e.pid
          ((codes "comm", text e.comm) ∷ (codes "path", text args) ∷ [])
        ∷ []
      else if is_one_of opens e.syscall
          && p.write_flags args
          && has_text args (codes "/workspace")
          && not (mentions own_write_prefixes args)
          && not (mentions own_write_files args)
      then event "file" "file.write_outside_site" e.pid (
          (codes "comm", text e.comm)
          ∷ (codes "path", text (or_else (p.path args) args))
          ∷ (
            codes "kind",
            text (
                if mentions autorun_patterns (or_else (p.path args) args)
                then codes "autorun"
                else codes "outside_site"),
          )
          ∷ [])
        ∷ []
      else if is_one_of (codes "nanosleep" ∷ codes "clock_nanosleep" ∷ []) e.syscall
      then elim (p.nanosleep_sec args) [
        | none ↦ []
        | some seconds ↦
            if leb 2 seconds
            then event "process" "process.sleep" e.pid
                ((codes "comm", text e.comm) ∷ (codes "duration_s", number seconds) ∷ [])
              ∷ []
            else []
      ]
      else []

  -- The events of one entry, with the arguments cut to 512 characters.
  unfoldable pub entry_events : Entry → Text → List Event
  unfolding or_null or_else open_events
  entry_events e args =
      if is_one_of (codes "execve" ∷ codes "execveat" ∷ []) e.syscall
      then event "process" "process.exec" e.pid (
          (codes "comm", text e.comm)
          ∷ (codes "exe", text (or_else (p.path args) e.comm))
          ∷ (codes "argv", text (or_else (p.argv args) []))
          ∷ (codes "args", text args)
          ∷ [])
        ∷ []
      else if e.syscall == codes "connect"
      then event "network" "network.connect" e.pid (
          (codes "comm", text e.comm)
          ∷ (codes "args", text args)
          ∷ (codes "dst_ip", or_null (p.connect_addr args))
          ∷ [])
        ∷ (if p.dns_port args
            then event "dns" "dns.query" e.pid
                ((codes "comm", text e.comm) ∷ (codes "args", text args) ∷ [])
              ∷ []
            else [])
      else if is_one_of (codes "sendto" ∷ codes "sendmsg" ∷ []) e.syscall && p.dns_port args
      then event "dns" "dns.query" e.pid
          ((codes "comm", text e.comm) ∷ (codes "args", text args) ∷ [])
        ∷ []
      else if is_one_of privilege e.syscall
      then event "privilege" "privilege.change" e.pid (
          (codes "comm", text e.comm)
          ∷ (codes "syscall", text e.syscall)
          ∷ (codes "args", text args)
          ∷ [])
        ∷ []
      else if is_one_of escape e.syscall
      then event "privilege" "sandbox.escape_syscall" e.pid (
          (codes "comm", text e.comm)
          ∷ (codes "syscall", text e.syscall)
          ∷ (codes "args", text args)
          ∷ [])
        ∷ []
      else if is_one_of (codes "chmod" ∷ codes "fchmod" ∷ codes "fchmodat" ∷ []) e.syscall
      then event "file" "file.chmod" e.pid (
          (codes "comm", text e.comm)
          ∷ (codes "path", or_null (p.path args))
          ∷ (codes "mode", or_null (p.chmod_mode args))
          ∷ [])
        ∷ []
      else open_events e args

  -- A line without an entry may still end a fork.
  unfoldable pub exit_events : Text → List Event
  exit_events line = elim (p.strace_exit_line line) [
    | none ↦ []
    | some (e, child_pid) ↦
        if is_one_of (codes "clone" ∷ codes "clone3" ∷ codes "fork" ∷ codes "vfork" ∷ []) e.syscall
          && leb 1 child_pid
        then event "process" "process.fork" e.pid
            ((codes "comm", text e.comm) ∷ (codes "child_pid", number child_pid) ∷ [])
          ∷ []
        else []
  ]

  abbrev pub Counts : Type 0
  Counts = List (Text × ℕ)

  -- `self.syscall_counts[syscall] += 1`
  unfoldable pub count : Text → Counts → Counts
  count syscall counts = elim (find syscall counts) [
    | none ↦ put syscall 1 counts
    | some n ↦ put syscall (n + 1) counts
  ]

  -- The loop over the lines of a file. The limit is looked at behind a line with an entry only.
  unfoldable pub collect_lines : ℕ → List Text → List Event × Counts → List Event × Counts
  unfolding entry_events exit_events count
  collect_lines limit [] acc = acc
  collect_lines limit (line ∷ lines) (events, counts) = elim (p.strace_line line) [
    | none ↦ collect_lines limit lines (events ++ exit_events line, counts)
    | some e ↦
        let events' = events ++ entry_events e (take 512 e.args) in
        let counts' = count e.syscall counts in
        let rest = collect_lines limit lines (events', counts') in
        if leb limit (length events') then (events', counts') else rest
  ]

  -- The loop over the new log files, in their order; `none` is a file that cannot be read.
  unfoldable pub collect : ℕ → List (Option (List Text)) → List Event × Counts → List Event × Counts
  unfolding collect_lines
  collect limit [] acc = acc
  collect limit (none ∷ files) acc = collect limit files acc
  collect limit (some lines ∷ files) acc =
      let acc' = collect_lines limit lines acc in
      let rest = collect limit files acc' in if leb limit (length acc'.0) then acc' else rest
