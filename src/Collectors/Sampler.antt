-- ===== src/Collectors/Sampler.antt =====
-- `HostSamplerCollector` of backend/app/collectors.py: its samples, without its thread. What is read of
-- /proc and of the cgroups is an argument of each sample.
pub mod Series
use whs_dynamic.Base.{
  ℕ, ◌+◌, max, List, [], ◌∷◌, ◌++◌, Option, none, some, Bool, true, false, Text, eqb, if◌then◌else◌,
}

-- A process as the sample finds it: unreadable, another program, or the sandbox's with its VmRSS, if its
-- status can be read and has one.
pub data Process : Type 0 where
  unreadable : Process
  other : Process
  runsc : Option ℕ → Process

-- What a docker scope adds to the sums, 0 where an unreadable file ended its turn before.
pub record Scope : Type 0 where
  pub memory : ℕ
  pub pids : ℕ
  pub cpu : ℕ

pub record ProcPoint : Type 0 where
  pub t : Text
  pub processes : ℕ
  pub rss_kb : ℕ

pub record CgroupPoint : Type 0 where
  pub t : Text
  pub memory_bytes : ℕ
  pub pids : ℕ
  pub cpu_usec : ℕ

-- The maxima have the shape of a point.
pub record Sampler : Type 0 where
  pub proc_samples : ℕ
  pub max_processes : ℕ
  pub max_rss_kb : ℕ
  pub proc_series : List ProcPoint
  pub cgroup_samples : ℕ
  pub max_memory_bytes : ℕ
  pub max_pids : ℕ
  pub max_cpu_usec : ℕ
  pub cgroup_series : List CgroupPoint

abbrev pub new_sampler : Sampler
new_sampler = record {
  proc_samples = 0;
  max_processes = 0;
  max_rss_kb = 0;
  proc_series = [];
  cgroup_samples = 0;
  max_memory_bytes = 0;
  max_pids = 0;
  max_cpu_usec = 0;
  cgroup_series = [];
}

-- `count` and `rss`
unfoldable pub count_processes : List Process → ℕ × ℕ
count_processes [] = (0, 0)
count_processes (unreadable ∷ ps) = count_processes ps
count_processes (other ∷ ps) = count_processes ps
count_processes (runsc none ∷ ps) = let rest = count_processes ps in (rest.0 + 1, rest.1)
count_processes (runsc (some rss) ∷ ps) =
    let rest = count_processes ps in (rest.0 + 1, rest.1 + rss)

-- `_sample_proc`
unfoldable pub sample_proc : Text → List Process → Sampler → Sampler
unfolding count_processes
sample_proc now ps s =
    let (count, rss) = count_processes ps in
    if eqb count 0 then s else record s {
      proc_samples = s.proc_samples + 1;
      max_processes = max s.max_processes count;
      max_rss_kb = max s.max_rss_kb rss;
      proc_series = s.proc_series ++ record { t = now; processes = count; rss_kb = rss } ∷ [];
    }

-- `mem`, `pids` and `cpu`
unfoldable pub sum_scopes : List Scope → ℕ × ℕ × ℕ
sum_scopes [] = (0, 0, 0)
sum_scopes (scope ∷ scopes) =
    let rest = sum_scopes scopes in (rest.0 + scope.memory, rest.1 + scope.pids, rest.2 + scope.cpu)

-- `_sample_cgroup`
unfoldable pub sample_cgroup : Text → List Scope → Sampler → Sampler
unfolding sum_scopes
sample_cgroup now [] s = s
sample_cgroup now (scope ∷ scopes) s =
    let (mem, pids, cpu) = sum_scopes (scope ∷ scopes) in
    record s {
      cgroup_samples = s.cgroup_samples + 1;
      max_memory_bytes = max s.max_memory_bytes mem;
      max_pids = max s.max_pids pids;
      max_cpu_usec = max s.max_cpu_usec cpu;
      cgroup_series =
          s.cgroup_series
          ++ record { t = now; memory_bytes = mem; pids = pids; cpu_usec = cpu } ∷ [];
    }

-- A round of `_run`, where both directories exist.
pub record Round : Type 0 where
  pub now : Text
  pub processes : List Process
  pub scopes : List Scope

unfoldable pub run_rounds : List Round → Sampler → Sampler
unfolding sample_proc sample_cgroup
run_rounds [] s = s
run_rounds (r ∷ rounds) s =
    run_rounds rounds (sample_cgroup r.now r.scopes (sample_proc r.now r.processes s))

-- `usage`, of the processes: `none` is a missing entry.
unfoldable pub proc_usage : Sampler → Option (ℕ × ℕ × ℕ × List ProcPoint)
proc_usage s =
    if eqb s.proc_samples 0
    then none
    else some (s.proc_samples, s.max_processes, s.max_rss_kb, s.proc_series)

unfoldable pub cgroup_usage : Sampler → Option (ℕ × ℕ × ℕ × ℕ × List CgroupPoint)
cgroup_usage s =
    if eqb s.cgroup_samples 0
    then none
    else some (s.cgroup_samples, s.max_memory_bytes, s.max_pids, s.max_cpu_usec, s.cgroup_series)
