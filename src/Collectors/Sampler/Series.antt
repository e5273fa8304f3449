-- ===== src/Collectors/Sampler/Series.antt =====
-- The sampler's counts and maxima are those of its series.
use whs_dynamic.Base.{
  ℕ, ◌<◌, max, List, [], ◌∷◌, ◌++◌, ◌≡◌, inl, inr, refl, Text, length, length-append, All,
  All-append, eqb, Bool-cases, arith,
}
use whs_dynamic.Collectors.Sampler.{
  Process, Scope, ProcPoint, CgroupPoint, Sampler, Round, new_sampler, count_processes, sample_proc,
  sum_scopes, sample_cgroup, run_rounds,
}

-- The largest number of processes and the largest memory of a series.
abbrev pub most_processes : List ProcPoint → ℕ
most_processes [] = 0
most_processes (p ∷ ps) = max p.processes (most_processes ps)

abbrev pub most_rss : List ProcPoint → ℕ
most_rss [] = 0
most_rss (p ∷ ps) = max p.rss_kb (most_rss ps)

abbrev pub most_memory : List CgroupPoint → ℕ
most_memory [] = 0
most_memory (p ∷ ps) = max p.memory_bytes (most_memory ps)

abbrev pub most_pids : List CgroupPoint → ℕ
most_pids [] = 0
most_pids (p ∷ ps) = max p.pids (most_pids ps)

abbrev pub most_cpu : List CgroupPoint → ℕ
most_cpu [] = 0
most_cpu (p ∷ ps) = max p.cpu_usec (most_cpu ps)

most_processes-append :
    (ps : List ProcPoint) (p : ProcPoint)
    → most_processes (ps ++ p ∷ []) ≡ max (most_processes ps) p.processes
most_processes-append [] p = omega arith
most_processes-append (q ∷ ps) p = omega (arith, most_processes-append ps p)

most_rss-append :
    (ps : List ProcPoint) (p : ProcPoint) → most_rss (ps ++ p ∷ []) ≡ max (most_rss ps) p.rss_kb
most_rss-append [] p = omega arith
most_rss-append (q ∷ ps) p = omega (arith, most_rss-append ps p)

most_memory-append :
    (ps : List CgroupPoint) (p : CgroupPoint)
    → most_memory (ps ++ p ∷ []) ≡ max (most_memory ps) p.memory_bytes
most_memory-append [] p = omega arith
most_memory-append (q ∷ ps) p = omega (arith, most_memory-append ps p)

most_pids-append :
    (ps : List CgroupPoint) (p : CgroupPoint) → most_pids (ps ++ p ∷ []) ≡ max (most_pids ps) p.pids
most_pids-append [] p = omega arith
most_pids-append (q ∷ ps) p = omega (arith, most_pids-append ps p)

most_cpu-append :
    (ps : List CgroupPoint) (p : CgroupPoint)
    → most_cpu (ps ++ p ∷ []) ≡ max (most_cpu ps) p.cpu_usec
most_cpu-append [] p = omega arith
most_cpu-append (q ∷ ps) p = omega (arith, most_cpu-append ps p)

-- The counts are the lengths of the series, the maxima those of the points, and no point is without a
-- process.
pub record IsSampled (s : Sampler) : Type 0 where
  pub proc_counted : s.proc_samples ≡ length s.proc_series
  pub processes_max : s.max_processes ≡ most_processes s.proc_series
  pub rss_max : s.max_rss_kb ≡ most_rss s.proc_series
  pub busy : All (λ (p : ProcPoint). 0 < p.processes) s.proc_series
  pub cgroup_counted : s.cgroup_samples ≡ length s.cgroup_series
  pub memory_max : s.max_memory_bytes ≡ most_memory s.cgroup_series
  pub pids_max : s.max_pids ≡ most_pids s.cgroup_series
  pub cpu_max : s.max_cpu_usec ≡ most_cpu s.cgroup_series

sample_proc-IsSampled :
    (now : Text) (ps : List Process) (s : Sampler) → IsSampled s → IsSampled (sample_proc now ps s)
unfolding sample_proc
sample_proc-IsSampled now ps s h = elim (Bool-cases (eqb (count_processes ps).0 0)) [
  | inl q ↦ rw (sample_proc, q) h
  | inr q ↦
      let (count, rss) = count_processes ps in
      let p : ProcPoint = record { t = now; processes = count; rss_kb = rss } in
      rw (sample_proc, q)
        (record {
          proc_counted = omega (arith, h.proc_counted, length-append s.proc_series (p ∷ []));
          processes_max = omega (arith, h.processes_max, most_processes-append s.proc_series p);
          rss_max = omega (arith, h.rss_max, most_rss-append s.proc_series p);
          busy =
              All-append (λ (p : ProcPoint). 0 < p.processes) s.proc_series (p ∷ []) h.busy
                (ground (arith, q), tt);
          cgroup_counted = h.cgroup_counted;
          memory_max = h.memory_max;
          pids_max = h.pids_max;
          cpu_max = h.cpu_max;
        })
]

sample_cgroup-IsSampled :
    (now : Text) (scopes : List Scope) (s : Sampler)
    → IsSampled s
    → IsSampled (sample_cgroup now scopes s)
unfolding sample_cgroup
sample_cgroup-IsSampled now [] s h = h
sample_cgroup-IsSampled now (scope ∷ scopes) s h =
    let (mem, pids, cpu) = sum_scopes (scope ∷ scopes) in
    let p : CgroupPoint = record { t = now; memory_bytes = mem; pids = pids; cpu_usec = cpu } in
    record {
      proc_counted = h.proc_counted;
      processes_max = h.processes_max;
      rss_max = h.rss_max;
      busy = h.busy;
      cgroup_counted = omega (arith, h.cgroup_counted, length-append s.cgroup_series (p ∷ []));
      memory_max = omega (arith, h.memory_max, most_memory-append s.cgroup_series p);
      pids_max = omega (arith, h.pids_max, most_pids-append s.cgroup_series p);
      cpu_max = omega (arith, h.cpu_max, most_cpu-append s.cgroup_series p);
    }

run_rounds-keeps :
    (rounds : List Round) (s : Sampler) → IsSampled s → IsSampled (run_rounds rounds s)
unfolding run_rounds
run_rounds-keeps [] s h = h
run_rounds-keeps (r ∷ rounds) s h =
    run_rounds-keeps rounds (sample_cgroup r.now r.scopes (sample_proc r.now r.processes s)) (
      sample_cgroup-IsSampled r.now r.scopes (sample_proc r.now r.processes s)
        (sample_proc-IsSampled r.now r.processes s h))

-- After any rounds of a new sampler its two counts are the lengths of its series, its maxima of
-- processes and of resident memory those of the points of the one, its maxima of memory, pids and CPU
-- time those of the points of the other, and each point of the process series has a process.
pub run_rounds-IsSampled : (rounds : List Round) → IsSampled (run_rounds rounds new_sampler)
run_rounds-IsSampled rounds = run_rounds-keeps rounds new_sampler record {
  proc_counted = refl;
  processes_max = refl;
  rss_max = refl;
  busy = tt;
  cgroup_counted = refl;
  memory_max = refl;
  pids_max = refl;
  cpu_max = refl;
}
