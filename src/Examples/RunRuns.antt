-- ===== src/Examples/RunRuns.antt =====
-- The sandbox, the log bundle, the strace collector and the signals on concrete inputs.
use whs_dynamic.Base.{
  ◌⊎◌, not, any, nat_eq, list_eq, ℕ, List, [], ◌∷◌, Option, none, some, Bool, true, false, ◌≡◌, ◌≢◌,
  ◌⊎◌, refl, ltb, Text, codes, take, All, arith,
}
use whs_dynamic.Event.{Event}
use whs_dynamic.Sandbox.{stage_command}
use whs_dynamic.Sandbox.Closed.{command_head, stage_command_closed}
use whs_dynamic.Bundle.{
  LogSource, signal_file, is_encodable, texts_of, bundle_files, write_log_bundle,
}
use whs_dynamic.Bundle.Served.{IsServed, get_log-write_log_bundle}
use whs_dynamic.Collectors.{Patterns, collect}
use whs_dynamic.Collectors.Reads.{IsVouched, collect-IsVouched}

abbrev runtime : Text
runtime = codes "runsc"

abbrev docker_net : Text
docker_net = codes "dast-sh-1"

abbrev image : Text
image = codes "python:3.12-slim"

abbrev gateway_ip : Text
gateway_ip = codes "172.18.0.1"

abbrev stage_run : List Text
stage_run =
    stage_command none (codes "/w") (codes "python" ∷ []) (codes "sinkhole") runtime
      (codes "import") false gateway_ip docker_net image

docker_net_named : docker_net ≢ []
docker_net_named e = ground (arith, e)

stage_command_closed_example :
    ((codes "sinkhole" ≡ codes "full") × (take 7 stage_run ≡ command_head runtime (codes "bridge")))
    ⊎ ((codes "sinkhole" ≡ codes "sinkhole")
        × (false ≡ true)
        × (take 7 stage_run ≡ command_head runtime docker_net))
    ⊎ ((codes "sinkhole" ≢ codes "full") × (take 7 stage_run ≡ command_head runtime (codes "none")))
stage_command_closed_example =
    stage_command_closed none (codes "/w") (codes "python" ∷ []) (codes "sinkhole") runtime
      (codes "import") false gateway_ip docker_net image refl docker_net_named

-- A specifier that is not empty allows no version.
abbrev parse_any : Text → Option Text
parse_any requires = some requires

abbrev allows_if_empty : Text → Text → Bool
allows_if_empty [] version = true
allows_if_empty (c ∷ spec) version = false

abbrev never_later : Text → Text → Bool
never_later v w = false

abbrev source : LogSource
source = record {
  raw_files = (codes "env-access.log", codes "x") ∷ [];
  signals = (codes "events", codes "y") ∷ (codes "summary", codes "{}") ∷ [];
  stages = [];
  created = codes "a" ∷ [];
  modified = [];
  deleted = [];
  dns_domains = [];
  pcap = none;
  behavior = codes "{}";
  resource_usage = codes "{}";
}

get_log-write_log_bundle_example :
    ((any (λ s. not (is_encodable s)) (texts_of (codes "{}") source) ≡ true)
      × (write_log_bundle (codes "{}") source [] ≡ none))
    ⊎ ((write_log_bundle (codes "{}") source [] ≡ some (bundle_files (codes "{}") source []))
        × IsServed (codes "summary.json") (bundle_files (codes "{}") source []))
unfolding signal_file
get_log-write_log_bundle_example =
    get_log-write_log_bundle (codes "{}") (codes "summary.json") source (refl, tt)
      (refl, (refl, tt))

-- Every line is an open of a password file.
abbrev patterns : Patterns
patterns = record {
  strace_line =
      λ line. some (record { pid = 7; comm = codes "cat"; syscall = codes "openat"; args = line });
  strace_exit_line = λ line. none;
  path = λ args. some args;
  argv = λ args. none;
  connect_addr = λ args. none;
  dns_port = λ args. false;
  write_flags = λ args. false;
  chmod_mode = λ args. none;
  nanosleep_sec = λ args. none;
}

collect-IsVouched_example :
    All
      (IsVouched (codes "t") patterns "import")
      (collect
        (codes "t")
        patterns
        "import"
        200
        (some (codes "/etc/passwd" ∷ []) ∷ none ∷ [])
        ([], [])).0
collect-IsVouched_example =
    collect-IsVouched (codes "t") patterns "import" 200
      (some (codes "/etc/passwd" ∷ []) ∷ none ∷ []) [] [] tt

-- A timestamp is its first character.
abbrev clock : Text → Option ℕ
clock [] = none
clock (c ∷ s) = some c

abbrev at_time : ℕ → Event
at_time t = record {
  timestamp = t ∷ [];
  source = "gvisor";
  category = "file";
  event_type = "file.read";
  stage = "import";
  pid = none;
  ppid = none;
  payload = [];
}

-- A version is the first character of its text.
abbrev before : ℕ → ℕ → Bool
before v w = ltb v w
