-- ===== src/Lib.antt =====
-- A model of whs-dynamic, a service that analyses Python packages by running them in a sandbox, and
-- what is proved of it.
--
-- The program. The HTTP API (backend/app/main.py) keeps a table of jobs and runs each accepted analysis
-- in a worker, `analyze_package` of package.py. It runs stages in a sandboxed container, whose network
-- traffic a per-analysis sinkhole (sinkhole.py) answers, collects events, judges them (analyzer.py),
-- reads the captured packets (pcap_tls.py), compares the package's name with popular ones (registry.py)
-- and saves a report and a bundle of logs (storage.py). The container's command line is made in
-- sandbox.py, the events come from the strace logs that collectors.py reads, and signals.py relates them.
--
-- The files.
-- Base is what the others share: Boolean tests, lists measured by native numbers, text as code points,
-- bytes, dictionaries, results with exceptions.
-- Event and Analyzer: `NormalizedEvent` of schemas.py and all of analyzer.py. Each function has the
-- source's name; `rule` is the body of the loop in `analyze`.
-- Jobs: the job table of main.py and the saved reports. Jobs.Abstract is the server as a function of the
-- id, Jobs.Steps is the step relation of one worker
-- among the requests and the other workers, Jobs.Upload the upload request.
-- Pcap: pcap_tls.py. Frames is `_iter_frames`, Packet the two packet parsers, Hello the ClientHello
-- parser, Answers the DNS answers, the SNI records and their comparison.
-- Registry: `_levenshtein`, `_normalize`, `typosquat_check` and `_load_top_packages` of registry.py;
-- Lookups is the requests to PyPI, pypistats, WHOIS and the reputation service, after their answers.
-- Instrumentation: the hooks that the program `_SITECUSTOMIZE_SOURCE` of instrumentation.py puts into what
-- is analysed, with their limit of 2000 rows.
-- StaticScan: `scan_source_tree` and `diff_against_previous_release` of static_scan.py.
-- Sandbox: the image, its pre-pull and the docker command line of sandbox.py, `stage_env` of instrumentation.py, and
-- how package.py derives a stage's network from the mode and the sinkhole.
-- Collectors: collectors.py. The module itself is `GvisorStraceCollector.collect`, after its regular
-- expressions; Sampler is `HostSamplerCollector`, Tcpdump `PcapCollector`, Bpftrace `EbpfCollector`.
-- Signals: signals.py. The module itself is `_time_near`, `build_correlations` and
-- `_merge_realtime_writes`; Merge is `build_events_jsonl`, Tree `_tree_depths`, Process, Files, Network and
-- Behaviour the signal builders, Summary `build_summary` and `build_all`.
-- Bundle: `write_log_bundle` of storage.py and the log requests of main.py.
-- Pipeline: Pipeline.Run is `analyze_package` of package.py as the list of its calls, each of which may
-- raise, with its two try statements; which calls raise and what they give is a function of the calls
-- before. The module itself is `run_stage` of package.py, `check_runtime` of sandbox.py, `FilesystemCollector.diff` of
-- collectors.py, `read_jsonl` of instrumentation.py, `_previous_version` of static_scan.py. Artifacts and
-- Metadata are the functions of package.py that choose the artifact and read what it declares.
-- Sinkhole: sinkhole.py. Dns is `build_dns_a_response`, Hosts the functions that make safe names,
-- Leaves the certificates of its TLS connections, Http the handler of a connection, Lifecycle the object's `start` and `stop`. The answers of openssl, docker, iptables and the sockets
-- are an argument, a function of the history of calls, which the model keeps.
-- Examples applies the theorems to concrete inputs.
--
-- Conventions. Text is a list of code points, and case is changed for ASCII only. An exception is `none`
-- or `raised`, as each file says. A loop over bytes has the length of the bytes as fuel; every round takes
-- at least one, so it is never used up. A confidence is in hundredths, a time in whole seconds.
--
-- The searches for a depth in the process tree have the size of the tree and one as fuel, the loops that
-- read a request the limit of bytes and one; both are proved to be enough.
--
-- Not modelled: the threads and accept loops of the collectors and the sinkhole, the
-- walk over syntax trees, the extraction of archives, and the search of main.py in PyPI. They are I/O or
-- calls of libraries. The regular expressions, dates, JSON, version and specifier libraries, the parsers
-- of TOML and mail headers, and the answers of pip and of the network are arguments.
pub mod Analyzer
pub mod Base
pub mod Bundle
pub mod Collectors
pub mod Event
pub mod Examples
pub mod Instrumentation
pub mod Jobs
pub mod Pcap
pub mod Pipeline
pub mod Registry
pub mod Sandbox
pub mod Signals
pub mod Sinkhole
pub mod StaticScan
