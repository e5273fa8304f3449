-- ===== src/Bundle.antt =====
-- `write_log_bundle` of backend/app/storage.py and the log requests of main.py. Python's `json.dumps` is
-- done by the caller, so that values are their texts; the files are the directory `logs` of one analysis.
pub mod Served
use whs_dynamic.Base.{
  ℕ, List, [], ◌∷◌, ◌++◌, Option, none, some, Bool, true, false, Text, codes, join, map, ◌==◌,
  nat_eq, list_eq, contains, find, put, if◌then◌else◌, String, filter_by, Bytes, not, ◌&&◌, leb,
  eqb, any,
}

abbrev pub Files : Type 0
Files = List (Text × Text)

-- A stage as it stands in package.log, with its exit code and its sections as texts.
pub record Stage : Type 0 where
  pub name : Text
  pub exit_code : Option Text
  pub stdout : Text
  pub stderr : Text

pub record LogSource : Type 0 where
  pub raw_files : Files
  pub signals : Files
  pub stages : List Stage
  pub created : List Text
  pub modified : List Text
  pub deleted : List Text
  pub dns_domains : List Text
  pub pcap : Option Text
  pub behavior : Text
  pub resource_usage : Text

-- `raw_files.setdefault(...)`
unfoldable pub with_default : Text → Text → Files → Files
with_default key value raw = elim (find key raw) [ none ↦ put key value raw | some v ↦ raw ]

unfoldable pub write_all : Files → Files → Files
write_all [] files = files
write_all ((name, content) ∷ raw) files = write_all raw (put name content files)

-- `"events.jsonl"` or `f"{key}.json"`
unfoldable pub signal_file : Text → Text
signal_file key = if key == codes "events" then codes "events.jsonl" else key ++ codes ".json"

unfoldable pub write_signals : Files → Files → Files
unfolding signal_file
write_signals [] files = files
write_signals ((key, value) ∷ signals) files =
    write_signals signals (put (signal_file key) value files)

-- `f"=== {s.name} (exit {s.exit_code}) ==="` and the two outputs.
unfoldable pub stage_log : Stage → Text
stage_log s =
    codes "=== "
    ++ (s.name
        ++ (codes " (exit "
            ++ (elim s.exit_code [ none ↦ codes "None" | some code ↦ code ]
                ++ (codes ") ===\n--- stdout ---\n"
                    ++ (s.stdout ++ (codes "\n--- stderr ---\n" ++ s.stderr))))))

unfoldable pub install_exit : List Stage → Text
install_exit [] = []
install_exit (s ∷ stages) =
    if s.name == codes "install"
    then elim s.exit_code [ none ↦ [] | some code ↦ code ]
    else install_exit stages

unfoldable pub fs_lines : LogSource → List Text
fs_lines r =
    map (λ p. codes "CREATED  " ++ p) r.created
    ++ (map (λ p. codes "MODIFIED " ++ p) r.modified ++ map (λ p. codes "DELETED  " ++ p) r.deleted)

-- A capture is copied if it exists and is not empty.
unfoldable pub write_capture_file : Option Text → Files → Files
write_capture_file (some (c ∷ bytes)) files = put (codes "network.pcap") (c ∷ bytes) files
write_capture_file _ files = files

-- The files of `write_log_bundle`, with the text of the default netsim.json.
unfoldable pub bundle_files : Text → LogSource → Files → Files
unfolding with_default write_all write_signals stage_log install_exit fs_lines write_capture_file
bundle_files no_netsim r files = put (codes "resource.json") r.resource_usage (
    put (codes "gvisor-trace.json") r.behavior (
      write_capture_file r.pcap (
        put (codes "dns.log") (join (codes "\n") r.dns_domains) (
          put (codes "exit-code.txt") (install_exit r.stages) (
            put (codes "fs-diff.log") (join (codes "\n") (fs_lines r)) (
              put (codes "package.log") (join (codes "\n\n") (map stage_log r.stages)) (
                write_signals r.signals (
                  write_all (with_default (codes "netsim.json") no_netsim r.raw_files) files))))))))

-- UTF-8 has no code for a surrogate, which a file name that is not UTF-8 is read as.
unfoldable pub is_encodable : Text → Bool
is_encodable [] = true
is_encodable (c ∷ s) = not (leb 0xD800 c && leb c 0xDFFF) && is_encodable s

-- The texts that are written.
unfoldable pub texts_of : Text → LogSource → List Text
unfolding with_default stage_log install_exit fs_lines
texts_of no_netsim r =
    map (λ f. f.1) (with_default (codes "netsim.json") no_netsim r.raw_files)
    ++ (map (λ f. f.1) r.signals
        ++ join (codes "\n\n") (map stage_log r.stages)
          ∷ join (codes "\n") (fs_lines r)
          ∷ install_exit r.stages
          ∷ join (codes "\n") r.dns_domains
          ∷ r.behavior
          ∷ r.resource_usage
          ∷ [])

-- `write_log_bundle`; `none` is the UnicodeEncodeError of `write_text`, which leaves the files before it.
unfoldable pub write_log_bundle : Text → LogSource → Files → Option Files
unfolding bundle_files texts_of is_encodable
write_log_bundle no_netsim r files =
    if any (λ s. not (is_encodable s)) (texts_of no_netsim r)
    then none
    else some (bundle_files no_netsim r files)

-- `LOG_FILES` of main.py
abbrev pub log_files : List Text
log_files =
    codes "package.log"
    ∷ codes "fs-diff.log"
    ∷ codes "exit-code.txt"
    ∷ codes "dns.log"
    ∷ codes "netsim.json"
    ∷ codes "network.pcap"
    ∷ codes "gvisor-trace.json"
    ∷ codes "resource.json"
    ∷ codes "package-metadata.json"
    ∷ codes "registry-meta.json"
    ∷ codes "static-scan.json"
    ∷ codes "domain-intel.json"
    ∷ codes "env-access.log"
    ∷ codes "code-exec.log"
    ∷ codes "process_signals.json"
    ∷ codes "filesystem_signals.json"
    ∷ codes "network_signals.json"
    ∷ codes "env_signals.json"
    ∷ codes "timing_signals.json"
    ∷ codes "evasion_signals.json"
    ∷ codes "code_signals.json"
    ∷ codes "reputation_context.json"
    ∷ codes "correlations.json"
    ∷ codes "events.jsonl"
    ∷ codes "summary.json"
    ∷ []

unfoldable pub is_file : Text → Files → Bool
is_file name files = elim (find name files) [ none ↦ false | some content ↦ true ]

-- `list_logs`, of an analysis that has the directory.
unfoldable pub list_logs : Files → List Text
unfolding is_file
list_logs files = filter_by (λ name. is_file name files) log_files

-- The newlines that `read_text` gives for those of the file.
unfoldable pub universal_newlines : Text → Text
universal_newlines [] = []
universal_newlines (c ∷ []) = (if eqb c 13 then 10 else c) ∷ []
universal_newlines (c ∷ d ∷ s) =
    let rest = universal_newlines (d ∷ s) in
    if eqb c 13 then (if eqb d 10 then rest else 10 ∷ rest) else c ∷ rest

-- `get_log`; `none` is a 404 response. The capture is sent as it is.
unfoldable pub get_log : Text → Files → Option Text
unfolding universal_newlines
get_log filename files =
    if contains log_files filename
    then elim (find filename files) [
      | none ↦ none
      | some content ↦
          some (if filename == codes "network.pcap" then content else universal_newlines content)
    ]
    else none
