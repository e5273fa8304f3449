-- ===== src/StaticScan.antt =====
-- `scan_source_tree` and `diff_against_previous_release` of backend/app/static_scan.py. Python's syntax
-- trees, the entropy of a text, in millionths of
-- a bit, rounded down, and pip's download are arguments. The report rounds an entropy to hundredths of a bit, which the model does not.
pub mod Releases
use whs_dynamic.Base.{
  ℕ, zero, suc, ◌+◌, ◌-◌, List, [], ◌∷◌, ◌++◌, Option, none, some, Bool, true, false, ◌&&◌, ◌||◌,
  not, Text, codes, take, length, map, starts_with, leb, ltb, eqb, filter_by, find, put, sort_by,
  ◌==◌, nat_eq, list_eq, if◌then◌else◌,
}

-- `_SUSPICIOUS_APIS`
abbrev pub suspicious_apis : List Text
suspicious_apis =
    codes "eval"
    ∷ codes "exec"
    ∷ codes "compile"
    ∷ codes "os.system"
    ∷ codes "subprocess"
    ∷ codes "socket"
    ∷ codes "base64"
    ∷ codes "marshal"
    ∷ codes "ctypes"
    ∷ codes "pickle"
    ∷ codes "__import__"
    ∷ []

-- `text.count(api)` of an api that is not empty, behind `skip` characters of a match.
unfoldable pub count_from : Text → ℕ → Text → ℕ
count_from api skip [] = 0
count_from api (suc skip) (c ∷ s) = count_from api skip s
count_from api zero (c ∷ s) =
    let behind_match = count_from api (length api - 1) s in
    let rest = count_from api 0 s in if starts_with (c ∷ s) api then behind_match + 1 else rest

-- A file: its lines, its text, and the literals of its syntax tree, if it can be parsed.
pub record SourceFile : Type 0 where
  pub rel : Text
  pub lines : List Text
  pub content : Text
  pub literals : Option (List Text)

pub record LongLine : Type 0 where
  pub file : Text
  pub size : ℕ

pub record HighEntropy : Type 0 where
  pub file : Text
  pub size : ℕ
  pub entropy : ℕ
  pub preview : Text

abbrev pub Hits : Type 0
Hits = List (Text × ℕ)

-- `suspicious_hits[api] += hits`
unfoldable pub add_hits : Text → ℕ → Hits → Hits
add_hits api n hits = elim (find api hits) [ none ↦ put api n hits | some m ↦ put api (m + n) hits ]

-- The loop over the names, of one file.
unfoldable pub count_apis : List Text → Text → Hits → Hits
unfolding count_from add_hits
count_apis [] content hits = hits
count_apis (api ∷ apis) content hits =
    let n = count_from api 0 content in
    count_apis apis content (if eqb n 0 then hits else add_hits api n hits)

unfoldable pub long_lines : SourceFile → List LongLine
long_lines f =
    map (λ line. record { file = f.rel; size = length line })
      (filter_by (λ line. ltb 500 (length line)) f.lines)

pub record Scan : Type 0 where
  pub files_scanned : ℕ
  pub high_entropy_strings : List HighEntropy
  pub suspicious_api_hits : Hits
  pub obfuscation_flags : List LongLine

-- The sets of file names with their hashes.
abbrev pub Hashes : Type 0
Hashes = List (Text × Text)

unfoldable pub has_file : Hashes → Text → Bool
has_file files name = elim (find name files) [ none ↦ false | some h ↦ true ]

unfoldable pub hash_differs : Hashes → Hashes → Text → Bool
hash_differs prev cur name = elim (find name cur) [
  | none ↦ false
  | some h ↦ elim (find name prev) [ none ↦ false | some g ↦ not (h == g) ]
]

pub record ReleaseDiff : Type 0 where
  pub previous_version : Text
  pub files_added : List Text
  pub files_removed : List Text
  pub files_changed : List Text

unfoldable pub diff_trees : Text → Hashes → Hashes → ReleaseDiff
unfolding has_file hash_differs
diff_trees version prev cur = record {
  previous_version = version;
  files_added = sort_by (λ n. n) (filter_by (λ n. not (has_file prev n)) (map (λ e. e.0) cur));
  files_removed = sort_by (λ n. n) (filter_by (λ n. not (has_file cur n)) (map (λ e. e.0) prev));
  files_changed = sort_by (λ n. n) (filter_by (hash_differs prev cur) (map (λ e. e.0) cur));
}

pub data Diffed : Type 0 where
  no_earlier_release download_failed no_artifact : Diffed
  success : ReleaseDiff → Diffed

-- What pip leaves: no success, no artifact, or the tree of one.
pub data Download : Type 0 where
  failed nothing : Download
  tree : Hashes → Download

-- `diff_against_previous_release`, of the version that `_previous_version` gives.
unfoldable pub diff_against_previous_release : Option Text → Download → Hashes → Diffed
unfolding diff_trees
diff_against_previous_release none download cur = no_earlier_release
diff_against_previous_release (some version) failed cur = download_failed
diff_against_previous_release (some version) nothing cur = no_artifact
diff_against_previous_release (some version) (tree prev) cur = success (diff_trees version prev cur)

module _ (shannon_entropy : Text → ℕ) where
  -- The loop over the literals.
  unfoldable pub high_entropy : Text → List Text → List HighEntropy
  high_entropy rel [] = []
  high_entropy rel (literal ∷ literals) =
      let rest = high_entropy rel literals in
      if leb 40 (length literal) && leb 4500000 (shannon_entropy literal)
      then record {
        file = rel;
        size = length literal;
        entropy = shannon_entropy literal;
        preview = take 60 literal;
      }
        ∷ rest
      else rest

  -- A file that cannot be parsed has no literals.
  unfoldable pub literals_of : SourceFile → List HighEntropy
  unfolding high_entropy
  literals_of f = elim f.literals [ none ↦ [] | some literals ↦ high_entropy f.rel literals ]

  -- The loop over the files that could be read.
  unfoldable pub scan_files : List SourceFile → Scan → Scan
  unfolding long_lines count_apis literals_of
  scan_files [] s = s
  scan_files (f ∷ files) s = scan_files files record {
    files_scanned = s.files_scanned + 1;
    high_entropy_strings = s.high_entropy_strings ++ literals_of f;
    suspicious_api_hits = count_apis suspicious_apis f.content s.suspicious_api_hits;
    obfuscation_flags = s.obfuscation_flags ++ long_lines f;
  }

  -- `scan_source_tree`
  unfoldable pub scan_source_tree : List SourceFile → Scan
  unfolding scan_files
  scan_source_tree files =
      let s = scan_files files record {
        files_scanned = 0;
        high_entropy_strings = [];
        suspicious_api_hits = [];
        obfuscation_flags = [];
      } in
      record s {
        high_entropy_strings = take 50 s.high_entropy_strings;
        obfuscation_flags = take 50 s.obfuscation_flags;
      }
