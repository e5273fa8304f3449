-- ===== src/Examples/HookRuns.antt =====
-- Runs of the hooks in an analysed program, and of the sinkhole's certificates.
use whs_dynamic.Base.{List, [], ◌∷◌, Option, none, some, Bool, true, false, Text, codes, All}
use whs_dynamic.Instrumentation.{Moment, accessed, audited, keys, get}
use whs_dynamic.Sinkhole.Leaves.{LeafCall, Leaves, handshakes}
use whs_dynamic.Sinkhole.Leaves.Issued.{IsIssued, handshakes-IsIssued}

-- A program that reads a key, lists the keys while the log cannot be written, and compiles a source.
abbrev moments : List Moment
moments =
    record { action = accessed (get (some (codes "HOME"))); now = 1; writable = true }
    ∷ record { action = accessed keys; now = 2; writable = false }
    ∷ record {
      action = audited record {
        event = codes "compile";
        arguments = some (codes "1+1") ∷ some (codes "x.py") ∷ [];
        co_filename = some (codes "None");
      };
      now = 3;
      writable = true;
    }
    ∷ []

-- Every call returns, and a context is the calls that made it.
abbrev all_return : List LeafCall → Bool
all_return calls = true

abbrev made_by : List LeafCall → List LeafCall
made_by calls = calls

abbrev no_leaves : Leaves (List LeafCall)
no_leaves = record { leaf_cache = []; calls = [] }

-- One connection without a name, one with a name, and one whose name would change the subject.
abbrev asked : List (Option Text)
asked = none ∷ some (codes "a.example") ∷ some (codes "a/O=b") ∷ []

handshakes-IsIssued_example :
    All (IsIssued (codes "/w")) (handshakes (codes "/w") all_return made_by asked no_leaves).calls
handshakes-IsIssued_example = handshakes-IsIssued (codes "/w") all_return made_by asked no_leaves tt
