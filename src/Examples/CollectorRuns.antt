-- ===== src/Examples/CollectorRuns.antt =====
-- The collectors and the sinkhole's listener on concrete inputs.
use whs_dynamic.Base.{List, [], ◌∷◌, Option, none, some, Text, codes, Bytes}
use whs_dynamic.Collectors.Sampler.{runsc, other, Round, new_sampler, run_rounds}
use whs_dynamic.Collectors.Sampler.Series.{IsSampled, run_rounds-IsSampled}

abbrev two_rounds : List Round
two_rounds =
    record {
      now = codes "1";
      processes = runsc (some 40) ∷ other ∷ runsc none ∷ [];
      scopes = record { memory = 5; pids = 2; cpu = 9 } ∷ [];
    }
    ∷ record { now = codes "2"; processes = other ∷ []; scopes = [] }
    ∷ []

run_rounds-IsSampled_example : IsSampled (run_rounds two_rounds new_sampler)
run_rounds-IsSampled_example = run_rounds-IsSampled two_rounds

abbrev no_length : Text → Option Text
no_length head = none

abbrev as_text : Bytes → Option Text
as_text bytes = some bytes

abbrev get_request : Bytes
get_request = codes "GET /x HTTP/1.1\r\nHost: a\r\n\r\n"
