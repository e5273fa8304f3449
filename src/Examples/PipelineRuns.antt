-- ===== src/Examples/PipelineRuns.antt =====
-- Runs of the pipeline and the server as a function of ids.
use whs_dynamic.Base.{
  ◌≤◌, List, [], ◌∷◌, ◌++◌, none, Bool, true, false, ◌==◌, nat_eq, list_eq, ◌≡◌, ◌↔◌, refl, Text,
  codes, All, length,
}
use whs_dynamic.Event.{Value, Data, Event}
use whs_dynamic.Jobs.{
  Job, Server, Request, running, queued_job, update_job, get_analysis, delete_analysis,
}
use whs_dynamic.Jobs.Abstract.{
  Operation, creates, updates, deletes, apply_all, intended_all, view, answer, server_refines,
}
use whs_dynamic.Pipeline.Run.{
  Action, run, start, pcap, World, Options, probed, perform, prepare, acquire, uses_sinkhole, enter,
  analyze_package,
}
use whs_dynamic.Pipeline.Run.Finish.{IsNoStop, final, unstopped_after_failed_start}
use whs_dynamic.Pipeline.Run.Plan.{names, plan, stages_planned}

abbrev show : Value → Text
show v = []

abbrev render : Data → Text
render d = []

abbrev imported : Event
imported = record {
  timestamp = codes "t";
  source = "runtime";
  category = "process";
  event_type = "process.exec";
  stage = "import";
  pid = none;
  ppid = none;
  payload = [];
}

-- The command of the stage `install` raises an exception.
abbrev raises_at_install : Action → Bool
raises_at_install (run name) = name == codes "install"
raises_at_install _ = false

-- tcpdump cannot be started.
abbrev raises_at_start : Action → Bool
raises_at_start (start pcap) = true
raises_at_start _ = false

abbrev world : (Action → Bool) → World
world raises = record {
  raises = λ h a. raises a;
  status = λ h name. codes "completed";
  collected = λ h name. [];
  scripts = codes "a" ∷ codes "b" ∷ codes "c" ∷ codes "d" ∷ [];
  exists = λ script. true;
  sinkhole_active = true;
  import_event = imported;
}

abbrev options : Options
options = record {
  uploaded = false;
  network = codes "sinkhole";
  sdist = true;
  custom_command = true;
}

unstopped_after_failed_start_example :
    All IsNoStop (final show render (world raises_at_start) options).history
unfolding enter perform prepare acquire uses_sinkhole
unstopped_after_failed_start_example =
    unstopped_after_failed_start show render (world raises_at_start) options refl refl

stages_planned_example :
    (rest : List Text) × (plan options (probed (world raises_at_install))
      ≡ names (analyze_package show render (world raises_at_install) options).1 ++ rest)
    × (length (names (analyze_package show render (world raises_at_install) options).1) ≤ 10)
stages_planned_example = stages_planned (world raises_at_install) options show render

abbrev server : Server
server = record { jobs = (codes "1", queued_job (codes "six") none 5) ∷ []; saved = [] }

abbrev request : Request
request = record { package_name = codes "six"; version = none; custom_command = none }

abbrev begun : Job → Job
begun j = record j { status = running }

-- An analysis is created, its worker begins, and it is deleted.
abbrev operations : List Operation
operations = creates (codes "2") request ∷ updates (codes "2") begun ∷ deletes (codes "2") ∷ []

server_refines_example :
    (view (apply_all operations server) ≡ intended_all operations (view server))
    × (get_analysis (codes "2") (apply_all operations server)
        ≡ answer (codes "2") (intended_all operations (view server) (codes "2")))
    × (delete_analysis (codes "2") (apply_all operations server) ≡ none
        ↔ intended_all operations (view server) (codes "2") ≡ (none, none))
    × (update_job (codes "2") begun (apply_all operations server) ≡ none
        ↔ (intended_all operations (view server) (codes "2")).0 ≡ none)
server_refines_example = server_refines operations server (codes "2") begun
