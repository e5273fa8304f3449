-- ===== src/Signals/Summary/Counts.antt =====
-- The summary counts the events that were merged.
use whs_dynamic.Base.{none, some, Bool, false, ◌&&◌, ◌==◌, string_eq, nat_eq, list_eq}
use whs_dynamic.Event.{Event}
use whs_dynamic.Signals.Merge.{LogRow}
use whs_dynamic.Signals.Summary.{Summary}

abbrev pub is_bulk_access : Event → Bool
is_bulk_access e = e.category == "env" && e.event_type == "env.bulk_access"

-- A row of the log of the environment that reports a walk over all of it.
abbrev pub is_bulk_row : LogRow → Bool
is_bulk_row row = elim row.event [ none ↦ false | some event ↦ event == "bulk_iteration" ]
