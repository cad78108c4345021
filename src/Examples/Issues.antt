-- ===== src/Examples/Issues.antt =====
-- The theorems on issue states, on a store with one change.
use spectro.Prelude.{some, none, [], text}
use spectro.Api.Issues.{Issue, IssueStore, Change, resolved, ignored, set}
use spectro.Api.Issues.Timeline.{Reach, empty, sets, Refines, set_lem}

abbrev crash : Issue
crash = record { project_id = text "prj_1"; environment = text "live"; fingerprint = text "f0" }

abbrev resolves : Change
resolves = record { issue = crash; status = resolved; actor_id = some (text "usr_1"); now = 10 }

abbrev ignores : Change
ignores = record { issue = crash; status = ignored; actor_id = none; now = 20 }

abbrev no_issues : IssueStore
no_issues = record { rows = []; entries = []; next_id = 1 }

abbrev after_resolving : IssueStore
after_resolving = (set resolves no_issues).1

resolving-is_reached : Reach after_resolving
resolving-is_reached = sets resolves empty

set_lem_example : Refines ignores after_resolving (set ignores after_resolving)
set_lem_example = set_lem ignores after_resolving resolving-is_reached
