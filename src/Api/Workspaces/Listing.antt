-- ===== src/Api/Workspaces/Listing.antt =====
-- The organisations and projects of apps/api/src/postgres-workspaces.ts, read page by page with the
-- cursor of each page for the next request.
use spectro.Prelude.{
  ℕ, zero, suc, Bool, Option, none, some, List, [], ◌++◌, map, filter, sort_by, Text, text_eq,
  Either, ok, ◌>>=◌,
}
use spectro.Api.Tables.{Project, Tables}
use spectro.Api.Workspaces.{WorkspaceError, ProjectSummary, WorkspacePage, environments_of}

-- What a client reads that follows the cursors, with at most `fuel` requests.
abbrev pub read_pages :
    {A : Type 0}
    → (fuel : ℕ) → (Option Text → Either WorkspaceError (WorkspacePage A))
    → Option Text
    → Either WorkspaceError (List A)
read_pages zero request c = ok []
read_pages (suc fuel) request c = do
  p ← request c
  rest ← elim p.next_cursor [ none ↦ ok [] | some d ↦ read_pages fuel request (some d) ]
  ok (p.data_ ++ rest)

-- The projects of an organisation, and a project as it is listed.
abbrev pub owns : Text → Project → Bool
owns o p = text_eq p.organization_id o

abbrev pub listed : (precedes : Text → Text → Bool) → Tables → Project → ProjectSummary
listed precedes t p = record {
  id = p.id;
  organization_id = p.organization_id;
  name = p.name;
  environments = sort_by precedes (environments_of p.id t);
}

abbrev pub projects_of :
    (precedes : Text → Text → Bool) → (organization_id : Text) → Tables → List ProjectSummary
projects_of precedes o t = map (listed precedes t) (filter (owns o) t.projects)
