-- ===== src/Examples/Listing.antt =====
-- The theorem on the listings, on a user with two organisations, one of which has two projects.
use spectro.Prelude.{Bool, true, false, ◌&&◌, ◌||◌, none, [], ◌∷◌, ltb, ◌==◌, Text, text}
use spectro.Api.Roles.{owner, admin}
use spectro.Api.Tables.{Tables}

-- The lexicographic order.
unfoldable precedes : Text → Text → Bool
precedes a [] = false
precedes [] (d ∷ b) = true
precedes (c ∷ a) (d ∷ b) = ltb c d || (c == d && precedes a b)

abbrev tables : Tables
tables = record {
  members = record {
    organizations =
        record { id = text "org_2"; name = text "B" }
        ∷ record { id = text "org_1"; name = text "A" }
        ∷ [];
    people =
        record { id = text "usr_1"; email = none; email_verified = false; disabled = false } ∷ [];
    memberships =
        record { organization_id = text "org_2"; user_id = text "usr_1"; role = owner }
        ∷ record { organization_id = text "org_1"; user_id = text "usr_1"; role = admin }
        ∷ [];
    invitations = [];
    audit_log = [];
  };
  login_attempts = [];
  identities = [];
  sessions = [];
  projects =
      record { id = text "shop"; organization_id = text "org_1"; name = text "Shop" }
      ∷ record { id = text "blog"; organization_id = text "org_1"; name = text "Blog" }
      ∷ [];
  environments = record { project_id = text "shop"; name = text "production" } ∷ [];
  write_keys = [];
  workspace_log = [];
}
