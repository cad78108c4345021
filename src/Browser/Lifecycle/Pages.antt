-- ===== src/Browser/Lifecycle/Pages.antt =====
-- The page of the lifecycle: safeHashRoute, sanitizePageUrl and createPageContext of
-- packages/browser/src/lifecycle.ts. The URL parser of the platform is a parameter.
use spectro.Prelude.{
  ℕ, Option, none, some, [], ◌∷◌, ◌++◌, ◌==◌, if◌then◌else◌, take, or_else, Text, text, text_eq,
}
use mathlib.Core.Option
use spectro.Protocol.Context.{PageContext}

abbrev pub max_url_length : ℕ
max_url_length = 2048

abbrev pub max_title_length : ℕ
max_title_length = 512

-- The parts of a `URL` that the code reads.
pub record UrlParts : Type 0 where
  pub origin : Text
  pub protocol : Text
  pub pathname : Text
  pub hash : Text

pub record RawPageSnapshot : Type 0 where
  pub href : Text
  pub title : Text
  pub referrer : Text

-- `hash.slice(0, hash.indexOf('?'))`, or all of it
abbrev pub before_query : Text → Text
before_query [] = []
before_query (c ∷ cs) = let rest = before_query cs in if c == 63 then [] else c ∷ rest

-- A text that starts with `#/` is kept up to its query.
abbrev pub safe_hash_route : Text → Text
safe_hash_route hash = if text_eq (take 2 hash) (text "#/") then before_query hash else []

-- `parsed.pathname || '/'`
abbrev pub or_root : Text → Text
or_root [] = text "/"
or_root (c ∷ cs) = c ∷ cs

-- The `url` and the `path`; `none` where the parser throws.
abbrev pub sanitized : UrlParts → Text × Text
sanitized parts =
    let route = safe_hash_route parts.hash in
    let origin = if text_eq parts.origin (text "null") then parts.protocol else parts.origin in
    (
      take max_url_length (origin ++ parts.pathname ++ route),
      take max_url_length (or_root parts.pathname ++ route),
    )

abbrev pub non_empty : Text → Option Text
non_empty [] = none
non_empty (c ∷ cs) = some (c ∷ cs)

-- `...(referrer ? { referrer } : {})`
abbrev pub non_empty_url : Option (Text × Text) → Option Text
non_empty_url none = none
non_empty_url (some r) = non_empty r.0

module _ (parse_url : Text → Option UrlParts) where
  unfoldable pub sanitize_page_url : Text → Option (Text × Text)
  sanitize_page_url raw = Option.map sanitized (parse_url raw)

  unfoldable pub create_page_context : (trim : Text → Text) → RawPageSnapshot → Text → PageContext
  create_page_context trim snapshot id =
      let location = or_else (sanitize_page_url snapshot.href) (text "about:blank", text "/") in
      record {
        id = id;
        url = location.0;
        path = location.1;
        title = non_empty (take max_title_length (trim snapshot.title));
        referrer = non_empty_url (sanitize_page_url snapshot.referrer);
      }
