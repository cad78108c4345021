-- ===== src/Browser/Lifecycle/Sanitize.antt =====
-- What the page context of packages/browser/src/lifecycle.ts may hold.
use spectro.Prelude.{
  ℕ, zero, suc, ◌≤◌, ◌≡◌, refl, false, Option, none, some, [], ◌∷◌, ◌++◌, ◌==◌, take, length, All,
  All-append, length-take-le, arith, Bool-cases, Option-cases, subst, inl, inr, Text, text, text_eq,
}
use mathlib.Core.Option
use mathlib.Core.Option.{some-injective}
use spectro.Protocol.Context.{PageContext}
use spectro.Browser.Lifecycle.Pages.{
  UrlParts, RawPageSnapshot, before_query, safe_hash_route, sanitized, sanitize_page_url, or_root,
  create_page_context, non_empty, non_empty_url, max_url_length, max_title_length,
}

-- No character is a question mark.
abbrev pub HasNoQuery : Text → Type 0
HasNoQuery t = All (λ c. (c == 63) ≡ false) t

pub take-HasNoQuery : (n : ℕ) (t : Text) → HasNoQuery t → HasNoQuery (take n t)
take-HasNoQuery zero t h = tt
take-HasNoQuery (suc n) [] h = tt
take-HasNoQuery (suc n) (c ∷ cs) (p, h) = (p, take-HasNoQuery n cs h)

before_query-HasNoQuery : (t : Text) → HasNoQuery (before_query t)
before_query-HasNoQuery [] = tt
before_query-HasNoQuery (c ∷ cs) = elim (Bool-cases (c == 63)) [
  | inl e ↦ rw (e, before_query) tt
  | inr e ↦ rw (e, before_query) (e, before_query-HasNoQuery cs)
]

safe_hash_route-HasNoQuery : (t : Text) → HasNoQuery (safe_hash_route t)
safe_hash_route-HasNoQuery t = elim (Bool-cases (text_eq (take 2 t) (text "#/"))) [
  | inl e ↦ rw (e, safe_hash_route) (before_query-HasNoQuery t)
  | inr e ↦ rw (e, safe_hash_route) tt
]

or_root-HasNoQuery : (t : Text) → HasNoQuery t → HasNoQuery (or_root t)
or_root-HasNoQuery [] h = (refl, tt)
or_root-HasNoQuery (c ∷ cs) h = h

-- A text of the page context: no query, and at most 2048 characters.
abbrev pub IsSafe : Text → Type 0
IsSafe t = HasNoQuery t × (length t ≤ max_url_length)

take-IsSafe : (t : Text) → HasNoQuery t → IsSafe (take max_url_length t)
take-IsSafe t h = (take-HasNoQuery max_url_length t h, length-take-le max_url_length t)

-- The parts that a URL standard's parser keeps apart from the query and the fragment.
abbrev pub PartsHaveNoQuery : UrlParts → Type 0
PartsHaveNoQuery parts =
    HasNoQuery parts.origin × HasNoQuery parts.protocol × HasNoQuery parts.pathname

sanitized-IsSafe :
    (parts : UrlParts)
    → PartsHaveNoQuery parts
    → IsSafe (sanitized parts).0 × IsSafe (sanitized parts).1
sanitized-IsSafe parts (o, p, n) =
    let route = safe_hash_route parts.hash in
    let safe_route = safe_hash_route-HasNoQuery parts.hash in
    let rest : (t : Text) → HasNoQuery t → HasNoQuery (t ++ parts.pathname ++ route) = λ t h.
      All-append _ (t ++ parts.pathname) route (All-append _ t parts.pathname h n) safe_route in
    let path = take-IsSafe (or_root parts.pathname ++ route) (
      All-append _ (or_root parts.pathname) route (or_root-HasNoQuery parts.pathname n)
        safe_route) in
    elim (Bool-cases (text_eq parts.origin (text "null"))) [
      | inl e ↦ rw (e, sanitized) (take-IsSafe _ (rest parts.protocol p), path)
      | inr e ↦ rw (e, sanitized) (take-IsSafe _ (rest parts.origin o), path)
    ]

abbrev pub IsSafeReferrer : Option Text → Type 0
IsSafeReferrer none = Unit
IsSafeReferrer (some t) = IsSafe t

abbrev pub IsShortTitle : Option Text → Type 0
IsShortTitle none = Unit
IsShortTitle (some t) = length t ≤ max_title_length

non_empty-IsSafe : (t : Text) → IsSafe t → IsSafeReferrer (non_empty t)
non_empty-IsSafe [] h = tt
non_empty-IsSafe (c ∷ cs) h = h

non_empty-IsShort : (t : Text) → length t ≤ max_title_length → IsShortTitle (non_empty t)
non_empty-IsShort [] h = tt
non_empty-IsShort (c ∷ cs) h = h

abbrev pub IsSafePage : PageContext → Type 0
IsSafePage p = IsSafe p.url × IsSafe p.path × IsShortTitle p.title × IsSafeReferrer p.referrer

blank : IsSafe (text "about:blank")
blank = (
  (refl, (refl, (refl, (refl, (refl, (refl, (refl, (refl, (refl, (refl, (refl, tt))))))))))),
  omega arith,
)

slash : IsSafe (text "/")
slash = ((refl, tt), omega arith)

sanitized_parts :
    (o : Option UrlParts) (r : Text × Text)
    → Option.map sanitized o ≡ some r
    → (parts : UrlParts) × (o ≡ some parts) × (sanitized parts ≡ r)
sanitized_parts (some parts) r h = (parts, refl, some-injective _ _ h)
sanitized_parts none r h = cc

module _ (parse_url : Text → Option UrlParts)
    (keeps_apart : (raw : Text) (parts : UrlParts)
      → parse_url raw ≡ some parts
      → PartsHaveNoQuery parts) where
  sanitize_page_url-IsSafe :
      (raw : Text) (r : Text × Text)
      → sanitize_page_url parse_url raw ≡ some r
      → IsSafe r.0 × IsSafe r.1
  unfolding sanitize_page_url
  sanitize_page_url-IsSafe raw r h =
      let (parts, e, same) = sanitized_parts (parse_url raw) r h in
      subst (λ x. IsSafe x.0 × IsSafe x.1) same (sanitized-IsSafe parts (keeps_apart raw parts e))

  -- The page context of a snapshot has no query string in its URL, its path and its referrer, each of
  -- at most 2048 characters, and a title of at most 512, for a parser that keeps the query apart from
  -- the origin, the protocol and the path.
  pub create_page_context_lem :
      (trim : Text → Text) (snapshot : RawPageSnapshot) (id : Text)
      → IsSafePage (create_page_context parse_url trim snapshot id)
  unfolding create_page_context
  create_page_context_lem trim snapshot id =
      let title =
        non_empty-IsShort (take max_title_length (trim snapshot.title))
          (length-take-le max_title_length (trim snapshot.title)) in
      let referrer : IsSafeReferrer
          (non_empty_url (sanitize_page_url parse_url snapshot.referrer)) =
        elim (Option-cases (sanitize_page_url parse_url snapshot.referrer)) [
          | inl e ↦ rw e tt
          | inr (r, e) ↦
              rw e (non_empty-IsSafe r.0 (sanitize_page_url-IsSafe snapshot.referrer r e).0)
        ] in
      elim (Option-cases (sanitize_page_url parse_url snapshot.href)) [
        | inl e ↦ rw e (blank, slash, title, referrer)
        | inr (r, e) ↦
            let (u, p) = sanitize_page_url-IsSafe snapshot.href r e in rw e (u, p, title, referrer)
      ]
