-- ===== src/Browser/Network/Laws.antt =====
-- What packages/browser/src/network.ts lets through.
use spectro.Prelude.{
  ◌≤◌, ◌≡◌, refl, sym, ap, ◌∙◌, subst, Bool, true, false, ◌&&◌, ◌||◌, Option, none, some, [], ◌∷◌,
  ◌++◌, leb, if◌then◌else◌, take, length, length-take-le, All-append, arith, Text, text, text_eq,
  text_eq_refl,
}
use mathlib.Core.Option.{some-injective}
use spectro.Browser.Lifecycle.Pages.{UrlParts}
use spectro.Browser.Lifecycle.Sanitize.{HasNoQuery, PartsHaveNoQuery, take-HasNoQuery}
use spectro.Browser.Network.{
  NetworkObservation, NetworkOptions, NetworkCapture, is_enabled, is_method, same_url, http_url,
  parse_trimmed, sanitize_network_url, sanitize_network_method, ingestion_endpoint, page_url,
  captured_request, capture_url, capture_request, max_network_url_length, max_network_method_length,
  normalized_timing,
}

if-some :
    (b : Bool) (x : Option NetworkCapture) (c : NetworkCapture)
    → (if b then x else none) ≡ some c
    → (b ≡ true) × (x ≡ some c)
if-some true x c h = (refl, h)
if-some false x c h = cc

if-none :
    (b : Bool) (x : Option NetworkCapture) (c : NetworkCapture)
    → (if b then none else x) ≡ some c
    → (b ≡ false) × (x ≡ some c)
if-none true x c h = cc
if-none false x c h = (refl, h)

if-same : (b : Bool) (t u : Text) → (if b then some t else none) ≡ some u → (b ≡ true) × (t ≡ u)
if-same true t u h = (refl, some-injective t u h)
if-same false t u h = cc

module _ (parse_url : Text → (base : Option Text) → Option UrlParts) (trim upper : Text → Text)
    (keeps_apart : (raw : Text) (base : Option Text) (parts : UrlParts)
      → parse_url raw base ≡ some parts
      → PartsHaveNoQuery parts) where
  abbrev IsSafeUrl : Text → Type 0
  IsSafeUrl t = HasNoQuery t × (length t ≤ max_network_url_length)

  http_url-IsSafe :
      (raw : Text) (base : Option Text) (o : Option UrlParts) (u : Text)
      → parse_url raw base ≡ o
      → http_url parse_url trim upper o ≡ some u
      → IsSafeUrl u
  http_url-IsSafe raw base none u is h = cc
  http_url-IsSafe raw base (some parts) u is h =
      let (_, same) =
        if-same (text_eq parts.protocol (text "http:") || text_eq parts.protocol (text "https:"))
          (take max_network_url_length (parts.origin ++ parts.pathname)) u h in
      let (o, _, n) = keeps_apart raw base parts is in
      subst IsSafeUrl same (
        take-HasNoQuery max_network_url_length (parts.origin ++ parts.pathname)
            (All-append _ parts.origin parts.pathname o n),
        length-take-le max_network_url_length (parts.origin ++ parts.pathname),
      )

  parse_trimmed-IsSafe :
      (t : Text) (base : Option Text) (u : Text)
      → parse_trimmed parse_url trim upper t base ≡ some u
      → IsSafeUrl u
  parse_trimmed-IsSafe [] base u h = cc
  parse_trimmed-IsSafe (c ∷ s) base u h = http_url-IsSafe (c ∷ s) base _ u refl h

  sanitize_network_url-IsSafe :
      (raw : Text) (base : Option Text) (u : Text)
      → sanitize_network_url parse_url trim upper raw base ≡ some u
      → IsSafeUrl u
  unfolding sanitize_network_url
  sanitize_network_url-IsSafe raw base u h = parse_trimmed-IsSafe (trim raw) base u h

  abbrev IsShortMethod : Text → Type 0
  IsShortMethod m = (is_method m ≡ true) × (length m ≤ max_network_method_length)

  sanitize_network_method-IsShort :
      (raw m : Text) → sanitize_network_method parse_url trim upper raw ≡ some m → IsShortMethod m
  unfolding sanitize_network_method
  sanitize_network_method-IsShort raw m h =
      let normalized = upper (trim raw) in
      let (checked, same) =
        if-same (leb (length normalized) max_network_method_length && is_method normalized)
          normalized m h in
      subst IsShortMethod same (ground (arith, checked), ground (arith, checked))

  captured_request-IsCaptured :
      (endpoint : Text) (options : NetworkOptions) (o : NetworkObservation) (base : Option Text)
      (url : Text) (method start duration : Option Text) (c : NetworkCapture)
      → captured_request parse_url trim upper endpoint options o base url method start duration
        ≡ some c
      → (c.payload.url ≡ url) × (method ≡ some c.payload.method)
  captured_request-IsCaptured endpoint options o base url (some m) (some s) (some d) c h =
      let same = some-injective _ c h in
      (sym (ap (λ x. x.payload.url) same), ap (λ x. some x.payload.method) same)
  captured_request-IsCaptured endpoint options o base url none s d c h = cc
  captured_request-IsCaptured endpoint options o base url (some m) none d c h = cc
  captured_request-IsCaptured endpoint options o base url (some m) (some s) none c h = cc

  not_same : (url : Text) (other : Option Text) → same_url url other ≡ false → ¬ (other ≡ some url)
  not_same url none h e = cc
  not_same url (some u) h e =
      not_false (sym (text_eq_refl url) ∙ ap (text_eq url) (sym (some-injective u url e)) ∙ h)
    where
      not_false : true ≡ false → ⊥
      not_false e = cc

  -- What is captured of a request: no query, a URL other than the ingestion endpoint's, a method of at
  -- most 16 capital letters.
  abbrev pub IsCaptured :
      (endpoint : Text) → NetworkOptions → NetworkObservation → NetworkCapture → Type 0
  IsCaptured endpoint options o c =
      (is_enabled options o.initiator ≡ true)
      × HasNoQuery c.payload.url
      × (length c.payload.url ≤ max_network_url_length)
      × ¬ (
          sanitize_network_url parse_url trim upper
            (ingestion_endpoint parse_url trim upper endpoint options)
            (page_url parse_url trim upper endpoint options o.navigation_url)
          ≡ some c.payload.url)
      × (is_method c.payload.method ≡ true)
      × (length c.payload.method ≤ max_network_method_length)

  capture_url-IsCaptured :
      (endpoint : Text) (options : NetworkOptions) (o : NetworkObservation) (u : Option Text)
      (c : NetworkCapture)
      → is_enabled options o.initiator ≡ true
      → sanitize_network_url parse_url trim upper o.request_url
          (page_url parse_url trim upper endpoint options o.navigation_url)
        ≡ u
      → capture_url parse_url trim upper endpoint options o
          (page_url parse_url trim upper endpoint options o.navigation_url)
          u
        ≡ some c
      → IsCaptured endpoint options o c
  capture_url-IsCaptured endpoint options o none c on is h = cc
  capture_url-IsCaptured endpoint options o (some url) c on is h =
      let base = page_url parse_url trim upper endpoint options o.navigation_url in
      let ingestion =
        sanitize_network_url parse_url trim upper
          (ingestion_endpoint parse_url trim upper endpoint options) base in
      let (other, h1) = if-none (same_url url ingestion) _ c h in
      let (same, named) =
        captured_request-IsCaptured endpoint options o base url
          (sanitize_network_method parse_url trim upper o.method) (normalized_timing o.start)
          (normalized_timing o.duration) c h1 in
      let (clean, short) = sanitize_network_url-IsSafe o.request_url base url is in
      let (letters, few) = sanitize_network_method-IsShort o.method c.payload.method named in
      (
        on,
        subst HasNoQuery (sym same) clean,
        subst (λ t. length t ≤ max_network_url_length) (sym same) short,
        λ e. not_same url ingestion other (e ∙ ap some same),
        letters,
        few,
      )

  -- A request is captured only if its kind is enabled and it does not go to the ingestion endpoint; the
  -- URL that is captured has no query and at most 2048 characters, and the method is 1 to 16 capital
  -- letters, for a parser that keeps the query apart from the origin and the path.
  pub capture_request-IsCaptured :
      (endpoint : Text) (options : NetworkOptions) (o : NetworkObservation) (c : NetworkCapture)
      → capture_request parse_url trim upper endpoint options o ≡ some c
      → IsCaptured endpoint options o c
  unfolding capture_request
  capture_request-IsCaptured endpoint options o c h =
      let (on, h1) = if-some (is_enabled options o.initiator) _ c h in
      capture_url-IsCaptured endpoint options o _ c on refl h1
