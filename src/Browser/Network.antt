-- ===== src/Browser/Network.antt =====
-- packages/browser/src/network.ts and network-url.ts: what is captured of an observed request. The URL
-- parser, trim and toUpperCase are parameters, and so is how a number is printed.
pub mod Laws
use spectro.Prelude.{
  ℕ, Bool, true, false, not, ◌&&◌, ◌||◌, Option, none, some, List, [], ◌∷◌, ◌++◌, ltb, leb, ◌==◌,
  if◌then◌else◌, take, length, Text, text, text_eq,
}
use spectro.Protocol.Event.{NetworkPayload, Initiator, fetch, xhr, resource}
use spectro.Browser.Lifecycle.Pages.{UrlParts, sanitize_page_url}

abbrev pub max_network_url_length : ℕ
max_network_url_length = 2048

abbrev pub max_network_method_length : ℕ
max_network_method_length = 16

-- A number of the observation: printed, if it is finite and not negative.
pub data Measure : Type 0 where
  counted : Text → Measure
  negative_or_infinite : Measure

pub data Status : Type 0 where
  whole : ℕ → Status
  no_whole : Status

pub data FailureKind : Type 0 where
  network_failure timeout aborted : FailureKind

pub record NetworkObservation : Type 0 where
  pub request_url : Text
  pub navigation_url : Option Text
  pub method : Text
  pub start : Measure
  pub duration : Measure
  pub initiator : Initiator
  pub status : Option Status
  pub success : Bool
  pub failure_kind : Option FailureKind

-- The options; `none` is undefined.
pub record NetworkOptions : Type 0 where
  pub capture_fetch : Option Bool
  pub capture_xhr : Option Bool
  pub capture_resource_timing : Option Bool

abbrev pub normalized_timing : Measure → Option Text
normalized_timing (counted t) = some t
normalized_timing negative_or_infinite = none

abbrev pub normalized_status : Option Status → Option ℕ
normalized_status none = none
normalized_status (some no_whole) = none
normalized_status (some (whole n)) = if leb n 599 then some n else none

abbrev pub event_name : Initiator → Text
event_name fetch = text "fetch_request"
event_name xhr = text "xhr_request"
event_name resource = text "resource_request"

-- `option !== false` and `option === true`
abbrev pub unless_off : Option Bool → Bool
unless_off none = true
unless_off (some b) = b

abbrev pub if_on : Option Bool → Bool
if_on none = false
if_on (some b) = b

abbrev pub is_enabled : NetworkOptions → Initiator → Bool
is_enabled options fetch = unless_off options.capture_fetch
is_enabled options xhr = unless_off options.capture_xhr
is_enabled options resource = if_on options.capture_resource_timing

abbrev pub is_server_error : Option ℕ → Bool
is_server_error none = false
is_server_error (some n) = n == 408 || leb 500 n

abbrev pub is_lost : Option FailureKind → Bool
is_lost (some network_failure) = true
is_lost (some timeout) = true
is_lost (some aborted) = false
is_lost none = false

abbrev pub all_upper : Text → Bool
all_upper [] = true
all_upper (c ∷ cs) = leb b'A' c && leb c b'Z' && all_upper cs

-- `/^[A-Z]+$/`
abbrev pub is_method : Text → Bool
is_method m = ltb 0 (length m) && all_upper m

-- What `host.capture` is given.
pub record NetworkCapture : Type 0 where
  pub name : Text
  pub payload : NetworkPayload
  pub navigation_url : Option Text
  pub immediate : Bool

abbrev pub same_url : Text → Option Text → Bool
same_url url none = false
same_url url (some other) = text_eq url other

-- `endpoint.replace(/\/$/u, '')`
abbrev pub strip_slash : Text → Text
strip_slash [] = []
strip_slash (c ∷ []) = if c == b'/' then [] else c ∷ []
strip_slash (c ∷ d ∷ cs) = c ∷ strip_slash (d ∷ cs)

module _ (parse_url : Text → (base : Option Text) → Option UrlParts)
    (trim upper : Text → Text) where
  unfoldable pub sanitize_network_method : Text → Option Text
  sanitize_network_method method =
      let normalized = upper (trim method) in
      if leb (length normalized) max_network_method_length && is_method normalized
      then some normalized
      else none

  abbrev pub http_url : Option UrlParts → Option Text
  http_url none = none
  http_url (some parts) =
      if text_eq parts.protocol (text "http:") || text_eq parts.protocol (text "https:")
      then some (take max_network_url_length (parts.origin ++ parts.pathname))
      else none

  abbrev pub parse_trimmed : Text → Option Text → Option Text
  parse_trimmed [] base = none
  parse_trimmed (c ∷ s) base = http_url (parse_url (c ∷ s) base)

  unfoldable pub sanitize_network_url : Text → (base : Option Text) → Option Text
  sanitize_network_url raw base = parse_trimmed (trim raw) base

  module _ (endpoint : Text) (options : NetworkOptions) where
    abbrev pub ingestion_endpoint : Text
    ingestion_endpoint = strip_slash endpoint ++ text "/v1/envelope"

    abbrev pub page_url : Option Text → Option Text
    page_url none = none
    page_url (some raw) = elim (sanitize_page_url (λ t. parse_url t none) raw) [
      | none ↦ none
      | some r ↦ some r.0
    ]

    abbrev pub captured_request :
        NetworkObservation
        → (base : Option Text) → (url : Text) → (method start duration : Option Text)
        → Option NetworkCapture
    captured_request o base url (some method) (some start) (some duration) =
        let status = normalized_status o.status in
        some (record {
          name = event_name o.initiator;
          payload = record {
            method = method;
            url = url;
            status = status;
            start = start;
            duration = duration;
            initiator = o.initiator;
            success = o.success;
          };
          navigation_url = base;
          immediate = is_lost o.failure_kind || is_server_error status;
        })
    captured_request o base url _ _ _ = none

    -- From the sanitized URL of the request on.
    abbrev pub capture_url : NetworkObservation → (base url : Option Text) → Option NetworkCapture
    capture_url o base none = none
    capture_url o base (some url) =
        if same_url url (sanitize_network_url ingestion_endpoint base)
        then none
        else captured_request o base url (sanitize_network_method o.method)
            (normalized_timing o.start) (normalized_timing o.duration)

    -- `#capture`; `none` where nothing is captured.
    unfoldable pub capture_request : NetworkObservation → Option NetworkCapture
    capture_request o =
        let base = page_url o.navigation_url in
        if is_enabled options o.initiator
        then capture_url o base (sanitize_network_url o.request_url base)
        else none
