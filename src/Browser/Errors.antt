-- ===== src/Browser/Errors.antt =====
-- packages/browser/src/error.ts: what is captured of an error. A value is what the code reads of it, and
-- a number of a source is `none` where it is no safe integer or negative.
pub mod Stack
pub mod Bounds
use spectro.Prelude.{
  ℕ, Bool, true, false, ◌&&◌, ◌||◌, Option, none, some, List, [], ◌∷◌, ◌++◌, leb, ◌==◌,
  if◌then◌else◌, take, length, map, or_else, Text, text,
}
use spectro.Protocol.Event.{
  Mechanism, runtime, promise, resource, manual, StackFrame, ErrorSource, ErrorPayload,
}
use Stack.{SourceUrlParts, bounded_text, non_empty, sanitize_source_url, parse_browser_stack}

abbrev pub max_error_name_length : ℕ
max_error_name_length = 256

abbrev pub max_error_message_length : ℕ
max_error_message_length = 2048

abbrev pub max_fingerprint_items : ℕ
max_fingerprint_items = 10

abbrev pub max_fingerprint_item_length : ℕ
max_fingerprint_item_length = 256

-- `printed` is `String(value)` of a string, number, boolean, bigint or symbol, and `none` for another
-- value that is no object; the fields of an object are `none` where they are no strings.
pub data ErrorValue : Type 0 where
  primitive : (printed : Option Text) → ErrorValue
  object : (message name stack : Option Text) → ErrorValue

pub data ErrorObservation : Type 0 where
  of_runtime : ErrorValue → (message : Option Text) → Option ErrorSource → ErrorObservation
  of_promise : ErrorValue → ErrorObservation
  of_resource : (url tag_name : Option Text) → ErrorObservation

pub record NormalizedError : Type 0 where
  pub message : Text
  pub name : Option Text
  pub stack : Option (List StackFrame)

-- The options; `none` is undefined.
pub record ErrorOptions : Type 0 where
  pub capture_runtime_errors : Option Bool
  pub capture_unhandled_rejections : Option Bool
  pub capture_resource_errors : Option Bool

-- `a || b` on texts
abbrev pub or_text : Option Text → Text → Text
or_text none b = b
or_text (some []) b = b
or_text (some (c ∷ s)) b = c ∷ s

abbrev is_lower_tag_char : ℕ → Bool
is_lower_tag_char c = (leb b'a' c && leb c b'z') || (leb b'0' c && leb c b'9') || c == b'-'

abbrev all_tag_chars : Text → Bool
all_tag_chars [] = true
all_tag_chars (c ∷ cs) = is_lower_tag_char c && all_tag_chars cs

-- `/^[a-z][a-z0-9-]{0,63}$/`
abbrev pub is_tag : Text → Bool
is_tag [] = false
is_tag (c ∷ cs) = leb b'a' c && leb c b'z' && leb (length cs) 63 && all_tag_chars cs

abbrev pub tag_part : Option Text → Text
tag_part none = []
tag_part (some tag) = if is_tag tag then text " " ++ tag else []

abbrev unless_off : Option Bool → Bool
unless_off none = true
unless_off (some b) = b

unfoldable pub is_captured : ErrorOptions → ErrorObservation → Bool
is_captured options (of_runtime v m s) = unless_off options.capture_runtime_errors
is_captured options (of_promise v) = unless_off options.capture_unhandled_rejections
is_captured options (of_resource u t) = unless_off options.capture_resource_errors

abbrev pub error_event_name : ErrorObservation → Text
error_event_name (of_runtime v m s) = text "runtime_error"
error_event_name (of_promise v) = text "unhandled_rejection"
error_event_name (of_resource u t) = text "resource_error"

module _ (parse_url : Text → Option SourceUrlParts) (trim : Text → Text) where
  abbrev pub bounded : (maximum : ℕ) → Option Text → Option Text
  bounded maximum none = none
  bounded maximum (some t) = some (bounded_text parse_url trim t maximum)

  abbrev pub named : Option Text → Option Text
  named none = none
  named (some t) = non_empty (bounded_text parse_url trim t max_error_name_length)

  abbrev pub stacked : Option Text → Option (List StackFrame)
  stacked none = none
  stacked (some t) = parse_browser_stack parse_url trim t

  unfoldable pub normalize_error_value : ErrorValue → (fallback : Text) → NormalizedError
  normalize_error_value (primitive printed) fallback = record {
    message = or_text (bounded max_error_message_length printed) fallback;
    name = none;
    stack = none;
  }
  normalize_error_value (object message name stack) fallback = record {
    message = or_text (bounded max_error_message_length message) fallback;
    name = named name;
    stack = stacked stack;
  }

  abbrev pub source_url : Option Text → Option Text
  source_url none = none
  source_url (some u) = sanitize_source_url parse_url trim u

  abbrev pub source_of : (url : Option Text) → (line column : Option ℕ) → Option ErrorSource
  source_of none none none = none
  source_of url line column = some (record { url = url; line = line; column = column })

  unfoldable pub normalize_source : Option ErrorSource → Option ErrorSource
  normalize_source none = none
  normalize_source (some s) = source_of (source_url s.url) s.line s.column

  abbrev pub keep_texts : List Text → List Text
  keep_texts [] = []
  keep_texts ([] ∷ ts) = keep_texts ts
  keep_texts ((c ∷ s) ∷ ts) = (c ∷ s) ∷ keep_texts ts

  abbrev pub some_texts : List Text → Option (List Text)
  some_texts [] = none
  some_texts (t ∷ ts) = some (t ∷ ts)

  unfoldable pub normalize_fingerprint : Option (List Text) → Option (List Text)
  normalize_fingerprint none = none
  normalize_fingerprint (some items) = some_texts (
      keep_texts (
        map (λ t. bounded_text parse_url trim t max_fingerprint_item_length)
          (take max_fingerprint_items items)))

  abbrev pub payload :
      Mechanism
      → NormalizedError
      → (handled : Bool) → Option (List Text)
      → Option ErrorSource
      → ErrorPayload
  payload mechanism n handled fingerprint source = record {
    mechanism = mechanism;
    name = n.name;
    message = n.message;
    stack = n.stack;
    fingerprint = fingerprint;
    handled = handled;
    source = source;
  }

  unfoldable pub payload_from_observation : ErrorObservation → ErrorPayload
  payload_from_observation (of_runtime value message source) =
      payload runtime
        (normalize_error_value value (or_text message (text "Uncaught runtime error"))) false none
        (normalize_source source)
  payload_from_observation (of_promise value) =
      payload promise (normalize_error_value value (text "Unhandled promise rejection")) false none
        none
  payload_from_observation (of_resource url tag_name) =
      payload resource
        (record {
          message = text "Failed to load" ++ tag_part tag_name ++ text " resource";
          name = some (text "ResourceLoadError");
          stack = none;
        })
        false none (source_of (source_url url) none none)

  -- What `captureException` captures.
  unfoldable pub exception_payload :
      ErrorValue → (handled : Option Bool) → (fingerprint : Option (List Text)) → ErrorPayload
  exception_payload value handled fingerprint =
      payload manual (normalize_error_value value (text "Captured non-Error value"))
        (or_else handled true) (normalize_fingerprint fingerprint) none
