-- ===== src/Browser/Errors/Bounds.antt =====
-- The limits of packages/protocol/schemas/error.schema.json on what packages/browser/src/error.ts
-- captures of an observation.
use spectro.Prelude.{
  ℕ, zero, suc, ◌≤◌, Bool, true, false, ◌||◌, Option, none, some, List, [], ◌∷◌, ◌++◌, ◌==◌,
  if◌then◌else◌, take, length, length-append, length-take-le, All, arith, Text, text, text_eq,
}
use spectro.Protocol.Event.{StackFrame, ErrorSource, ErrorPayload}
use spectro.Browser.Errors.{
  ErrorValue, primitive, object, ErrorObservation, of_runtime, of_promise, of_resource,
  NormalizedError, or_text, tag_part, bounded, named, stacked, normalize_error_value, source_url,
  source_of, normalize_source, payload_from_observation, max_error_name_length,
  max_error_message_length,
}
use spectro.Browser.Errors.Stack.{
  SourceUrlParts, bounded_text, non_empty, before_suffix, sanitized_source, sanitize_trimmed,
  sanitize_source_url, head_parts, function_name, frame_at, frame_of, location, parse_stack_line,
  collect_frames, some_frames, parse_browser_stack, max_function_length, max_source_url_length,
  max_stack_frames, max_stack_input_length, without_at, lines, split_last, parts_at,
}

abbrev pub AtMost : ℕ → Option Text → Type 0
AtMost n none = Unit
AtMost n (some t) = length t ≤ n

abbrev pub IsMessage : Text → Type 0
IsMessage t = (1 ≤ length t) × (length t ≤ max_error_message_length)

abbrev FrameIsBounded : StackFrame → Type 0
FrameIsBounded f = AtMost max_source_url_length f.filename × AtMost max_function_length f.function

abbrev pub StackIsBounded : Option (List StackFrame) → Type 0
StackIsBounded none = Unit
StackIsBounded (some fs) = (length fs ≤ max_stack_frames) × All FrameIsBounded fs

abbrev pub SourceIsBounded : Option ErrorSource → Type 0
SourceIsBounded none = Unit
SourceIsBounded (some s) = AtMost max_source_url_length s.url

abbrev pub IsBounded : ErrorPayload → Type 0
IsBounded p =
    IsMessage p.message
    × AtMost max_error_name_length p.name
    × StackIsBounded p.stack
    × SourceIsBounded p.source

-- The message that an observation of a runtime error brings is no longer than a payload's.
abbrev pub HasShortMessage : ErrorObservation → Type 0
HasShortMessage (of_runtime v m s) = AtMost max_error_message_length m
HasShortMessage (of_promise v) = Unit
HasShortMessage (of_resource u t) = Unit

if-AtMost :
    (n : ℕ) (b : Bool) (o p : Option Text) → AtMost n o → AtMost n p → AtMost n (if b then o else p)
if-AtMost n true o p h k = h
if-AtMost n false o p h k = k

non_empty-AtMost : (n : ℕ) (t : Text) → length t ≤ n → AtMost n (non_empty t)
non_empty-AtMost n [] h = tt
non_empty-AtMost n (c ∷ cs) h = h

or_text-IsMessage :
    (o : Option Text) (fallback : Text)
    → AtMost max_error_message_length o
    → IsMessage fallback
    → IsMessage (or_text o fallback)
or_text-IsMessage none fallback h k = k
or_text-IsMessage (some []) fallback h k = k
or_text-IsMessage (some (c ∷ s)) fallback h k = (ground arith, h)

length-tag_part : (tag : Option Text) → length (tag_part tag) ≤ 65
length-tag_part none = omega arith
length-tag_part (some []) = omega arith
length-tag_part (some (c ∷ cs)) = ground arith

tag_part-IsMessage :
    (tag : Option Text) → IsMessage (text "Failed to load" ++ tag_part tag ++ text " resource")
tag_part-IsMessage tag =
    let short = length-tag_part tag in
    rw (length-append (tag_part tag) (text " resource")) (omega arith, omega arith)

module _ (parse_url : Text → Option SourceUrlParts) (trim : Text → Text) where
  bounded_text-le : (t : Text) (n : ℕ) → length (bounded_text parse_url trim t n) ≤ n
  bounded_text-le t n = length-take-le n (trim t)

  sanitized_source-AtMost :
      (o : Option SourceUrlParts) → AtMost max_source_url_length (sanitized_source parse_url trim o)
  sanitized_source-AtMost none = tt
  sanitized_source-AtMost (some u) =
      if-AtMost _ (text_eq u.protocol (text "http:") || text_eq u.protocol (text "https:")) _ _
        (length-take-le max_source_url_length (u.origin ++ u.pathname))
        (if-AtMost _ (text_eq u.protocol (text "file:") || text_eq u.protocol (text "webpack:")) _
          none
          (length-take-le max_source_url_length (u.protocol ++ text "//" ++ u.host ++ u.pathname))
          tt)

  sanitize_trimmed-AtMost :
      (t : Text) → AtMost max_source_url_length (sanitize_trimmed parse_url trim t)
  sanitize_trimmed-AtMost [] = tt
  sanitize_trimmed-AtMost (c ∷ cs) =
      if-AtMost _ (c == b'/') _ _ (length-take-le max_source_url_length (before_suffix (c ∷ cs)))
        (sanitized_source-AtMost (parse_url (c ∷ cs)))

  source_url-AtMost : (o : Option Text) → AtMost max_source_url_length (source_url parse_url trim o)
  unfolding sanitize_source_url
  source_url-AtMost none = tt
  source_url-AtMost (some t) = sanitize_trimmed-AtMost (trim t)

  function_name-AtMost :
      (n : ℕ) (o : Option Text) → AtMost n o → AtMost n (function_name parse_url trim o)
  function_name-AtMost n none h = tt
  function_name-AtMost n (some t) h = non_empty-AtMost n t h

  parts_at-AtMost :
      (o : Option (Text × Text)) (otherwise : Option Text × Text)
      → AtMost max_function_length otherwise.0
      → AtMost max_function_length (parts_at parse_url trim o otherwise).0
  parts_at-AtMost none otherwise h = h
  parts_at-AtMost (some (before, after)) otherwise h = bounded_text-le before max_function_length

  head_parts-AtMost : (head : Text) → AtMost max_function_length (head_parts parse_url trim head).0
  head_parts-AtMost head =
      parts_at-AtMost (split_last b'(' head) _
        (parts_at-AtMost (split_last b'@' head) (none, head) tt)

  abbrev MaybeBounded : Option StackFrame → Type 0
  MaybeBounded none = Unit
  MaybeBounded (some f) = FrameIsBounded f

  frame_at-IsBounded :
      (filename function : Option Text) (line column : ℕ)
      → AtMost max_source_url_length filename
      → AtMost max_function_length function
      → MaybeBounded (frame_at parse_url trim filename function line column)
  frame_at-IsBounded none function line column h k = tt
  frame_at-IsBounded (some t) function line column h k = (h, function_name-AtMost _ function k)

  frame_of-IsBounded : (o : Option (ℕ × ℕ × Text)) → MaybeBounded (frame_of parse_url trim o)
  frame_of-IsBounded none = tt
  frame_of-IsBounded (some (line, column, before)) =
      let parts = head_parts parse_url trim (without_at parse_url trim (trim before)) in
      frame_at-IsBounded _ parts.0 line column (source_url-AtMost (some parts.1))
        (head_parts-AtMost (without_at parse_url trim (trim before)))

  parse_stack_line-IsBounded : (line : Text) → MaybeBounded (parse_stack_line parse_url trim line)
  unfolding parse_stack_line
  parse_stack_line-IsBounded line = frame_of-IsBounded (location (trim line))

  abbrev FramesAreBounded : ℕ → List StackFrame → Type 0
  FramesAreBounded n fs = (length fs ≤ n) × All FrameIsBounded fs

  add_frame-AreBounded :
      (room : ℕ) (o : Option StackFrame) (taken skipped : List StackFrame)
      → MaybeBounded o
      → FramesAreBounded room taken
      → FramesAreBounded (suc room) skipped
      → FramesAreBounded (suc room) (elim o [ some f ↦ f ∷ taken | none ↦ skipped ])
  add_frame-AreBounded room none taken skipped first rest later = later
  add_frame-AreBounded room (some f) taken skipped first (short, rest) later =
      (omega (arith, short), (first, rest))

  collect_frames-AreBounded :
      (room : ℕ) (ls : List Text) → FramesAreBounded room (collect_frames parse_url trim room ls)
  unfolding collect_frames
  collect_frames-AreBounded zero ls = (omega arith, tt)
  collect_frames-AreBounded (suc room) [] = (omega arith, tt)
  collect_frames-AreBounded (suc room) (l ∷ ls) =
      add_frame-AreBounded room (parse_stack_line parse_url trim l) _ _
        (parse_stack_line-IsBounded l) (collect_frames-AreBounded room ls)
        (collect_frames-AreBounded (suc room) ls)

  some_frames-IsBounded :
      (fs : List StackFrame)
      → FramesAreBounded max_stack_frames fs
      → StackIsBounded (some_frames parse_url trim fs)
  some_frames-IsBounded [] h = tt
  some_frames-IsBounded (f ∷ fs) h = h

  stacked-IsBounded : (o : Option Text) → StackIsBounded (stacked parse_url trim o)
  unfolding parse_browser_stack
  stacked-IsBounded none = tt
  stacked-IsBounded (some t) =
      some_frames-IsBounded _
        (collect_frames-AreBounded max_stack_frames (lines (take max_stack_input_length t)))

  bounded-AtMost : (n : ℕ) (o : Option Text) → AtMost n (bounded parse_url trim n o)
  bounded-AtMost n none = tt
  bounded-AtMost n (some t) = bounded_text-le t n

  named-AtMost : (o : Option Text) → AtMost max_error_name_length (named parse_url trim o)
  named-AtMost none = tt
  named-AtMost (some t) = non_empty-AtMost _ _ (bounded_text-le t max_error_name_length)

  abbrev ErrorIsBounded : NormalizedError → Type 0
  ErrorIsBounded e =
      IsMessage e.message × AtMost max_error_name_length e.name × StackIsBounded e.stack

  normalize_error_value-IsBounded :
      (value : ErrorValue) (fallback : Text)
      → IsMessage fallback
      → ErrorIsBounded (normalize_error_value parse_url trim value fallback)
  unfolding normalize_error_value
  normalize_error_value-IsBounded (primitive printed) fallback h =
      (or_text-IsMessage _ fallback (bounded-AtMost _ printed) h, tt, tt)
  normalize_error_value-IsBounded (object message name stack) fallback h = (
    or_text-IsMessage _ fallback (bounded-AtMost _ message) h,
    named-AtMost name,
    stacked-IsBounded stack,
  )

  source_of-IsBounded :
      (url : Option Text) (line column : Option ℕ)
      → AtMost max_source_url_length url
      → SourceIsBounded (source_of parse_url trim url line column)
  source_of-IsBounded none none none h = tt
  source_of-IsBounded none none (some c) h = h
  source_of-IsBounded none (some l) column h = h
  source_of-IsBounded (some u) line column h = h

  normalize_source-IsBounded :
      (s : Option ErrorSource) → SourceIsBounded (normalize_source parse_url trim s)
  unfolding normalize_source
  normalize_source-IsBounded none = tt
  normalize_source-IsBounded (some s) =
      source_of-IsBounded _ s.line s.column (source_url-AtMost s.url)

  -- Where the message that comes with a runtime error has no more than 2048 characters, what is captured
  -- of an observation is within the limits of the event schema: a message of 1 to 2048 characters, a
  -- name of at most 256, at most 50 frames with file names of at most 2048 and functions of at most 512,
  -- and a source of at most 2048.
  pub payload_from_observation-IsBounded :
      (observation : ErrorObservation)
      → HasShortMessage observation
      → IsBounded (payload_from_observation parse_url trim observation)
  unfolding payload_from_observation
  payload_from_observation-IsBounded (of_runtime value message source) h =
      let (m, n, s) =
        normalize_error_value-IsBounded value (or_text message (text "Uncaught runtime error"))
          (or_text-IsMessage message _ h (omega arith, omega arith)) in
      (m, n, s, normalize_source-IsBounded source)
  payload_from_observation-IsBounded (of_promise value) h =
      let (m, n, s) =
        normalize_error_value-IsBounded value (text "Unhandled promise rejection")
          (omega arith, omega arith) in
      (m, n, s, tt)
  payload_from_observation-IsBounded (of_resource url tag) h = (
    tag_part-IsMessage tag,
    omega arith,
    tt,
    source_of-IsBounded _ none none (source_url-AtMost url),
  )
