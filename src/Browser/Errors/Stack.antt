-- ===== src/Browser/Errors/Stack.antt =====
-- The stacks of packages/browser/src/error.ts: sanitizeSourceUrl, parseStackLine, parseBrowserStack. The
-- URL parser and trim are parameters.
use spectro.Prelude.{
  ℕ, zero, suc, ◌+◌, ◌-◌, ◌*◌, Bool, ◌&&◌, ◌||◌, Option, none, some, List, [], ◌∷◌, ◌++◌, reverse,
  leb, ◌==◌, if◌then◌else◌, take, drop, Text, text, text_eq,
}
use spectro.Protocol.Event.{StackFrame}

abbrev pub max_function_length : ℕ
max_function_length = 512

abbrev pub max_source_url_length : ℕ
max_source_url_length = 2048

abbrev pub max_stack_frames : ℕ
max_stack_frames = 50

abbrev pub max_stack_input_length : ℕ
max_stack_input_length = 65536

abbrev max_safe_integer : ℕ
max_safe_integer = 9007199254740991

-- The parts of a `URL` that the code reads.
pub record SourceUrlParts : Type 0 where
  pub origin : Text
  pub protocol : Text
  pub host : Text
  pub pathname : Text

-- `trimmed.split(/[?#]/u, 1)[0]`
abbrev pub before_suffix : Text → Text
before_suffix [] = []
before_suffix (c ∷ cs) =
    let rest = before_suffix cs in if c == b'?' || c == b'#' then [] else c ∷ rest

abbrev is_digit : ℕ → Bool
is_digit c = leb b'0' c && leb c b'9'

-- The digits with which a text starts, and the rest.
abbrev pub span_digits : Text → Text × Text
span_digits [] = ([], [])
span_digits (c ∷ cs) =
    let rest = span_digits cs in if is_digit c then (c ∷ rest.0, rest.1) else ([], c ∷ cs)

-- The value of digits of which the last is the first.
abbrev pub digits_value : Text → ℕ
digits_value [] = 0
digits_value (c ∷ cs) = (c - b'0') + 10 * digits_value cs

-- A colon and at least one digit at the end of a text, here its reverse: the number, and the text before.
abbrev pub after_digits : Text × Text → Option (ℕ × Text)
after_digits ([], rest) = none
after_digits (d ∷ ds, []) = none
after_digits (d ∷ ds, c ∷ rest) =
    if c == b':' && leb (digits_value (d ∷ ds)) max_safe_integer
    then some (digits_value (d ∷ ds), rest)
    else none

abbrev pub number_at_end : Text → Option (ℕ × Text)
number_at_end t = after_digits (span_digits t)

abbrev pub strip_parenthesis : Text → Text
strip_parenthesis [] = []
strip_parenthesis (c ∷ cs) = if c == b')' then cs else c ∷ cs

abbrev pub line_and_column : Option (ℕ × Text) → Option (ℕ × ℕ × Text)
line_and_column none = none
line_and_column (some (column, rest)) = elim (number_at_end rest) [
  | none ↦ none
  | some r ↦ some (r.0, column, reverse r.1)
]

-- `/:(\d+):(\d+)\)?$/u` on a line, where both numbers are safe integers: the line, the column and the
-- text before the match.
abbrev pub location : Text → Option (ℕ × ℕ × Text)
location line = line_and_column (number_at_end (strip_parenthesis (reverse line)))

-- The texts before and after the last `c`.
abbrev pub split_last : (c : ℕ) → Text → Option (Text × Text)
split_last c [] = none
split_last c (d ∷ ds) = elim (split_last c ds) [
  | some r ↦ some (d ∷ r.0, r.1)
  | none ↦ if d == c then some ([], ds) else none
]

-- `split('\n')`
abbrev pub add_to_first : ℕ → List Text → List Text
add_to_first c [] = (c ∷ []) ∷ []
add_to_first c (l ∷ ls) = (c ∷ l) ∷ ls

abbrev pub lines : Text → List Text
lines [] = [] ∷ []
lines (c ∷ cs) = let rest = lines cs in if c == 10 then [] ∷ rest else add_to_first c rest

abbrev pub non_empty : Text → Option Text
non_empty [] = none
non_empty (c ∷ cs) = some (c ∷ cs)

module _ (parse_url : Text → Option SourceUrlParts) (trim : Text → Text) where
  abbrev pub bounded_text : Text → (maximum : ℕ) → Text
  bounded_text value maximum = take maximum (trim value)

  abbrev pub sanitized_source : Option SourceUrlParts → Option Text
  sanitized_source none = none
  sanitized_source (some u) =
      if text_eq u.protocol (text "http:") || text_eq u.protocol (text "https:")
      then some (take max_source_url_length (u.origin ++ u.pathname))
      else if text_eq u.protocol (text "file:") || text_eq u.protocol (text "webpack:")
      then some (take max_source_url_length (u.protocol ++ text "//" ++ u.host ++ u.pathname))
      else none

  abbrev pub sanitize_trimmed : Text → Option Text
  sanitize_trimmed [] = none
  sanitize_trimmed (c ∷ cs) =
      if c == b'/'
      then some (take max_source_url_length (before_suffix (c ∷ cs)))
      else sanitized_source (parse_url (c ∷ cs))

  unfoldable pub sanitize_source_url : Text → Option Text
  sanitize_source_url raw = sanitize_trimmed (trim raw)

  -- The function before a separator and the file name after it, where the separator is there.
  abbrev pub parts_at : Option (Text × Text) → (otherwise : Option Text × Text) → Option Text × Text
  parts_at none otherwise = otherwise
  parts_at (some (before, after)) otherwise =
      (some (bounded_text before max_function_length), after)

  -- The function and the file name of a head.
  abbrev pub head_parts : Text → Option Text × Text
  head_parts head = parts_at (split_last b'(' head) (parts_at (split_last b'@' head) (none, head))

  abbrev pub without_at : Text → Text
  without_at head = if text_eq (take 3 head) (text "at ") then trim (drop 3 head) else head

  abbrev pub function_name : Option Text → Option Text
  function_name none = none
  function_name (some t) = non_empty t

  abbrev pub frame_at : (filename function : Option Text) → (line column : ℕ) → Option StackFrame
  frame_at none function line column = none
  frame_at (some filename) function line column = some (record {
    filename = some filename;
    function = function_name function;
    line = some line;
    column = some column;
    in_app = none;
  })

  abbrev pub frame_of : Option (ℕ × ℕ × Text) → Option StackFrame
  frame_of none = none
  frame_of (some (line, column, before)) =
      let parts = head_parts (without_at (trim before)) in
      frame_at (sanitize_source_url parts.1) parts.0 line column

  unfoldable pub parse_stack_line : Text → Option StackFrame
  parse_stack_line raw = frame_of (location (trim raw))

  -- The loop over the lines: at most `room` frames more.
  unfoldable pub collect_frames : (room : ℕ) → List Text → List StackFrame
  collect_frames zero ls = []
  collect_frames (suc room) [] = []
  collect_frames (suc room) (l ∷ ls) = elim (parse_stack_line l) [
    | some f ↦ f ∷ collect_frames room ls
    | none ↦ collect_frames (suc room) ls
  ]

  abbrev pub some_frames : List StackFrame → Option (List StackFrame)
  some_frames [] = none
  some_frames (f ∷ fs) = some (f ∷ fs)

  unfoldable pub parse_browser_stack : Text → Option (List StackFrame)
  parse_browser_stack stack =
      some_frames (collect_frames max_stack_frames (lines (take max_stack_input_length stack)))
