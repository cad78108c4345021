-- ===== src/Examples/Errors.antt =====
-- The theorem on error capture, on a runtime error with a stack of two lines.
use spectro.Prelude.{
  text_eq, arith, ◌≡◌, refl, false, Option, none, some, [], ◌∷◌, ◌++◌, Text, text,
}
use spectro.Protocol.Event.{StackFrame, ErrorSource, ErrorPayload, runtime}
use spectro.Browser.Errors.{
  ErrorObservation, object, of_runtime, payload_from_observation, normalize_error_value,
  normalize_source,
}
use spectro.Browser.Errors.Stack.{
  SourceUrlParts, sanitize_source_url, parse_stack_line, collect_frames, parse_browser_stack,
}
use spectro.Browser.Errors.Bounds.{IsBounded, payload_from_observation-IsBounded}

abbrev parse_url : Text → Option SourceUrlParts
parse_url t = some (record {
  origin = text "https://x";
  protocol = text "https:";
  host = text "x";
  pathname = text "/";
})

abbrev trim : Text → Text
trim t = t

abbrev script : ErrorSource
script = record { url = some (text "/a.js?k=1"); line = some 7; column = none }

abbrev observed : ErrorObservation
observed =
    of_runtime
      (object (some []) (some (text "TypeError"))
        (some (text "TypeError" ++ 10 ∷ text "at go (/b.js#t:12:5)")))
      (some (text "boom")) (some script)

abbrev frame : StackFrame
frame = record {
  filename = some (text "/b.js");
  function = some (text "go ");
  line = some 12;
  column = some 5;
  in_app = none;
}

abbrev captured : ErrorPayload
captured = record {
  mechanism = runtime;
  name = some (text "TypeError");
  message = text "boom";
  stack = some (frame ∷ []);
  fingerprint = none;
  handled = false;
  source = some (record { url = some (text "/a.js"); line = some 7; column = none });
}

payload_from_observation-captured : payload_from_observation parse_url trim observed ≡ captured
unfolding payload_from_observation normalize_error_value normalize_source sanitize_source_url
    parse_browser_stack collect_frames parse_stack_line text_eq
payload_from_observation-captured = refl

payload_from_observation-IsBounded_example :
    IsBounded (payload_from_observation parse_url trim observed)
payload_from_observation-IsBounded_example =
    payload_from_observation-IsBounded parse_url trim observed (omega arith)
