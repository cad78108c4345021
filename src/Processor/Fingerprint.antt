-- ===== src/Processor/Fingerprint.antt =====
-- services/processor/src/fingerprint.ts. The replacements of `normalizeVolatileText` are regular
-- expressions with Unicode classes, which a parameter stands for.
use spectro.Prelude.{
  ◌≡◌, refl, ap, ◌∙◌, ℕ, zero, suc, Bool, false, Option, none, some, List, [], ◌∷◌, ◌++◌, map,
  arith, take, ltb, ◌==◌, ◌||◌, if◌then◌else◌, length, filter, or_else, Text, text, Bool-cases, inl,
  inr,
}
use spectro.Protocol.Event.{StackFrame, ErrorPayload}
use spectro.Pipeline.{join}

abbrev max_grouping_frames : ℕ
max_grouping_frames = 5

abbrev is_in_app : StackFrame → Bool
is_in_app f = elim f.in_app [ none ↦ false | some b ↦ b ]

unfoldable pub select_grouping_frames : List StackFrame → List StackFrame
select_grouping_frames frames =
    let in_app_frames = filter is_in_app frames in
    take max_grouping_frames (if ltb 0 (length in_app_frames) then in_app_frames else frames)

-- The part before the first `?` or `#`.
abbrev without_query : Text → Text
without_query [] = []
without_query (c ∷ s) =
    let rest = without_query s in if c == b'?' || c == b'#' then [] else c ∷ rest

-- `digest` is SHA-256 in hexadecimal.
module _ (normalize_volatile_text : Text → Text) (digest : Text → Text) where
  abbrev pub normalize_filename : Text → Text
  normalize_filename s = normalize_volatile_text (without_query s)

  abbrev filename_key : Option Text → Text
  filename_key none = []
  filename_key (some s) = normalize_filename s

  abbrev function_key : Option Text → Text
  function_key none = []
  function_key (some s) = normalize_volatile_text s

  unfoldable pub frame_grouping_key : StackFrame → Text
  frame_grouping_key f = filename_key f.filename ++ text ":" ++ function_key f.function

  abbrev hint_key : Option (List Text) → Text
  hint_key none = []
  hint_key (some hints) = join (text "|") (map normalize_volatile_text hints)

  abbrev grouping_key : Text → ErrorPayload → Text
  grouping_key [] p = join (text "|") (
      normalize_volatile_text (or_else p.name (text "error"))
      ∷ normalize_volatile_text p.message
      ∷ map frame_grouping_key (select_grouping_frames (or_else p.stack [])))
  grouping_key (c ∷ s) p = text "hint|" ++ c ∷ s

  unfoldable pub create_error_fingerprint : ErrorPayload → Text
  create_error_fingerprint p =
      take 32 (digest (text "spectro-error-v1|" ++ grouping_key (hint_key p.fingerprint) p))

-- The same frame at another line and column.
abbrev pub moved : (StackFrame → Option ℕ × Option ℕ) → StackFrame → StackFrame
moved at f = record f { line = (at f).0; column = (at f).1 }

abbrev pub moved_stack : (StackFrame → Option ℕ × Option ℕ) → ErrorPayload → ErrorPayload
moved_stack at p = record p {
  stack = elim p.stack [ none ↦ none | some fs ↦ some (map (moved at) fs) ];
}

module _ (at : StackFrame → Option ℕ × Option ℕ) where
  filter-moved :
      (fs : List StackFrame)
      → filter is_in_app (map (moved at) fs) ≡ map (moved at) (filter is_in_app fs)
  filter-moved [] = refl
  filter-moved (f ∷ fs) = elim (Bool-cases (is_in_app f)) [
    | inl e ↦ ground (arith, filter-moved fs)
    | inr e ↦ ground (arith, filter-moved fs)
  ]

  take-moved :
      (n : ℕ) (fs : List StackFrame) → take n (map (moved at) fs) ≡ map (moved at) (take n fs)
  take-moved zero fs = refl
  take-moved (suc n) [] = refl
  take-moved (suc n) (f ∷ fs) = ap (λ xs. moved at f ∷ xs) (take-moved n fs)

  select-moved :
      (fs : List StackFrame)
      → select_grouping_frames (map (moved at) fs) ≡ map (moved at) (select_grouping_frames fs)
  unfolding select_grouping_frames
  select-moved fs =
      ap (take max_grouping_frames) (chosen (filter is_in_app fs) (filter-moved fs))
      ∙ take-moved max_grouping_frames _
    where
      chosen :
          (xs : List StackFrame)
          → filter is_in_app (map (moved at) fs) ≡ map (moved at) xs
          → (if ltb 0 (length (filter is_in_app (map (moved at) fs)))
              then filter is_in_app (map (moved at) fs)
              else map (moved at) fs)
            ≡ map (moved at) (if ltb 0 (length xs) then xs else fs)
      chosen [] e = rw e refl
      chosen (x ∷ xs) e = rw e (ground arith)

  module _ (normalize_volatile_text : Text → Text) (digest : Text → Text) where
    keys-moved :
        (fs : List StackFrame)
        → map (frame_grouping_key normalize_volatile_text digest) (map (moved at) fs)
          ≡ map (frame_grouping_key normalize_volatile_text digest) fs
    unfolding frame_grouping_key
    keys-moved [] = refl
    keys-moved (f ∷ fs) =
        ap (λ xs. frame_grouping_key normalize_volatile_text digest f ∷ xs) (keys-moved fs)

    -- The fingerprint of an error does not depend on the lines and columns of its stack frames.
    pub create_error_fingerprint-moved :
        (p : ErrorPayload)
        → create_error_fingerprint normalize_volatile_text digest (moved_stack at p)
          ≡ create_error_fingerprint normalize_volatile_text digest p
    unfolding create_error_fingerprint
    create_error_fingerprint-moved p =
        ap (λ key. take 32 (digest (text "spectro-error-v1|" ++ key)))
          (same (hint_key normalize_volatile_text digest p.fingerprint))
      where
        frames :
            (o : Option (List StackFrame))
            → map (frame_grouping_key normalize_volatile_text digest) (
                select_grouping_frames
                  (or_else (elim o [ none ↦ none | some fs ↦ some (map (moved at) fs) ]) []))
              ≡ map
                  (frame_grouping_key normalize_volatile_text digest)
                  (select_grouping_frames (or_else o []))
        frames none = refl
        frames (some fs) =
            ap (map (frame_grouping_key normalize_volatile_text digest)) (select-moved fs)
            ∙ keys-moved (select_grouping_frames fs)

        same :
            (hint : Text)
            → grouping_key normalize_volatile_text digest hint (moved_stack at p)
              ≡ grouping_key normalize_volatile_text digest hint p
        same [] =
            ap
              (λ ks. join (text "|") (
                normalize_volatile_text (or_else p.name (text "error"))
                ∷ normalize_volatile_text p.message
                ∷ ks))
              (frames p.stack)
        same (c ∷ s) = refl
