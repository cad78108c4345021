-- ===== src/Browser/Targets.antt =====
-- packages/browser/src/monitor-target.ts: the monitored element of an event. An element is a number, and
-- `dom` reads its attributes; an attribute or a property is `none` where it is absent, no string, or its
-- reading throws. The lower case and trim are parameters.
pub mod Laws
use spectro.Prelude.{
  ℕ, zero, suc, Bool, true, false, ◌&&◌, ◌||◌, Option, none, some, List, [], ◌∷◌, leb, ◌==◌,
  if◌then◌else◌, take, length, Text, has,
}

abbrev pub max_target_depth : ℕ
max_target_depth = 20

pub record MonitoredTarget : Type 0 where
  pub monitor_id : Text
  pub tag : Option Text
  pub role : Option Text

pub record Element : Type 0 where
  pub monitor_attribute : Option Text
  pub tag_name : Option Text
  pub role_attribute : Option Text
  pub parent_element : Option ℕ

-- An entry of the path or a target is `none` where it is no object.
pub record TargetEvent : Type 0 where
  pub composed_path : List (Option ℕ)
  pub target : Option ℕ

abbrev is_lower : ℕ → Bool
is_lower c = leb b'a' c && leb c b'z'

abbrev pub is_token_char : ℕ → Bool
is_token_char c = is_lower c || (leb b'0' c && leb c b'9') || c == b'_' || c == b'-'

abbrev pub is_id_char : ℕ → Bool
is_id_char c = is_token_char c || (leb b'A' c && leb c b'Z')

abbrev pub every : (ℕ → Bool) → Text → Bool
every p [] = true
every p (c ∷ cs) = p c && every p cs

-- `/^[A-Za-z0-9_-]{1,120}$/`
abbrev pub is_monitor_id : Text → Bool
is_monitor_id t = leb 1 (length t) && leb (length t) 120 && every is_id_char t

-- `/^[a-z][a-z0-9_-]{0,63}$/`
abbrev pub is_target_token : Text → Bool
is_target_token [] = false
is_target_token (c ∷ cs) = is_lower c && leb (length cs) 63 && every is_token_char cs

abbrev pub sanitize_monitor_id : Option Text → Option Text
sanitize_monitor_id none = none
sanitize_monitor_id (some t) = if is_monitor_id t then some t else none

module _ (trim lower : Text → Text) where
  abbrev pub sanitize_target_token : Option Text → Option Text
  sanitize_target_token none = none
  sanitize_target_token (some t) =
      if leb (length t) 64 && is_target_token (lower (trim t)) then some (lower (trim t)) else none

  abbrev pub identified_target : Element → Option Text → Option MonitoredTarget
  identified_target e none = none
  identified_target e (some monitor_id) = some (record {
    monitor_id = monitor_id;
    tag = sanitize_target_token e.tag_name;
    role = sanitize_target_token e.role_attribute;
  })

  abbrev pub create_monitored_target : Element → Option MonitoredTarget
  create_monitored_target e = identified_target e (sanitize_monitor_id e.monitor_attribute)

  module _ (dom : ℕ → Element) where
    -- The first monitored element of the path.
    abbrev pub find_on_path : List (Option ℕ) → Option MonitoredTarget
    find_on_path [] = none
    find_on_path (none ∷ nodes) = find_on_path nodes
    find_on_path (some n ∷ nodes) = elim (create_monitored_target (dom n)) [
      | some t ↦ some t
      | none ↦ find_on_path nodes
    ]

    -- The loop over the element and its parents, at most `depth` of them, none of them twice.
    unfoldable pub find_above : (depth : ℕ) → (visited : List ℕ) → Option ℕ → Option MonitoredTarget
    find_above zero visited at = none
    find_above (suc depth) visited none = none
    find_above (suc depth) visited (some n) = elim (has n visited) [
      | true ↦ none
      | false ↦ elim (create_monitored_target (dom n)) [
        | some t ↦ some t
        | none ↦ find_above depth (n ∷ visited) (dom n).parent_element
      ]
    ]

    unfoldable pub find_monitored_target : TargetEvent → Option MonitoredTarget
    find_monitored_target e = elim (find_on_path (take max_target_depth e.composed_path)) [
      | some t ↦ some t
      | none ↦ find_above max_target_depth [] e.target
    ]
