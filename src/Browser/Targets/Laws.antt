-- ===== src/Browser/Targets/Laws.antt =====
-- What packages/browser/src/monitor-target.ts reads of a page.
use spectro.Prelude.{
  ℕ, zero, suc, ◌≡◌, refl, Bool, true, false, ◌&&◌, Option, none, some, List, [], ◌∷◌, leb,
  if◌then◌else◌, take, length, Text, subst, has, ◌≤◌, ◌⊎◌, inl, All, arith,
}
use spectro.Browser.Targets.{
  MonitoredTarget, Element, TargetEvent, is_monitor_id, is_target_token, sanitize_monitor_id,
  sanitize_target_token, identified_target, create_monitored_target, find_on_path, find_above,
  find_monitored_target, max_target_depth, every, is_token_char, is_id_char,
}

-- The alphabets, by their character codes.
abbrev pub IsLowerLetter : ℕ → Type 0
IsLowerLetter c = (97 ≤ c) × (c ≤ 122)

abbrev pub IsTokenChar : ℕ → Type 0
IsTokenChar c = IsLowerLetter c ⊎ ((48 ≤ c) × (c ≤ 57)) ⊎ (c ≡ 95) ⊎ (c ≡ 45)

abbrev pub IsIdentifierChar : ℕ → Type 0
IsIdentifierChar c = IsTokenChar c ⊎ ((65 ≤ c) × (c ≤ 90))

abbrev pub IsIdentifier : Text → Type 0
IsIdentifier t = (1 ≤ length t) × (length t ≤ 120) × All IsIdentifierChar t

abbrev pub StartsLower : Text → Type 0
StartsLower [] = ⊥
StartsLower (c ∷ cs) = IsLowerLetter c

abbrev pub IsToken : Option Text → Type 0
IsToken none = Unit
IsToken (some t) = StartsLower t × (length t ≤ 64) × All IsTokenChar t

abbrev pub IsSafe : MonitoredTarget → Type 0
IsSafe t = IsIdentifier t.monitor_id × IsToken t.tag × IsToken t.role

every-All :
    (p : ℕ → Bool) (P : ℕ → Type 0)
    → ((c : ℕ) → p c ≡ true → P c)
    → (t : Text) → every p t ≡ true
    → All P t
every-All p P f [] h = tt
every-All p P f (c ∷ cs) h = (f c (ground arith), every-All p P f cs (ground arith))

is_token_char-IsTokenChar : (c : ℕ) → is_token_char c ≡ true → IsTokenChar c
is_token_char-IsTokenChar c h = ground arith

is_id_char-IsIdentifierChar : (c : ℕ) → is_id_char c ≡ true → IsIdentifierChar c
is_id_char-IsIdentifierChar c h = ground arith

is_monitor_id-IsIdentifier : (t : Text) → is_monitor_id t ≡ true → IsIdentifier t
is_monitor_id-IsIdentifier t h = (
  ground arith,
  ground arith,
  every-All is_id_char IsIdentifierChar is_id_char-IsIdentifierChar t (ground arith),
)

is_target_token-IsToken : (t : Text) → is_target_token t ≡ true → IsToken (some t)
is_target_token-IsToken [] h = cc
is_target_token-IsToken (c ∷ cs) h = (
  ground arith,
  ground arith,
  (
    inl (ground arith),
    every-All is_token_char IsTokenChar is_token_char-IsTokenChar cs (ground arith),
  ),
)

abbrev MaybeSafe : Option MonitoredTarget → Type 0
MaybeSafe none = Unit
MaybeSafe (some t) = IsSafe t

abbrev HasId : Option Text → Type 0
HasId none = Unit
HasId (some t) = IsIdentifier t

if-HasId : (t : Text) (b : Bool) → is_monitor_id t ≡ b → HasId (if b then some t else none)
if-HasId t true h = is_monitor_id-IsIdentifier t h
if-HasId t false h = tt

sanitize_monitor_id-HasId : (o : Option Text) → HasId (sanitize_monitor_id o)
sanitize_monitor_id-HasId none = tt
sanitize_monitor_id-HasId (some t) = if-HasId t (is_monitor_id t) refl

if-IsToken :
    (t : Text) (b c : Bool) → is_target_token t ≡ c → IsToken (if b && c then some t else none)
if-IsToken t true true h = is_target_token-IsToken t h
if-IsToken t true false h = tt
if-IsToken t false c h = tt

or_else-MaybeSafe :
    (o p : Option MonitoredTarget)
    → MaybeSafe o
    → MaybeSafe p
    → MaybeSafe (elim o [ some t ↦ some t | none ↦ p ])
or_else-MaybeSafe none p h k = k
or_else-MaybeSafe (some t) p h k = h

unless-MaybeSafe :
    (b : Bool) (o : Option MonitoredTarget)
    → MaybeSafe o
    → MaybeSafe (elim b [ true ↦ none | false ↦ o ])
unless-MaybeSafe true o h = tt
unless-MaybeSafe false o h = h

module _ (trim lower : Text → Text) where
  sanitize_target_token-IsToken : (o : Option Text) → IsToken (sanitize_target_token trim lower o)
  sanitize_target_token-IsToken none = tt
  sanitize_target_token-IsToken (some t) = if-IsToken (lower (trim t)) (leb (length t) 64) _ refl

  identified_target-MaybeSafe :
      (e : Element) (o : Option Text) → HasId o → MaybeSafe (identified_target trim lower e o)
  identified_target-MaybeSafe e none h = tt
  identified_target-MaybeSafe e (some t) h =
      (h, sanitize_target_token-IsToken e.tag_name, sanitize_target_token-IsToken e.role_attribute)

  create_monitored_target-MaybeSafe :
      (e : Element) → MaybeSafe (create_monitored_target trim lower e)
  create_monitored_target-MaybeSafe e =
      identified_target-MaybeSafe e _ (sanitize_monitor_id-HasId e.monitor_attribute)

  module _ (dom : ℕ → Element) where
    find_on_path-MaybeSafe :
        (nodes : List (Option ℕ)) → MaybeSafe (find_on_path trim lower dom nodes)
    find_on_path-MaybeSafe [] = tt
    find_on_path-MaybeSafe (none ∷ nodes) = find_on_path-MaybeSafe nodes
    find_on_path-MaybeSafe (some n ∷ nodes) =
        or_else-MaybeSafe _ _ (create_monitored_target-MaybeSafe (dom n))
          (find_on_path-MaybeSafe nodes)

    find_above-MaybeSafe :
        (depth : ℕ) (visited : List ℕ) (at : Option ℕ)
        → MaybeSafe (find_above trim lower dom depth visited at)
    unfolding find_above
    find_above-MaybeSafe zero visited at = tt
    find_above-MaybeSafe (suc depth) visited none = tt
    find_above-MaybeSafe (suc depth) visited (some n) = unless-MaybeSafe (has n visited) _ (
        or_else-MaybeSafe (create_monitored_target trim lower (dom n)) _
          (create_monitored_target-MaybeSafe (dom n))
          (find_above-MaybeSafe depth (n ∷ visited) (dom n).parent_element))

    found-MaybeSafe : (e : TargetEvent) → MaybeSafe (find_monitored_target trim lower dom e)
    unfolding find_monitored_target
    found-MaybeSafe e =
        or_else-MaybeSafe _ _ (find_on_path-MaybeSafe (take max_target_depth e.composed_path))
          (find_above-MaybeSafe max_target_depth [] e.target)

    -- A target that is found for an event is identified by 1 to 120 letters, digits, underscores and
    -- hyphens, and its tag and role, where it has them, are at most 64 lower-case letters, digits,
    -- underscores and hyphens, the first of them a letter.
    pub find_monitored_target-IsSafe :
        (e : TargetEvent) (t : MonitoredTarget)
        → find_monitored_target trim lower dom e ≡ some t
        → IsSafe t
    find_monitored_target-IsSafe e t h = subst MaybeSafe h (found-MaybeSafe e)
