-- ===== src/Core/Normalize.antt =====
-- packages/core/src/normalize.ts: custom properties and tags as JSON values. JavaScript's objects
-- are addresses into a heap, so that shared and cyclic objects are values of the model.
pub mod Bounds
use spectro.Prelude.{
  ◌≡◌, refl, ℕ, zero, suc, Bool, true, false, not, ◌&&◌, ◌||◌, Option, none, some, List, [], ◌∷◌,
  leb, if◌then◌else◌, any, take, filter, has, map, Text, text, text_eq,
}
pub use spectro.Prelude.{Either, ok, err, ◌>>=◌, >>=-eq-ok}
use spectro.Protocol.Json.{Json, Items, Fields}

pub data Value : Type 0 where
  null : Value
  bool : Bool → Value
  str : Text → Value
  -- a finite number, as the text that `JSON.stringify` prints
  num : Text → Value
  not_finite : Value
  -- undefined, a function, a symbol or a bigint
  unsupported : Value
  ref : ℕ → Value

pub data Object : Type 0 where
  date : Object
  arr : List Value → Object
  -- the own enumerable entries, in the order of `Object.entries`
  obj : List (Text × Value) → Object

abbrev pub Heap : Type 0
Heap = ℕ → Object

pub data ValidationError : Type 0 where
  too_deep number_not_finite unsupported_value date_instance cyclic not_an_object : ValidationError

abbrev pub Result {ℓ} : Type ℓ → Type ℓ
Result A = Either ValidationError A

abbrev pub max_json_depth : ℕ
max_json_depth = 5

abbrev pub max_array_items : ℕ
max_array_items = 100

abbrev pub max_object_keys : ℕ
max_object_keys = 100

abbrev pub max_string_length : ℕ
max_string_length = 2048

-- `/[a-z0-9]/`
abbrev is_kept : ℕ → Bool
is_kept c = (leb b'a' c && leb c b'z') || (leb b'0' c && leb c b'9')

abbrev is_prefix : Text → Text → Bool
is_prefix [] t = true
is_prefix (a ∷ s) [] = false
is_prefix (a ∷ s) (b ∷ t) = text_eq (a ∷ []) (b ∷ []) && is_prefix s t

-- `t.includes(s)`
unfoldable pub includes : Text → Text → Bool
includes s [] = is_prefix s []
includes s (c ∷ t) = is_prefix s (c ∷ t) || includes s t

abbrev sensitive_keys : List Text
sensitive_keys = text "body" ∷ text "input" ∷ text "payload" ∷ []

abbrev sensitive_fragments : List Text
sensitive_fragments =
    text "apikey"
    ∷ text "authtoken"
    ∷ text "authheader"
    ∷ text "authorization"
    ∷ text "cookie"
    ∷ text "inputvalue"
    ∷ text "password"
    ∷ text "passwd"
    ∷ text "requestbody"
    ∷ text "requestpayload"
    ∷ text "responsebody"
    ∷ text "responsepayload"
    ∷ text "secret"
    ∷ text "setcookie"
    ∷ []

-- `output[key] = value`: a key that is there keeps its place. An assignment to `__proto__` makes no
-- property.
abbrev pub put : Text → Json → Fields → Fields
put k v Fields.end = Fields.field k v Fields.end
put k v (Fields.field j w fs) =
    let rest = put k v fs in if text_eq j k then Fields.field j v fs else Fields.field j w rest

unfoldable pub assign : Text → Json → Fields → Fields
assign k v fs = if text_eq k (text "__proto__") then fs else put k v fs

abbrev put_tag : Text × Text → List (Text × Text) → List (Text × Text)
put_tag (k, v) [] = (k, v) ∷ []
put_tag (k, v) ((j, w) ∷ tags) =
    let rest = put_tag (k, v) tags in if text_eq j k then (j, v) ∷ tags else (j, w) ∷ rest

abbrev from_entries : List (Text × Text) → List (Text × Text) → List (Text × Text)
from_entries tags [] = tags
from_entries tags (t ∷ ts) = from_entries (put_tag t tags) ts

abbrev pub each : (Value → Result Json) → List Value → Result Items
each f [] = ok Items.nil
each f (v ∷ vs) = do j ← f v; js ← each f vs; ok (Items.cons j js)

abbrev pub as_fields : Json → Result Fields
as_fields (Json.obj fs) = ok fs
as_fields _ = err not_an_object

-- `lower` is `String.prototype.toLowerCase`.
module _ (lower : Text → Text) where
  unfoldable pub is_sensitive_property_key : Text → Bool
  is_sensitive_property_key key =
      let normalized = filter is_kept (lower key) in
      any (text_eq normalized) sensitive_keys
      || any (λ f. includes f normalized) sensitive_fragments

  -- The loop over the entries.
  unfoldable pub assign_entries :
      (Value → Result Json) → List (Text × Value) → Fields → Result Fields
  assign_entries f [] output = ok output
  assign_entries f ((key, item) ∷ entries) output = elim (is_sensitive_property_key key) [
    | true ↦ assign_entries f entries output
    | false ↦ do j ← f item; assign_entries f entries (assign (take 128 key) j output)
  ]

  module _ (heap : Heap) where
    -- `left` is `MAX_JSON_DEPTH + 1 - depth`; `seen` holds the objects that enclose the value.
    unfoldable pub normalize : (left : ℕ) → Value → (seen : List ℕ) → Result Json
    normalize zero value seen = err too_deep
    normalize (suc left) null seen = ok Json.null
    normalize (suc left) (bool b) seen = ok (Json.bool b)
    normalize (suc left) (str s) seen = ok (Json.str (take max_string_length s))
    normalize (suc left) (num n) seen = ok (Json.num n)
    normalize (suc left) not_finite seen = err number_not_finite
    normalize (suc left) unsupported seen = err unsupported_value
    normalize (suc left) (ref a) seen = elim (heap a) [
      | date ↦ err date_instance
      | arr items ↦ elim (has a seen) [
        | true ↦ err cyclic
        | false ↦ do
          js ← each (λ v. normalize left v (a ∷ seen)) (take max_array_items items)
          ok (Json.arr js)
      ]
      | obj entries ↦ elim (has a seen) [
        | true ↦ err cyclic
        | false ↦ do
          fs ←
              assign_entries (λ v. normalize left v (a ∷ seen)) (take max_object_keys entries)
                Fields.end
          ok (Json.obj fs)
      ]
    ]

    -- The cast to `JSONObject` is a check here: the schema refuses any other value.
    unfoldable pub normalize_properties : Value → Result Fields
    normalize_properties properties = do
      j ← normalize (suc max_json_depth) properties []
      as_fields j

  -- `Object.fromEntries`, where a later entry of the same key replaces the value.
  unfoldable pub normalize_tags : List (Text × Text) → List (Text × Text)
  normalize_tags tags = from_entries [] (
      map (λ t. (take 64 t.0, take 256 t.1))
        (take 50 (filter (λ t. not (is_sensitive_property_key t.0)) tags)))
