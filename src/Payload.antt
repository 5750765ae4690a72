-- ===== src/Payload.antt =====
-- The JSON payload by which the service opens the overlay: HackerTyperModel.js `parsePayload`, and
-- the object that Service.qml `launch` writes. `JSON` and the conversion `String(...)` of values
-- that are no texts belong to the engine and are parameters.
use omarchy_hackertyper.Base.{
  Bool, true, false, not, ◌&&◌, Option, none, some, if◌then◌else◌, Text, codes, text_eq, ◌≡◌,
}
use omarchy_hackertyper.Number.{Number, number_le, number, is_nan}

mutual
  pub data Json : Type 0 where
    null : Json
    bool : Bool → Json
    num : Number → Json
    text : Text → Json
    array : Items → Json
    object : Fields → Json

  pub data Items : Type 0 where
    nil : Items
    cons : Json → Items → Items

  pub data Fields : Type 0 where
    end : Fields
    field : Text → Json → Fields → Fields

-- What the engine provides. `parse` gives `none` where `JSON.parse` throws.
pub record Engine : Type 0 where
  pub parse : Text → Option Json
  pub stringify : Json → Text
  pub to_text : Json → Text

-- `{ sourceId: ..., screenName: ... }`
abbrev pub launch_payload : Text → Text → Json
launch_payload source_id screen_name =
    object (
      field (codes "sourceId") (text source_id) (field (codes "screenName") (text screen_name) end))

-- What the program relies on: a text is its own `String(...)`, and a payload is read back.
pub record IsEngine (e : Engine) : Type 0 where
  pub to_text_text : (t : Text) → e.to_text (text t) ≡ t
  pub parse_stringify :
      (a b : Text) → e.parse (e.stringify (launch_payload a b)) ≡ some (launch_payload a b)
  pub stringify_nonempty :
      (a b : Text) → text_eq (e.stringify (launch_payload a b)) (codes "") ≡ false

-- A property of a value; a missing one is `undefined`, here `none`.
abbrev pub field_of : Fields → Text → Option Json
field_of end key = none
field_of (field k v rest) key = if text_eq k key then some v else field_of rest key

abbrev pub property : Json → Text → Option Json
property (object fields) key = field_of fields key
property _ key = none

-- A value as a condition.
abbrev pub is_truthy : Json → Bool
is_truthy null = false
is_truthy (bool b) = b
is_truthy (num n) = not (is_nan n) && not (number_le n (number 0) && number_le (number 0) n)
is_truthy (text t) = not (text_eq t (codes ""))
is_truthy _ = true

-- `value || ""`, read by `String(...)`.
abbrev pub text_property : Engine → Option Json → Text
text_property e none = codes ""
text_property e (some v) = if is_truthy v then e.to_text v else codes ""

-- `typeof value === "object"`, for a value that is not `null`.
abbrev pub object_or_empty : Json → Json
object_or_empty (array items) = array items
object_or_empty (object fields) = object fields
object_or_empty _ = object end

-- `raw` is empty for `undefined` and `null`.
unfoldable pub parse_payload : Engine → Text → Json
parse_payload e raw =
    let json = if text_eq raw (codes "") then codes "{}" else raw in
    elim (e.parse json) [ none ↦ object end | some v ↦ object_or_empty v ]
