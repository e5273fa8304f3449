-- ===== src/Event.antt =====
-- `NormalizedEvent` of backend/app/schemas.py and the values in its `data`.
use whs_dynamic.Base.{
  ℕ, zero, suc, List, [], ◌∷◌, Option, none, some, Bool, true, false, Text, String, ◌==◌, nat_eq,
  list_eq, if◌then◌else◌,
}

-- The kinds of values that the collectors put into `data`.
pub data Value : Type 0 where
  null : Value
  boolean : Bool → Value
  number : ℕ → Value
  text : Text → Value
  texts : List Text → Value

-- A dictionary with its keys in order.
abbrev pub Data : Type 0
Data = List (Text × Value)

-- `data.get(key)`
unfoldable pub get_key : Text → Data → Option Value
get_key key [] = none
get_key key ((k, v) ∷ data') = if key == k then some v else get_key key data'

-- `bool(value)`
unfoldable pub truthy : Value → Bool
truthy null = false
truthy (boolean b) = b
truthy (number zero) = false
truthy (number (suc n)) = true
truthy (text []) = false
truthy (text (c ∷ s)) = true
truthy (texts []) = false
truthy (texts (t ∷ ts)) = true

pub record Event : Type 0 where
  pub timestamp : Text
  pub source : String
  pub category : String
  pub event_type : String
  pub stage : String
  pub pid : Option ℕ
  pub ppid : Option ℕ
  pub payload : Data
