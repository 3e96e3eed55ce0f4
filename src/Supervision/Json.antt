-- ===== src/Supervision/Json.antt =====
-- Parsed JSON as the checks of src/supervision and src/availability.ts read it: their field readers, where none
-- is a throw.
use herdr_tools.Base.{ℕ, Bool, String, ◌==◌, Option, none, some, leb, is_identifier, if◌then◌else◌}

-- A natural number, a negative integer by its distance to -1, any other number, and arrays, whose
-- items are never read.
mutual
  pub data Json : Type 0 where
    null : Json
    boolean : Bool → Json
    natural : ℕ → Json
    negative : ℕ → Json
    fraction : Json
    text : String → Json
    array : Json
    object : Fields → Json

  pub data Fields : Type 0 where
    no_fields : Fields
    field : String → Json → Fields → Fields

-- The value of an own property, the last one of a name that is given twice.
unfoldable pub lookup : String → Fields → Option Json
lookup k no_fields = none
lookup k (field j v fs) = elim (lookup k fs) [
  | some w ↦ some w
  | none ↦ if j == k then some v else none
]

abbrev pub max_safe : ℕ
max_safe = 9007199254740991

-- `requiredString`.
unfoldable pub required_string : Option Json → Option String
unfolding is_identifier
required_string (some (text s)) = if is_identifier s then some s else none
required_string _ = none

-- `optionalString`: the outer none is a throw, the inner one an absent field.
unfoldable pub optional_string : Option Json → Option (Option String)
unfolding is_identifier
optional_string none = some none
optional_string (some null) = some none
optional_string (some (text s)) = if is_identifier s then some (some s) else none
optional_string (some _) = none

-- `requiredCounter`.
unfoldable pub required_counter : Option Json → Option ℕ
required_counter (some (natural n)) = if leb n max_safe then some n else none
required_counter _ = none

unfoldable pub optional_counter : Option Json → Option (Option ℕ)
optional_counter none = some none
optional_counter (some null) = some none
optional_counter (some (natural n)) = if leb n max_safe then some (some n) else none
optional_counter (some _) = none
