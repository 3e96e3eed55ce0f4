-- ===== src/Availability/Failures.antt =====
-- The class of a launch failure in src/availability.ts.
use herdr_tools.Base.{
  ℕ, Bool, false, ◌||◌, String, ◌==◌, List, [], ◌∷◌, Option, none, some, get_or, if◌then◌else◌,
}
use herdr_tools.Base.Dict.{get}
use herdr_tools.Availability.Codes.{FailureClass, task_failure, failure_class_by_code}

-- The names that every object has from `Object.prototype`: the table answers for them too.
abbrev inherited_names : List String
inherited_names =
    "constructor" ∷ "hasOwnProperty" ∷ "isPrototypeOf" ∷ "propertyIsEnumerable" ∷ "toLocaleString"
    ∷ "toString" ∷ "valueOf" ∷ "__defineGetter__" ∷ "__defineSetter__" ∷ "__lookupGetter__"
    ∷ "__lookupSetter__" ∷ "__proto__" ∷ []

-- What the table gives for a code: a class, what an object inherits under that name, or nothing.
pub data Classified : Type 0 where
  classed : FailureClass → Classified
  inherited : Classified

abbrev is_one_of : String → List String → Bool
is_one_of s [] = false
is_one_of s (x ∷ xs) = x == s || is_one_of s xs

unfoldable pub class_of_code : String → Option Classified
unfolding get failure_class_by_code
class_of_code code = elim (get code failure_class_by_code) [
  | some c ↦ some (classed c)
  | none ↦ if is_one_of code inherited_names then some inherited else none
]

-- The reset signal of a source: absent or null, a text, or a number or date, `none` where it is not
-- finite. Instants are milliseconds from 1970 on.
pub data ResetSignal : Type 0 where
  no_reset : ResetSignal
  reset_text : String → ResetSignal
  reset_instant : Option ℕ → ResetSignal

-- `LaunchFailureSignal`.
pub record Signal : Type 0 where
  pub code : String
  pub cause_code : Option String
  pub retry_not_before : ResetSignal

-- `signalOf`, for a code alone.
abbrev pub signal_of : String → Signal
signal_of code = record { code = code; cause_code = none; retry_not_before = no_reset }

abbrev known_cause : Option String → Option Classified
known_cause none = none
known_cause (some c) = class_of_code c

-- `classifyLaunchFailure`.
unfoldable pub classify_launch_failure : Signal → Classified
unfolding class_of_code
classify_launch_failure s =
    get_or (known_cause s.cause_code) (get_or (class_of_code s.code) (classed task_failure))
