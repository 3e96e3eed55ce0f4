-- ===== src/Base/Text.antt =====
-- Text as the program measures and tests it: code points, UTF-16 length, UTF-8 bytes.
use Prim.Native.Nat.{ℕ, ◌+◌}
use Prim.Native.Char.{code}
use Prim.Native.String.{String}
use mathlib.Core.Bool.{Bool, true, false, ◌&&◌, ◌||◌, not}
use mathlib.Core.List.{List, [], ◌∷◌, ◌++◌}
use herdr_tools.Base.Tests.{leb, ltb, eqb, if◌then◌else◌}
use herdr_tools.Base.Lists.{all, length}

abbrev pub codes : String → List ℕ
codes String.[] = []
codes (String.◌∷◌ c s) = code c ∷ codes s

-- `value.length`: a code point above the basic plane takes two UTF-16 units.
abbrev utf16_units : ℕ → ℕ
utf16_units c = if ltb c 0x10000 then 1 else 2

abbrev utf16_length_of : List ℕ → ℕ
utf16_length_of [] = 0
utf16_length_of (c ∷ cs) = utf16_units c + utf16_length_of cs

unfoldable pub utf16_length : String → ℕ
utf16_length s = utf16_length_of (codes s)

-- `Buffer.byteLength(value, "utf8")`.
abbrev utf8_units : ℕ → ℕ
utf8_units c = if ltb c 0x80 then 1 else if ltb c 0x800 then 2 else if ltb c 0x10000 then 3 else 4

abbrev byte_length_of : List ℕ → ℕ
byte_length_of [] = 0
byte_length_of (c ∷ cs) = utf8_units c + byte_length_of cs

unfoldable pub byte_length : String → ℕ
byte_length s = byte_length_of (codes s)

abbrev pub between : ℕ → ℕ → ℕ → Bool
between lo hi c = leb lo c && leb c hi

abbrev pub is_digit : ℕ → Bool
is_digit c = between 48 57 c

abbrev pub is_lower : ℕ → Bool
is_lower c = between 97 122 c

abbrev pub is_upper : ℕ → Bool
is_upper c = between 65 90 c

-- `[0-9a-f]`.
abbrev pub is_hex : ℕ → Bool
is_hex c = is_digit c || between 97 102 c

-- `[\0\r\n]`.
abbrev pub is_break : ℕ → Bool
is_break c = eqb c 0 || (eqb c 10 || eqb c 13)

-- `/^[0-9a-f]{64}$/`.
unfoldable pub is_sha256_hex : String → Bool
is_sha256_hex s = eqb (length (codes s)) 64 && all is_hex (codes s)

-- A nonempty string with no NUL, carriage return or line feed.
unfoldable pub is_identifier : String → Bool
is_identifier s = not (eqb (length (codes s)) 0) && all (λ c. not (is_break c)) (codes s)

-- `a < b` on texts of the basic plane, code unit by code unit.
abbrev codes_before : List ℕ → List ℕ → Bool
codes_before cs [] = false
codes_before [] (d ∷ ds) = true
codes_before (c ∷ cs) (d ∷ ds) =
    let rest = codes_before cs ds in if ltb c d then true else if eqb c d then rest else false

unfoldable pub text_before : String → String → Bool
text_before s t = codes_before (codes s) (codes t)

-- The order of the files `<name>.json` of two names.
unfoldable pub file_before : String → String → Bool
file_before s t = codes_before (codes s ++ codes ".json") (codes t ++ codes ".json")
