-- ===== src/Base/Joined.antt =====
-- Texts joined by a NUL, as the source keys its sets.
use Prim.Native.String.{String, ◌++◌, [], ◌∷◌}
use Prim.Native.Char.{nul}

unfoldable pub nul_joined : String → String → String
nul_joined a b = a ++ ((nul ∷ []) ++ b)

-- `a + b` on texts.
unfoldable pub text_append : String → String → String
text_append a b = a ++ b
