-- ===== src/Prelude/Texts.antt =====
-- The texts that the program builds and cuts.
use Prim.Native.Nat.{ℕ, zero, suc}
use Prim.Native.Char.{code}
use Prim.Native.String
use Prim.Native.String.{String}
use mathlib.Core.List.{List, [], ◌∷◌}
use mathlib.Core.Bool.{Bool, ◌||◌}
use text.Mathlib.Text.{starts_with}
use mathlib.Core.Option.{Option, none, some}

-- `s[:n]`
abbrev pub prefix : ℕ → String → String
prefix zero s = ""
prefix (suc n) String.[] = ""
prefix (suc n) (String.◌∷◌ c s) = String.◌∷◌ c (prefix n s)

-- An f-string, as the list of its parts.
abbrev pub concat : List String → String
concat [] = ""
concat (s ∷ ss) = String.◌++◌ s (concat ss)

-- `value or default`, of an optional text: the empty one counts as absent.
abbrev pub text_or : Option String → String → String
text_or none default = default
text_or (some String.[]) default = default
text_or (some (String.◌∷◌ c s)) default = String.◌∷◌ c s

-- `s[n:]`
abbrev pub after : ℕ → String → String
after zero s = s
after (suc n) String.[] = ""
after (suc n) (String.◌∷◌ c s) = after n s

-- The code points of a text.
abbrev pub codes : String → List ℕ
codes String.[] = []
codes (String.◌∷◌ c s) = code c ∷ codes s

-- `needle in s`
abbrev pub contains : String → String → Bool
contains needle String.[] = starts_with "" needle
contains needle (String.◌∷◌ c s) = starts_with (String.◌∷◌ c s) needle || contains needle s

-- `separator.join(texts)`
abbrev pub join_with : String → List String → String
join_with separator [] = ""
join_with separator (s ∷ []) = s
join_with separator (s ∷ ss) = concat (s ∷ separator ∷ join_with separator ss ∷ [])

-- `"\n".join(lines)`
abbrev pub join_lines : List String → String
join_lines lines = join_with "\n" lines

-- `len(s)`
abbrev pub text_length : String → ℕ
text_length String.[] = 0
text_length (String.◌∷◌ c s) = suc (text_length s)
