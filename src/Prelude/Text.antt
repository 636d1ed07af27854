-- ===== src/Prelude/Text.antt =====
-- `str.strip`, `str.lower` and `str.upper` of Python on ASCII text; other letters are left alone.
use Prim.Native.Nat.{ℕ, ◌+◌, ◌-◌}
use Prim.Native.Char.{Char, code}
use Prim.Native.String.{String, char_at}
use mathlib.Core.Path.{◌≡◌, refl}
use mathlib.Core.Bool.{Bool, ◌&&◌, ◌||◌}
use mathlib.Core.List.{List, [], ◌∷◌}
use text.Mathlib.Text.{◌==◌}
use vapivoiceassistant.Prelude.Tests.{leb, eqb, if◌then◌else◌}

-- The code points of a text.
unfoldable pub codes : String → List ℕ
codes String.[] = []
codes (String.◌∷◌ c s) = code c ∷ codes s

-- For a letter of the alphabet that starts at the code point, the letter in its place.
abbrev other_case : String → ℕ → Char → Char
other_case letters start c =
    if leb start (code c) && leb (code c) (start + 25) then char_at letters (code c - start) else c

-- `s.lower()`
unfoldable pub lower_text : String → String
lower_text String.[] = ""
lower_text (String.◌∷◌ c s) =
    String.◌∷◌ (other_case "abcdefghijklmnopqrstuvwxyz" 65 c) (lower_text s)

-- `s.upper()`
unfoldable pub upper_text : String → String
upper_text String.[] = ""
upper_text (String.◌∷◌ c s) =
    String.◌∷◌ (other_case "ABCDEFGHIJKLMNOPQRSTUVWXYZ" 97 c) (upper_text s)

-- `c.isspace()`
abbrev is_space : ℕ → Bool
is_space n = eqb n 32 || (leb 9 n && leb n 13) || (leb 28 n && leb n 31)

unfoldable pub lstrip : String → String
lstrip String.[] = ""
lstrip (String.◌∷◌ c s) = let rest = lstrip s in if is_space (code c) then rest else String.◌∷◌ c s

unfoldable pub rstrip : String → String
rstrip String.[] = ""
rstrip (String.◌∷◌ c s) =
    let rest = rstrip s in if is_space (code c) && rest == "" then "" else String.◌∷◌ c rest

-- `s.strip()`
unfoldable pub strip : String → String
unfolding lstrip rstrip
strip s = rstrip (lstrip s)

strip_lower : lower_text (strip "  Ada@Example.org ") ≡ "ada@example.org"
unfolding strip lower_text
strip_lower = refl

upper : upper_text "abC2z" ≡ "ABC2Z"
unfolding upper_text
upper = refl
