-- ===== src/Prelude/Text.antt =====
-- What the program asks of Python's texts: truth values of optional texts and `strip`.
use Prim.Native.Nat.{ℕ}
use Prim.Native.Char.{code}
use Prim.Native.String.{String}
use mathlib.Core.Bool.{Bool, true, false, not, ◌&&◌, ◌||◌}
use mathlib.Core.Option.{Option, none, some}
use mathlib.Core.List.{List, [], ◌∷◌}
use alos_backend.Prelude.Tests.{leb, if◌then◌else◌, ◌==◌, string_eq}

-- Truth value of a text: the empty text is false.
unfoldable pub is_truthy : String → Bool
is_truthy s = not (s == "")

-- Truth value of an optional text.
unfoldable pub is_given : Option String → Bool
unfolding is_truthy
is_given none = false
is_given (some s) = is_truthy s

-- `a or b` on optional texts.
unfoldable pub or_else : Option String → Option String → Option String
unfolding is_given
or_else a b = if is_given a then a else b

-- `str.isspace` of one character, by its code point.
unfoldable pub is_space : ℕ → Bool
is_space c =
    (leb 9 c && leb c 13)
    || (leb 28 c && leb c 32)
    || (leb 133 c && leb c 133)
    || (leb 160 c && leb c 160)
    || (leb 5760 c && leb c 5760)
    || (leb 8192 c && leb c 8202)
    || (leb 8232 c && leb c 8233)
    || (leb 8239 c && leb c 8239)
    || (leb 8287 c && leb c 8287)
    || (leb 12288 c && leb c 12288)

-- `not s.strip()`
unfoldable pub is_blank : String → Bool
unfolding is_space
is_blank String.[] = true
is_blank (String.◌∷◌ c s) = is_space (code c) && is_blank s

-- The code points of a text.
abbrev pub codes : String → List ℕ
codes String.[] = []
codes (String.◌∷◌ c s) = code c ∷ codes s

-- `a + b`
abbrev pub join : String → String → String
join String.[] b = b
join (String.◌∷◌ c a) b = String.◌∷◌ c (join a b)
