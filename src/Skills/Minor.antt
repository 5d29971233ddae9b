-- ===== src/Skills/Minor.antt =====
-- `SkillAssignmentService._next_minor`. A digit is one of ASCII: other characters of which
-- `str.isdigit` holds are not.
use Prim.Native.Nat.{◌/◌, ◌%◌}
use Prim.Native.Char.{Char, code}
use alos_backend.Prelude.{
  ℕ, zero, suc, ◌+◌, String, Option, none, some, List, [], ◌∷◌, Bool, not, ◌&&◌, ltb, ◌==◌,
  string_eq, if◌then◌else◌, codes, join,
}
use alos_backend.Registry.Version.{within, are_digits, digits_value}

-- `text.split("-", 1)[0]`
unfoldable pub before_dash : String → String
before_dash String.[] = ""
before_dash (String.◌∷◌ c s) =
    let rest = before_dash s in if within b'-' b'-' (code c) then "" else String.◌∷◌ c rest

abbrev pub to_first_part : Char → List String → List String
to_first_part c [] = String.◌∷◌ c "" ∷ []
to_first_part c (part ∷ parts) = String.◌∷◌ c part ∷ parts

-- `text.split(".")`
unfoldable pub split_parts : String → List String
split_parts String.[] = "" ∷ []
split_parts (String.◌∷◌ c s) =
    let parts = split_parts s in
    if within b'.' b'.' (code c) then "" ∷ parts else to_first_part c parts

-- `part.isdigit()`
unfoldable pub all_digits : String → Bool
all_digits part = not (part == "") && are_digits (codes part)

-- of a number below ten
unfoldable pub digit_text : ℕ → String
digit_text n =
    if ltb n 1
    then "0"
    else if ltb n 2
    then "1"
    else if ltb n 3
    then "2"
    else if ltb n 4
    then "3"
    else if ltb n 5
    then "4"
    else if ltb n 6
    then "5"
    else if ltb n 7
    then "6"
    else if ltb n 8
    then "7"
    else if ltb n 9
    then "8"
    else "9"

-- the decimal digits of a number, on fuel
unfoldable pub decimal_on : ℕ → ℕ → String
unfolding digit_text
decimal_on zero n = ""
decimal_on (suc fuel) n =
    let rest = decimal_on fuel (n / 10) in
    if ltb n 10 then digit_text n else join rest (digit_text (n % 10))

-- `str(n)`
unfoldable pub decimal : ℕ → String
unfolding decimal_on
decimal n = decimal_on (suc n) n

unfoldable pub next_of : List String → Option String
unfolding all_digits digits_value decimal
next_of (major ∷ (minor ∷ (patch ∷ []))) =
    if all_digits major && (all_digits minor && all_digits patch)
    then some (join major (join "." (join (decimal (digits_value 0 (codes minor) + 1)) ".0")))
    else none
next_of _ = none

-- none where the version is refused
unfoldable pub next_minor : String → Option String
unfolding before_dash split_parts next_of
next_minor version = next_of (split_parts (before_dash version))
