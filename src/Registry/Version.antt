-- ===== src/Registry/Version.antt =====
-- `VersionedContractRegistry._semver`: the sort key of a semantic version. The pattern is read from
-- the left: no character that a group takes can follow it, so the longest run is what it matches.
use alos_backend.Prelude.{
  ℕ, ◌+◌, ◌-◌, ◌*◌, String, Option, none, some, List, [], ◌∷◌, Bool, true, false, ◌&&◌, ◌||◌, leb,
  if◌then◌else◌, codes,
}

abbrev pub within : ℕ → ℕ → ℕ → Bool
within low high c = leb low c && leb c high

abbrev pub is_digit : ℕ → Bool
is_digit = within b'0' b'9'

-- `[0-9A-Za-z-]`
unfoldable pub is_identifier_char : ℕ → Bool
is_identifier_char c =
    is_digit c || (within b'A' b'Z' c || (within b'a' b'z' c || within b'-' b'-' c))

abbrev pub is_dot : ℕ → Bool
is_dot = within b'.' b'.'

unfoldable pub is_tail_char : ℕ → Bool
unfolding is_identifier_char
is_tail_char c = is_dot c || is_identifier_char c

-- the longest run of characters that pass, and what follows it
unfoldable pub span : (ℕ → Bool) → List ℕ → List ℕ × List ℕ
span test [] = ([], [])
span test (c ∷ cs) =
    let (run, rest) = span test cs in if test c then (c ∷ run, rest) else ([], c ∷ cs)

-- `int(digits)`
unfoldable pub digits_value : ℕ → List ℕ → ℕ
digits_value sum [] = sum
digits_value sum (c ∷ cs) = digits_value (sum * 10 + (c - b'0')) cs

abbrev pub starts_with_zero : List ℕ → Bool
starts_with_zero [] = false
starts_with_zero (c ∷ cs) = within b'0' b'0' c

abbrev pub is_long : List ℕ → Bool
is_long [] = false
is_long (c ∷ []) = false
is_long (c ∷ (d ∷ cs)) = true

-- `0|[1-9][0-9]*`
unfoldable pub plain_number : List ℕ → Option ℕ
unfolding digits_value
plain_number [] = none
plain_number (c ∷ cs) =
    if starts_with_zero (c ∷ cs) && is_long (c ∷ cs) then none else some (digits_value 0 (c ∷ cs))

abbrev pub after_dot : List ℕ → Option (List ℕ)
after_dot [] = none
after_dot (c ∷ cs) = if is_dot c then some cs else none

-- `identifiers.split(".")`
abbrev pub to_first : ℕ → List (List ℕ) → List (List ℕ)
to_first c [] = (c ∷ []) ∷ []
to_first c (word ∷ words) = (c ∷ word) ∷ words

unfoldable pub split_dots : List ℕ → List (List ℕ)
split_dots [] = [] ∷ []
split_dots (c ∷ cs) = let words = split_dots cs in if is_dot c then [] ∷ words else to_first c words

abbrev pub all_given : List (List ℕ) → Bool
all_given [] = true
all_given ([] ∷ words) = false
all_given ((c ∷ cs) ∷ words) = all_given words

-- `(0, int(identifier))` and `(1, identifier)`
pub data Identifier : Type 0 where
  numeric : ℕ → Identifier
  textual : List ℕ → Identifier

abbrev pub are_digits : List ℕ → Bool
are_digits [] = true
are_digits (c ∷ cs) = is_digit c && are_digits cs

unfoldable pub identifier : List ℕ → Option Identifier
unfolding digits_value
identifier word =
    if are_digits word
    then (if starts_with_zero word && is_long word
        then none
        else some (numeric (digits_value 0 word)))
    else some (textual word)

abbrev pub cons_identifier : Option Identifier → Option (List Identifier) → Option (List Identifier)
cons_identifier none found = none
cons_identifier (some first) none = none
cons_identifier (some first) (some found) = some (first ∷ found)

unfoldable pub all_identifiers : List (List ℕ) → Option (List Identifier)
unfolding identifier
all_identifiers [] = some []
all_identifiers (word ∷ words) = cons_identifier (identifier word) (all_identifiers words)

-- The sort key. A final release comes after its prereleases.
pub record VersionKey : Type 0 where
  pub major : ℕ
  pub minor : ℕ
  pub patch : ℕ
  pub is_final : Bool
  pub prerelease : List Identifier

-- what may follow the prerelease: nothing, or build metadata
unfoldable pub ends_well : List ℕ → Bool
unfolding span is_tail_char split_dots
ends_well [] = true
ends_well (c ∷ cs) =
    within b'+' b'+' c
    && (let (build, rest) = span is_tail_char cs in all_given (split_dots build) && is_nothing rest)
  where
    is_nothing : List ℕ → Bool
    is_nothing [] = true
    is_nothing (_ ∷ _) = false

infixl 5 ◌>>=◌
abbrev ◌>>=◌ : {A B : Type 0} → Option A → (A → Option B) → Option B
none >>= f = none
some a >>= f = f a

-- a number, and what follows it
unfoldable pub read_number : List ℕ → Option (ℕ × List ℕ)
unfolding span plain_number
read_number cs = do n ← plain_number (span is_digit cs).0; some (n, (span is_digit cs).1)

abbrev pub key_of : ℕ → ℕ → ℕ → Bool → List Identifier → VersionKey
key_of major minor patch is_final prerelease = record {
  major = major;
  minor = minor;
  patch = patch;
  is_final = is_final;
  prerelease = prerelease;
}

-- what follows the three numbers
unfoldable pub finish : ℕ → ℕ → ℕ → List ℕ → Option VersionKey
unfolding span is_tail_char split_dots all_identifiers ends_well
finish major minor patch [] = some (key_of major minor patch true [])
finish major minor patch (c ∷ cs) =
    if within b'-' b'-' c
    then (let (run, rest) = span is_tail_char cs in
        if all_given (split_dots run) && ends_well rest
        then (do
          identifiers ← all_identifiers (split_dots run)
          some (key_of major minor patch false identifiers))
        else none)
    else if ends_well (c ∷ cs)
    then some (key_of major minor patch true [])
    else none

unfoldable pub semver : String → Option VersionKey
unfolding read_number finish
semver version = do
  major ← read_number (codes version)
  rest ← after_dot major.1
  minor ← read_number rest
  rest' ← after_dot minor.1
  patch ← read_number rest'
  finish major.0 minor.0 patch.0 patch.1
