-- ===== src/Skills/Parts.antt =====
-- The parts that `_next_minor` and `_semver` take of the text of a version.
use Prim.Native.Char.{code}
use alos_backend.Prelude.{
  ℕ, String, ◌≡◌, refl, ap, ◌∙◌, inl, inr, some, List, [], ◌∷◌, ◌++◌, Bool, true, false, not, ◌&&◌,
  ◌==◌, string_eq, codes, arith, Bool-cases, Option-cases,
}
use alos_backend.Registry.Version.{
  within, is_digit, is_dot, are_digits, plain_number, span, read_number, after_dot, VersionKey,
  finish, ends_well,
}
use alos_backend.Skills.Minor.{before_dash, split_parts, all_digits}

abbrev pub has_no_plus : List ℕ → Bool
has_no_plus [] = true
has_no_plus (c ∷ cs) = not (within b'+' b'+' c) && has_no_plus cs

pub has_no_plus-rest : (xs ys : List ℕ) → has_no_plus (xs ++ ys) ≡ true → has_no_plus ys ≡ true
has_no_plus-rest [] ys h = h
has_no_plus-rest (x ∷ xs) ys h = has_no_plus-rest xs ys (ground arith)

both : {a b : Bool} → a ≡ true → b ≡ true → a && b ≡ true
both p q = ground arith

span-append :
    (cs : List ℕ)
    → (cs ≡ (span is_digit cs).0 ++ (span is_digit cs).1) × (are_digits (span is_digit cs).0 ≡ true)
unfolding span
span-append [] = (refl, refl)
span-append (c ∷ cs) = elim (Bool-cases (is_digit c)) [
  | inl digit ↦
      (let (at, digits) = span-append cs in rw digit (ap (λ xs. c ∷ xs) at, both digit digits))
  | inr other ↦ rw other (refl, refl)
]

-- What a number that was read stands for.
pub read_number-digits :
    (cs : List ℕ) (n : ℕ) (rest : List ℕ)
    → read_number cs ≡ some (n, rest)
    → (ds : List ℕ) × (cs ≡ ds ++ rest) × (are_digits ds ≡ true) × (plain_number ds ≡ some n)
unfolding read_number
read_number-digits cs n rest h = elim (Option-cases (plain_number (span is_digit cs).0)) [
  | inl not_read ↦ (let wrong = rw not_read at h in cc)
  | inr (m, read) ↦
      (let (at, digits) = span-append cs in
        let given : some (m, (span is_digit cs).1) ≡ some (n, rest) = rw read at h in
        let same : m ≡ n = cc in
        let left : (span is_digit cs).1 ≡ rest = cc in
        (
          (span is_digit cs).0,
          at ∙ ap (λ xs. (span is_digit cs).0 ++ xs) left,
          digits,
          read ∙ ap some same,
        ))
]

pub dot_after : (cs rest : List ℕ) → after_dot cs ≡ some rest → cs ≡ b'.' ∷ rest
dot_after [] rest h = cc
dot_after (c ∷ cs) rest h = elim (Bool-cases (is_dot c)) [
  | inr other ↦ (let wrong = rw other at h in cc)
  | inl dot ↦
      (let same : c ≡ b'.' = ground arith in
        let left : some cs ≡ some rest = rw dot at h in
        let after : cs ≡ rest = cc in ap (λ x. x ∷ cs) same ∙ ap (λ xs. b'.' ∷ xs) after)
]

-- A part of digits that ends at a dot.
pub split_parts-digits :
    (v : String) (ds rest : List ℕ)
    → codes v ≡ ds ++ b'.' ∷ rest
    → are_digits ds ≡ true
    → (a r : String) × (codes a ≡ ds)
      × (codes r ≡ rest)
      × (split_parts (before_dash v) ≡ a ∷ split_parts (before_dash r))
unfolding split_parts before_dash
split_parts-digits String.[] [] rest h digits = cc
split_parts-digits String.[] (d ∷ ds) rest h digits = cc
split_parts-digits (String.◌∷◌ c s) [] rest h digits =
    let dot : code c ≡ b'.' = cc in
    let after : codes s ≡ rest = cc in
    let no_dash : within b'-' b'-' (code c) ≡ false = ground arith in
    let is_one : is_dot (code c) ≡ true = ground arith in
    ("", s, refl, after, rw (no_dash, is_one) refl)
split_parts-digits (String.◌∷◌ c s) (d ∷ ds) rest h digits =
    let same : code c ≡ d = cc in
    let after : codes s ≡ ds ++ b'.' ∷ rest = cc in
    let (a, r, first, last, parts) = split_parts-digits s ds rest after (ground arith) in
    let no_dash : within b'-' b'-' (code c) ≡ false = ground arith in
    let no_dot : is_dot (code c) ≡ false = ground arith in
    (
      String.◌∷◌ c a,
      r,
      ap (λ x. x ∷ codes a) same ∙ ap (λ xs. d ∷ xs) first,
      last,
      rw (no_dash, no_dot, parts) refl,
    )

-- what may follow the last digits
abbrev pub ends_at_dash : List ℕ → Bool
ends_at_dash [] = true
ends_at_dash (c ∷ cs) = within b'-' b'-' c

pub split_parts-last :
    (v : String) (ds rest : List ℕ)
    → codes v ≡ ds ++ rest
    → are_digits ds ≡ true
    → ends_at_dash rest ≡ true
    → (a : String) × (codes a ≡ ds) × (split_parts (before_dash v) ≡ a ∷ [])
unfolding split_parts before_dash
split_parts-last String.[] [] rest h digits ends = ("", refl, refl)
split_parts-last String.[] (d ∷ ds) rest h digits ends = cc
split_parts-last (String.◌∷◌ c s) [] [] h digits ends = cc
split_parts-last (String.◌∷◌ c s) [] (x ∷ rest) h digits ends =
    let same : code c ≡ x = cc in
    let dash : within b'-' b'-' (code c) ≡ true = rw same ends in ("", refl, rw dash refl)
split_parts-last (String.◌∷◌ c s) (d ∷ ds) rest h digits ends =
    let same : code c ≡ d = cc in
    let after : codes s ≡ ds ++ rest = cc in
    let (a, first, parts) = split_parts-last s ds rest after (ground arith) ends in
    let no_dash : within b'-' b'-' (code c) ≡ false = ground arith in
    let no_dot : is_dot (code c) ≡ false = ground arith in
    (
      String.◌∷◌ c a,
      ap (λ x. x ∷ codes a) same ∙ ap (λ xs. d ∷ xs) first,
      rw (no_dash, no_dot, parts) refl,
    )

pub all_digits-number :
    (a : String) (ds : List ℕ) (n : ℕ)
    → codes a ≡ ds
    → are_digits ds ≡ true
    → plain_number ds ≡ some n
    → all_digits a ≡ true
unfolding all_digits plain_number
all_digits-number String.[] ds n h digits read = (let wrong = rw (← h) at read in cc)
all_digits-number (String.◌∷◌ c a) ds n h digits read =
    let some_digits : are_digits (codes (String.◌∷◌ c a)) ≡ true = ap are_digits h ∙ digits in
    elim (Bool-cases (String.◌∷◌ c a == "")) [
      | inl empty ↦ (let wrong = (string_eq.beq_iff (String.◌∷◌ c a) "").0 empty in cc)
      | inr longer ↦ rw (longer, some_digits) refl
    ]

pub finish-ends :
    (major minor patch : ℕ) (cs : List ℕ) (key : VersionKey)
    → finish major minor patch cs ≡ some key
    → has_no_plus cs ≡ true
    → ends_at_dash cs ≡ true
unfolding finish ends_well
finish-ends major minor patch [] key h plain = refl
finish-ends major minor patch (c ∷ cs) key h plain = elim (Bool-cases (within b'-' b'-' c)) [
  | inl dash ↦ dash
  | inr other ↦
      (let no_plus : within b'+' b'+' c ≡ false = ground arith in
        let wrong = rw (other, no_plus) at h in cc)
]
