-- ===== src/Skills/Bumped.antt =====
-- The version that `_next_minor` proposes, read by `_semver`.
use Prim.Native.Char.{Char, code}
use mathlib.Core.List.{append_assoc}
use alos_backend.Prelude.{
  ℕ, ◌+◌, String, ◌≡◌, refl, sym, ap, ◌∙◌, inl, inr, Option, none, some, List, [], ◌∷◌, ◌++◌, Bool,
  true, false, ◌&&◌, codes, join, arith, Bool-cases, Option-cases,
}
use alos_backend.Registry.Version.{
  within, is_digit, is_dot, are_digits, digits_value, plain_number, span, is_tail_char, split_dots,
  all_given, all_identifiers, ends_well, Identifier, read_number, key_of, VersionKey, finish,
  semver,
}
use alos_backend.Skills.Minor.{
  before_dash, to_first_part, split_parts, all_digits, decimal, next_of, next_minor,
}
use alos_backend.Skills.Decimals.{codes-join, are_digits-decimal, plain_number-decimal}

before_dash-tail : (s : String) → (tail : List ℕ) × (codes s ≡ codes (before_dash s) ++ tail)
unfolding before_dash
before_dash-tail String.[] = ([], refl)
before_dash-tail (String.◌∷◌ c s) = elim (Bool-cases (within b'-' b'-' (code c))) [
  | inl dash ↦ (code c ∷ codes s, rw dash refl)
  | inr other ↦
      (let (tail, at) = before_dash-tail s in (tail, rw other (ap (λ cs. code c ∷ cs) at)))
]

longer_first :
    (c : Char) (a b : String) (parts bs : List String)
    → to_first_part c parts ≡ a ∷ (b ∷ bs)
    → (part : String) × (parts ≡ part ∷ (b ∷ bs)) × (String.◌∷◌ c part ≡ a)
longer_first c a b [] bs h = cc
longer_first c a b (part ∷ parts) bs h = (part, cc, cc)

-- The first part of two or more ends at a dot, and the others are those of what follows it.
split_parts-first :
    (s a b : String) (bs : List String)
    → split_parts s ≡ a ∷ (b ∷ bs)
    → (rest : String) × (codes s ≡ codes a ++ b'.' ∷ codes rest) × (split_parts rest ≡ b ∷ bs)
unfolding split_parts
split_parts-first String.[] a b bs h = cc
split_parts-first (String.◌∷◌ c s) a b bs h = elim (Bool-cases (is_dot (code c))) [
  | inl dot ↦
      (let parts : "" ∷ split_parts s ≡ a ∷ (b ∷ bs) = rw dot at h in
        let empty : "" ≡ a = cc in
        let same : code c ≡ b'.' = ground arith in (s, rw (← empty, same) refl, cc))
  | inr other ↦
      (let (part, parts, first) = longer_first c a b (split_parts s) bs (rw other at h) in
        let (rest, at, after) = split_parts-first s part b bs parts in
        (rest, ap (λ cs. code c ∷ cs) at ∙ ap (λ t. codes t ++ b'.' ∷ codes rest) first, after))
]

span-digits :
    (ds : List ℕ) (c : ℕ) (rest : List ℕ)
    → are_digits ds ≡ true
    → is_digit c ≡ false
    → span is_digit (ds ++ c ∷ rest) ≡ (ds, c ∷ rest)
unfolding span
span-digits [] c rest h other = rw other refl
span-digits (d ∷ ds) c rest h other =
    let first : is_digit d ≡ true = ground arith in
    rw (first, span-digits ds c rest (ground arith) other) refl

value_of : (cs : List ℕ) (n : ℕ) → plain_number cs ≡ some n → digits_value 0 cs ≡ n
unfolding plain_number
value_of [] n h = cc
value_of (c ∷ cs) n h = ground arith

abbrev with_rest : List ℕ → Option ℕ → Option (ℕ × List ℕ)
with_rest rest none = none
with_rest rest (some n) = some (n, rest)

-- The first number of a version, and what follows it.
read_number-dot :
    (ds rest : List ℕ)
    → are_digits ds ≡ true
    → read_number (ds ++ b'.' ∷ rest) ≡ with_rest (b'.' ∷ rest) (plain_number ds)
unfolding read_number
read_number-dot ds rest h = elim (Option-cases (plain_number ds)) [
  | inl none_read ↦ rw (span-digits ds b'.' rest h refl, none_read) refl
  | inr (n, read) ↦ rw (span-digits ds b'.' rest h refl, read) refl
]

numbers_of :
    {major minor patch : ℕ} {is_final : Bool} {prerelease : List Identifier} {key : VersionKey}
    → some (key_of major minor patch is_final prerelease) ≡ some key
    → (key.major ≡ major) × (key.minor ≡ minor)
numbers_of h = (cc, cc)

pub finish-numbers :
    (major minor patch : ℕ) (cs : List ℕ) (key : VersionKey)
    → finish major minor patch cs ≡ some key
    → (key.major ≡ major) × (key.minor ≡ minor)
unfolding finish
finish-numbers major minor patch [] key h = numbers_of h
finish-numbers major minor patch (c ∷ cs) key h = elim (Bool-cases (within b'-' b'-' c)) [
  | inr other ↦ elim (Bool-cases (ends_well (c ∷ cs))) [
    | inl ends ↦ numbers_of (rw (other, ends) at h)
    | inr more ↦ (let wrong = rw (other, more) at h in cc)
  ]
  | inl dash ↦
      (let run = span is_tail_char cs in
        elim (Bool-cases (all_given (split_dots run.0) && ends_well run.1)) [
          | inr bad ↦ (let wrong = rw (dash, bad) at h in cc)
          | inl good ↦ elim (Option-cases (all_identifiers (split_dots run.0))) [
            | inl not_read ↦ (let wrong = rw (dash, good, not_read) at h in cc)
            | inr (identifiers, read) ↦ numbers_of (rw (dash, good, read) at h)
          ]
        ])
]

-- What a version that is read begins with.
semver-numbers :
    (version : String) (ds es rest : List ℕ) (key : VersionKey)
    → codes version ≡ ds ++ b'.' ∷ (es ++ b'.' ∷ rest)
    → are_digits ds ≡ true
    → are_digits es ≡ true
    → semver version ≡ some key
    → (plain_number ds ≡ some key.major) × (plain_number es ≡ some key.minor)
unfolding semver
semver-numbers version ds es rest key at first second h =
    let read = rw (at, read_number-dot ds (es ++ b'.' ∷ rest) first) at h in
    elim (Option-cases (plain_number ds)) [
      | inl not_read ↦ (let wrong = rw not_read at read in cc)
      | inr (major, major_read) ↦
          (let read' = rw (major_read, read_number-dot es rest second) at read in
            elim (Option-cases (plain_number es)) [
              | inl not_read ↦ (let wrong = rw not_read at read' in cc)
              | inr (minor, minor_read) ↦
                  (let last = rw minor_read at read' in
                    elim (Option-cases (read_number rest)) [
                      | inl not_read ↦ (let wrong = rw not_read at last in cc)
                      | inr (patch, patch_read) ↦
                          (let end = rw patch_read at last in
                            let (a, b) = finish-numbers major minor patch.0 patch.1 key end in
                            (major_read ∙ ap some (sym a), minor_read ∙ ap some (sym b)))
                    ])
            ])
    ]

proposed_read :
    (a : String) (major minor : ℕ)
    → are_digits (codes a) ≡ true
    → plain_number (codes a) ≡ some major
    → semver (join a (join "." (join (decimal minor) ".0"))) ≡ some (key_of major minor 0 true [])
unfolding semver read_number finish
proposed_read a major minor digits read =
    let at : codes (join a (join "." (join (decimal minor) ".0")))
        ≡ codes a ++ b'.' ∷ (codes (decimal minor) ++ b'.' ∷ (b'0' ∷ [])) =
      codes-join a (join "." (join (decimal minor) ".0"))
      ∙ ap (λ cs. codes a ++ b'.' ∷ cs) (codes-join (decimal minor) ".0") in
    rw
      (
        at,
        read_number-dot (codes a) (codes (decimal minor) ++ b'.' ∷ (b'0' ∷ [])) digits,
        read,
        read_number-dot (codes (decimal minor)) (b'0' ∷ []) (are_digits-decimal minor),
        plain_number-decimal minor,
      )
      refl

next_of-three :
    (version next a b c : String) (key : VersionKey)
    → split_parts (before_dash version) ≡ a ∷ (b ∷ (c ∷ []))
    → next_of (a ∷ (b ∷ (c ∷ []))) ≡ some next
    → semver version ≡ some key
    → semver next ≡ some (key_of key.major (key.minor + 1) 0 true [])
unfolding next_of all_digits
next_of-three version next a b c key e h k =
    elim (Bool-cases (all_digits a && (all_digits b && all_digits c))) [
      | inr bad ↦ (let wrong = rw bad at h in cc)
      | inl good ↦
          (let made : some (join a (join "." (join (decimal (digits_value 0 (codes b) + 1)) ".0")))
                ≡ some next =
              rw good at h in
            let first : are_digits (codes a) ≡ true = ground arith in
            let second : are_digits (codes b) ≡ true = ground arith in
            let (tail, cut) = before_dash-tail version in
            let (r1, at1, more) = split_parts-first (before_dash version) a b (c ∷ []) e in
            let (r2, at2, last) = split_parts-first r1 b c [] more in
            let at : codes version ≡ codes a ++ b'.' ∷ (codes b ++ b'.' ∷ (codes r2 ++ tail)) =
              rw (cut, at1, at2) (simp append_assoc) in
            let (major, minor) =
              semver-numbers version (codes a) (codes b) (codes r2 ++ tail) key at first second k in
            let value = value_of (codes b) key.minor minor in
            let same : join a (join "." (join (decimal (key.minor + 1)) ".0")) ≡ next =
              ap (λ n. join a (join "." (join (decimal (n + 1)) ".0"))) (sym value)
              ∙ (let m = made in cc) in
            ap semver (sym same) ∙ proposed_read a key.major (key.minor + 1) first major)
    ]

next_of-semver :
    (version next : String) (parts : List String) (key : VersionKey)
    → split_parts (before_dash version) ≡ parts
    → next_of parts ≡ some next
    → semver version ≡ some key
    → semver next ≡ some (key_of key.major (key.minor + 1) 0 true [])
unfolding next_of
next_of-semver version next [] key e h k = cc
next_of-semver version next (a ∷ []) key e h k = cc
next_of-semver version next (a ∷ (b ∷ [])) key e h k = cc
next_of-semver version next (a ∷ (b ∷ (c ∷ []))) key e h k =
    next_of-three version next a b c key e h k
next_of-semver version next (a ∷ (b ∷ (c ∷ (d ∷ parts)))) key e h k = cc

-- Where `_next_minor` proposes a version for one that `_semver` reads, `_semver` reads the proposal:
-- it has the same major number, the next minor number and the patch number 0, and is a final release.
pub next_minor-semver :
    (version next : String) (key : VersionKey)
    → next_minor version ≡ some next
    → semver version ≡ some key
    → semver next ≡ some (key_of key.major (key.minor + 1) 0 true [])
unfolding next_minor
next_minor-semver version next key h k =
    next_of-semver version next (split_parts (before_dash version)) key refl h k
