-- ===== src/Skills/Proposed.antt =====
-- `_next_minor` proposes a version for each that `_semver` reads, but for those with build metadata.
use alos_backend.Prelude.{
  ℕ, ◌+◌, String, ◌≡◌, refl, sym, ap, ◌∙◌, inl, inr, some, List, [], ◌∷◌, ◌++◌, true, string_eq,
  codes, join, Option-cases,
}
use alos_backend.Registry.Version.{
  are_digits, digits_value, plain_number, read_number, after_dot, key_of, VersionKey, finish,
  semver,
}
use alos_backend.Skills.Minor.{before_dash, split_parts, decimal, next_of, next_minor}
use alos_backend.Skills.Bumped.{finish-numbers, next_minor-semver}
use alos_backend.Skills.Parts.{
  has_no_plus, has_no_plus-rest, read_number-digits, dot_after, split_parts-digits, ends_at_dash,
  split_parts-last, all_digits-number, finish-ends,
}

-- The three parts of a version that is read.
next_of-digits :
    (a b c : String) (ds es fs : List ℕ) (key : VersionKey) (patch : ℕ)
    → codes a ≡ ds
    → codes b ≡ es
    → codes c ≡ fs
    → are_digits ds ≡ true
    → are_digits es ≡ true
    → are_digits fs ≡ true
    → plain_number ds ≡ some key.major
    → plain_number es ≡ some key.minor
    → plain_number fs ≡ some patch
    → (next : String) × (next_of (a ∷ (b ∷ (c ∷ []))) ≡ some next)
unfolding next_of
next_of-digits a b c ds es fs key patch at bt ct first second third major minor last =
    let a_digits = all_digits-number a ds key.major at first major in
    let b_digits = all_digits-number b es key.minor bt second minor in
    let c_digits = all_digits-number c fs patch ct third last in
    (
      join a (join "." (join (decimal (digits_value 0 (codes b) + 1)) ".0")),
      rw (a_digits, b_digits, c_digits) refl,
    )

-- The text of a version that is read and has no `+`.
record IsRead (text : List ℕ) (key : VersionKey) : Type 0 where
  majors : List ℕ
  minors : List ℕ
  patches : List ℕ
  rest : List ℕ
  patch : ℕ
  written : text ≡ majors ++ b'.' ∷ (minors ++ b'.' ∷ (patches ++ rest))
  major_digits : are_digits majors ≡ true
  minor_digits : are_digits minors ≡ true
  patch_digits : are_digits patches ≡ true
  major_read : plain_number majors ≡ some key.major
  minor_read : plain_number minors ≡ some key.minor
  patch_read : plain_number patches ≡ some patch
  ends : ends_at_dash rest ≡ true

numbers-IsRead :
    (version : String) (key : VersionKey) (major minor patch : ℕ × List ℕ) (r1 r2 : List ℕ)
    → has_no_plus (codes version) ≡ true
    → read_number (codes version) ≡ some major
    → after_dot major.1 ≡ some r1
    → read_number r1 ≡ some minor
    → after_dot minor.1 ≡ some r2
    → read_number r2 ≡ some patch
    → finish major.0 minor.0 patch.0 patch.1 ≡ some key
    → IsRead (codes version) key
numbers-IsRead version key major minor patch r1 r2 plain major_at dot1 minor_at dot2 patch_at end =
    let (ds, d_at, d_digits, d_read) =
      read_number-digits (codes version) major.0 major.1 major_at in
    let (es, e_at, e_digits, e_read) = read_number-digits r1 minor.0 minor.1 minor_at in
    let (fs, f_at, f_digits, f_read) = read_number-digits r2 patch.0 patch.1 patch_at in
    let (same_major, same_minor) = finish-numbers major.0 minor.0 patch.0 patch.1 key end in
    let e_written : r1 ≡ es ++ b'.' ∷ (fs ++ patch.1) =
      e_at ∙ ap (λ x. es ++ x) (dot_after minor.1 r2 dot2 ∙ ap (λ x. b'.' ∷ x) f_at) in
    let written : codes version ≡ ds ++ b'.' ∷ (es ++ b'.' ∷ (fs ++ patch.1)) =
      d_at ∙ ap (λ x. ds ++ x) (dot_after major.1 r1 dot1 ∙ ap (λ x. b'.' ∷ x) e_written) in
    let rest_plain : has_no_plus patch.1 ≡ true = has_no_plus-rest fs patch.1 (
      has_no_plus-rest (b'.' ∷ []) (fs ++ patch.1) (
        has_no_plus-rest es (b'.' ∷ (fs ++ patch.1)) (
          has_no_plus-rest (b'.' ∷ []) (es ++ b'.' ∷ (fs ++ patch.1)) (
            has_no_plus-rest ds (b'.' ∷ (es ++ b'.' ∷ (fs ++ patch.1)))
              (ap has_no_plus (sym written) ∙ plain))))) in
    record {
      majors = ds;
      minors = es;
      patches = fs;
      rest = patch.1;
      patch = patch.0;
      written = written;
      major_digits = d_digits;
      minor_digits = e_digits;
      patch_digits = f_digits;
      major_read = d_read ∙ ap some (sym same_major);
      minor_read = e_read ∙ ap some (sym same_minor);
      patch_read = f_read;
      ends = finish-ends major.0 minor.0 patch.0 patch.1 key end rest_plain;
    }

semver-IsRead :
    (version : String) (key : VersionKey)
    → semver version ≡ some key
    → has_no_plus (codes version) ≡ true
    → IsRead (codes version) key
unfolding semver
semver-IsRead version key h plain = elim (Option-cases (read_number (codes version))) [
  | inl no_major ↦ (let wrong = rw no_major at h in cc)
  | inr (major, major_at) ↦
      (let h1 = rw major_at at h in
        elim (Option-cases (after_dot major.1)) [
          | inl no_dot ↦ (let wrong = rw no_dot at h1 in cc)
          | inr (r1, dot1) ↦
              (let h2 = rw dot1 at h1 in
                elim (Option-cases (read_number r1)) [
                  | inl no_minor ↦ (let wrong = rw no_minor at h2 in cc)
                  | inr (minor, minor_at) ↦
                      (let h3 = rw minor_at at h2 in
                        elim (Option-cases (after_dot minor.1)) [
                          | inl no_dot ↦ (let wrong = rw no_dot at h3 in cc)
                          | inr (r2, dot2) ↦
                              (let h4 = rw dot2 at h3 in
                                elim (Option-cases (read_number r2)) [
                                  | inl no_patch ↦ (let wrong = rw no_patch at h4 in cc)
                                  | inr (patch, patch_at) ↦
                                      numbers-IsRead version key major minor patch r1 r2 plain
                                        major_at dot1 minor_at dot2 patch_at (rw patch_at at h4)
                                ])
                        ])
                ])
        ])
]

-- A version that `_semver` reads and that has no build metadata has a proposal, which `_semver`
-- reads: it has the same major number, the next minor number and the patch number 0, and is a final
-- release.
pub semver-next_minor :
    (version : String) (key : VersionKey)
    → semver version ≡ some key
    → has_no_plus (codes version) ≡ true
    → (next : String) × (next_minor version ≡ some next)
      × (semver next ≡ some (key_of key.major (key.minor + 1) 0 true []))
unfolding next_minor
semver-next_minor version key h plain =
    let p = semver-IsRead version key h plain in
    let (a, r1, a_codes, r1_codes, first) =
      split_parts-digits version p.majors _ p.written p.major_digits in
    let (b, r2, b_codes, r2_codes, second) =
      split_parts-digits r1 p.minors _ r1_codes p.minor_digits in
    let (c, c_codes, third) = split_parts-last r2 p.patches p.rest r2_codes p.patch_digits p.ends in
    let parts : split_parts (before_dash version) ≡ a ∷ (b ∷ (c ∷ [])) =
      first ∙ ap (λ x. a ∷ x) (second ∙ ap (λ x. b ∷ x) third) in
    let (next, found) =
      next_of-digits a b c p.majors p.minors p.patches key p.patch a_codes b_codes c_codes
        p.major_digits p.minor_digits p.patch_digits p.major_read p.minor_read p.patch_read in
    let proposed : next_minor version ≡ some next = ap next_of parts ∙ found in
    (next, proposed, next_minor-semver version next key proposed h)
