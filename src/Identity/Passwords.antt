-- ===== src/Identity/Passwords.antt =====
-- `_hash_password` and `_verify_password`. The key derivation is an argument.
use Prim.Native.Char.{Char, code}
use alos_backend.Prelude.{
  join, String, ◌≡◌, refl, ap, ◌∙◌, inl, inr, Option, none, some, Bool, true, false, ◌&&◌, not,
  ◌==◌, string_eq, beq_refl, leb, Bool-cases, if◌then◌else◌,
}

abbrev pub is_dollar : Char → Bool
is_dollar c = leb (code c) b'$' && leb b'$' (code c)

abbrev pub cons_part : Char → Option (String × String) → Option (String × String)
cons_part c none = none
cons_part c (some (a, b)) = some (String.◌∷◌ c a, b)

-- what stands before and after the first `$`
unfoldable pub split_dollar : String → Option (String × String)
split_dollar String.[] = none
split_dollar (String.◌∷◌ c s) =
    let rest = split_dollar s in if is_dollar c then some ("", s) else cons_part c rest

-- `f"pbkdf2_sha256${salt}${digest}"`
unfoldable pub hash_password : (String → String → String) → String → String → String
hash_password derive salt password =
    join "pbkdf2_sha256" (join "$" (join salt (join "$" (derive password salt))))

abbrev pub verify_parts : (String → String → String) → String → Option (String × String) → Bool
verify_parts derive password none = false
verify_parts derive password (some (salt, digest)) = derive password salt == digest

abbrev pub verify_rest : (String → String → String) → String → Option (String × String) → Bool
verify_rest derive password none = false
verify_rest derive password (some (algorithm, rest)) =
    if algorithm == "pbkdf2_sha256" then verify_parts derive password (split_dollar rest) else false

-- `stored_hash.split("$", 2)` has three parts, or the password is refused.
unfoldable pub verify_password : (String → String → String) → String → String → Bool
unfolding split_dollar
verify_password derive password stored = verify_rest derive password (split_dollar stored)

unfoldable pub has_no_dollar : String → Bool
has_no_dollar String.[] = true
has_no_dollar (String.◌∷◌ c s) = not (is_dollar c) && has_no_dollar s

split_dollar-join :
    (a b : String) → has_no_dollar a ≡ true → split_dollar (join a (join "$" b)) ≡ some (a, b)
unfolding split_dollar has_no_dollar
split_dollar-join String.[] b h = refl
split_dollar-join (String.◌∷◌ c s) b h = elim (Bool-cases (is_dollar c)) [
  | inl dollar ↦ (let wrong = rw dollar at h in cc)
  | inr other ↦
      rw other (ap (cons_part c) (split_dollar-join s b (let kept = rw other at h in kept)))
]

named : has_no_dollar "pbkdf2_sha256" ≡ true
unfolding has_no_dollar
named = refl

-- A password is verified against its own hash, where the salt has no `$`.
pub verify-hash :
    (derive : String → String → String) (salt password : String)
    → has_no_dollar salt ≡ true
    → verify_password derive password (hash_password derive salt password) ≡ true
unfolding verify_password hash_password
verify-hash derive salt password h =
    ap (verify_rest derive password)
      (split_dollar-join "pbkdf2_sha256" (join salt (join "$" (derive password salt))) named)
    ∙ ap (verify_parts derive password) (split_dollar-join salt (derive password salt) h)
    ∙ beq_refl (derive password salt)
