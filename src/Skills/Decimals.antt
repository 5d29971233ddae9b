-- ===== src/Skills/Decimals.antt =====
-- The texts of numbers: `str(n)` is read back as n by the pattern of a version.
use Prim.Native.Nat.{◌/◌, ◌%◌}
use Prim.Native.Char.{code}
use alos_backend.Prelude.{
  ℕ, zero, suc, ◌+◌, ◌-◌, ◌*◌, ◌<◌, String, ◌≡◌, refl, ap, ◌∙◌, inl, inr, some, List, [], ◌∷◌, ◌++◌,
  Bool, true, false, ltb, codes, join, arith, Bool-cases,
}
use alos_backend.Registry.Version.{are_digits, digits_value, starts_with_zero, plain_number}
use alos_backend.Skills.Minor.{digit_text, decimal_on, decimal}

codes-digit : (n : ℕ) → ltb n 10 ≡ true → codes (digit_text n) ≡ (b'0' + n) ∷ []
unfolding digit_text
codes-digit zero h = refl
codes-digit (suc zero) h = refl
codes-digit (suc (suc zero)) h = refl
codes-digit (suc (suc (suc zero))) h = refl
codes-digit (suc (suc (suc (suc zero)))) h = refl
codes-digit (suc (suc (suc (suc (suc zero))))) h = refl
codes-digit (suc (suc (suc (suc (suc (suc zero)))))) h = refl
codes-digit (suc (suc (suc (suc (suc (suc (suc zero))))))) h = refl
codes-digit (suc (suc (suc (suc (suc (suc (suc (suc zero)))))))) h = refl
codes-digit (suc (suc (suc (suc (suc (suc (suc (suc (suc zero))))))))) h = refl
codes-digit (suc (suc (suc (suc (suc (suc (suc (suc (suc (suc n)))))))))) h = ground arith

pub codes-join : (a b : String) → codes (join a b) ≡ codes a ++ codes b
codes-join String.[] b = refl
codes-join (String.◌∷◌ c a) b = ap (λ cs. code c ∷ cs) (codes-join a b)

digits_value-append :
    (sum : ℕ) (xs ys : List ℕ) → digits_value sum (xs ++ ys) ≡ digits_value (digits_value sum xs) ys
unfolding digits_value
digits_value-append sum [] ys = refl
digits_value-append sum (x ∷ xs) ys = digits_value-append (sum * 10 + (x - b'0')) xs ys

are_digits-append :
    (xs ys : List ℕ) → are_digits xs ≡ true → are_digits ys ≡ true → are_digits (xs ++ ys) ≡ true
are_digits-append [] ys h h' = h'
are_digits-append (x ∷ xs) ys h h' = ground (arith, are_digits-append xs ys)

-- the first digit is there and is not 0
abbrev leads : List ℕ → Bool
leads [] = false
leads (c ∷ cs) = ltb b'0' c

leads-append : (xs ys : List ℕ) → leads xs ≡ true → leads (xs ++ ys) ≡ true
leads-append [] ys h = cc
leads-append (x ∷ xs) ys h = h

record IsPlain (cs : List ℕ) (n : ℕ) : Type 0 where
  digits : are_digits cs ≡ true
  value : digits_value 0 cs ≡ n
  leading : 0 < n → leads cs ≡ true

digit-IsPlain : (n : ℕ) → ltb n 10 ≡ true → IsPlain (codes (digit_text n)) n
unfolding digits_value
digit-IsPlain n h =
    rw (codes-digit n h)
      (record { digits = ground arith; value = omega arith; leading = λ positive. ground arith })

-- one more digit
longer-IsPlain :
    (rest : String) (n : ℕ)
    → ltb n 10 ≡ false
    → IsPlain (codes rest) (n / 10)
    → IsPlain (codes (join rest (digit_text (n % 10)))) n
unfolding digits_value
longer-IsPlain rest n h p =
    let last : ltb (n % 10) 10 ≡ true = ground arith in
    let apart : codes (join rest (digit_text (n % 10))) ≡ codes rest ++ (b'0' + n % 10) ∷ [] =
      codes-join rest (digit_text (n % 10))
      ∙ ap (λ cs. codes rest ++ cs) (codes-digit (n % 10) last) in
    rw apart (record {
      digits = are_digits-append (codes rest) _ p.digits (ground arith);
      value =
          digits_value-append 0 (codes rest) _
          ∙ ap (λ m. m * 10 + ((b'0' + n % 10) - b'0')) p.value
          ∙ omega arith;
      leading = λ positive. leads-append (codes rest) _ (p.leading (ground arith));
    })

-- Fuel above the number is enough.
decimal_on-IsPlain : (fuel n : ℕ) → n < fuel → IsPlain (codes (decimal_on fuel n)) n
unfolding decimal_on
decimal_on-IsPlain zero n h = absurd (omega arith)
decimal_on-IsPlain (suc fuel) n h = elim (Bool-cases (ltb n 10)) [
  | inl short ↦ rw short (digit-IsPlain n short)
  | inr long ↦ rw long (
      longer-IsPlain (decimal_on fuel (n / 10)) n long
        (decimal_on-IsPlain fuel (n / 10) (ground arith)))
]

pub are_digits-decimal : (n : ℕ) → are_digits (codes (decimal n)) ≡ true
unfolding decimal
are_digits-decimal n = (decimal_on-IsPlain (suc n) n (omega arith)).digits

plain_lead :
    (cs : List ℕ) (n : ℕ) → leads cs ≡ true → digits_value 0 cs ≡ n → plain_number cs ≡ some n
unfolding plain_number
plain_lead [] n h v = cc
plain_lead (c ∷ cs) n h v =
    let other : starts_with_zero (c ∷ cs) ≡ false = ground arith in rw other (ap some v)

pub plain_number-decimal : (n : ℕ) → plain_number (codes (decimal n)) ≡ some n
unfolding decimal plain_number digit_text
plain_number-decimal zero = refl
plain_number-decimal (suc n) =
    let p = decimal_on-IsPlain (suc (suc n)) (suc n) (omega arith) in
    plain_lead (codes (decimal_on (suc (suc n)) (suc n))) (suc n) (p.leading (omega arith)) p.value
