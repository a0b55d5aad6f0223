-- ===== src/Wide/Number.antt =====
-- libs/ntdll/crt.c: `rpl__wtoi64` reads what a decimal numeral says.
use nloader.Base.{
  ℕ, zero, suc, ◌+◌, ◌-◌, ◌*◌, ◌/◌, ◌%◌, ◌^◌, ◌≤◌, ◌<◌, ◌≡◌, ◌⊎◌, inl, inr, refl, ap, ◌∙◌, true,
  false, Option, some, List, [], ◌∷◌, ◌++◌, arith, length, All, ltb, if◌then◌else◌, All-append,
  Bool-cases, length-append,
}
use nloader.Wide.{isspace, digits_value, negated, signed, wtoi64}

-- The units '0' to '9'.
abbrev pub IsDigit : ℕ → Type 0
IsDigit c = (48 ≤ c) × (c ≤ 57)

abbrev pub Digits : List ℕ → Type 0
Digits ds = All IsDigit ds

-- The number that digits denote, behind the digits of `value`.
abbrev pub horner : List ℕ → ℕ → ℕ
horner [] value = value
horner (d ∷ ds) value = horner ds (value * 10 + (d - 48))

horner-append : (xs ys : List ℕ) (v : ℕ) → horner (xs ++ ys) v ≡ horner ys (horner xs v)
horner-append [] ys v = refl
horner-append (x ∷ xs) ys v = horner-append xs ys (v * 10 + (x - 48))

horner-le : (ds : List ℕ) (v : ℕ) → v ≤ horner ds v
horner-le [] v = omega arith
horner-le (d ∷ ds) v = omega (arith, horner-le ds (v * 10 + (d - 48)))

-- The decimal numeral of a number; as many rounds as the number itself are enough.
abbrev pub numeral_within : ℕ → ℕ → List ℕ
numeral_within zero n = (48 + n) ∷ []
numeral_within (suc fuel) n =
    let rest = numeral_within fuel (n / 10) in
    if ltb n 10 then (48 + n) ∷ [] else (rest ++ (48 + n % 10) ∷ [])

abbrev pub numeral : ℕ → List ℕ
numeral n = numeral_within n n

numeral_within-Digits : (fuel n : ℕ) → n ≤ fuel → Digits (numeral_within fuel n)
numeral_within-Digits zero n h = ((omega arith, omega arith), tt)
numeral_within-Digits (suc fuel) n h =
    let later = numeral_within-Digits fuel (n / 10) (omega arith) in
    let last : Digits ((48 + n % 10) ∷ []) = ((omega arith, omega arith), tt) in
    let both = All-append IsDigit (numeral_within fuel (n / 10)) ((48 + n % 10) ∷ []) later last in
    elim (Bool-cases (ltb n 10)) [
      | inl l ↦ let small : n < 10 = ground arith in rw l (((omega arith, omega arith), tt))
      | inr l ↦ rw l both
    ]

numeral_within-horner : (fuel n : ℕ) → n ≤ fuel → horner (numeral_within fuel n) 0 ≡ n
numeral_within-horner zero n h = omega arith
numeral_within-horner (suc fuel) n h =
    let later = numeral_within-horner fuel (n / 10) (omega arith) in
    let whole = horner-append (numeral_within fuel (n / 10)) ((48 + n % 10) ∷ []) 0 in
    elim (Bool-cases (ltb n 10)) [
      | inl l ↦ rw l (omega arith)
      | inr l ↦ rw l (omega (arith, whole, later))
    ]

-- What ends the digits: any unit that is not read as one.
abbrev pub Ends : ℕ → Type 0
Ends c = (c % 256 < 48) ⊎ (57 < c % 256)

digits_value-horner :
    (ds r : List ℕ) (e v : ℕ)
    → Digits ds
    → Ends e
    → horner ds v < 2 ^ 64
    → digits_value (ds ++ e ∷ r) v ≡ some (horner ds v)
unfolding digits_value
digits_value-horner [] r e v h k l = ground arith
digits_value-horner (d ∷ ds) r e v h k l =
    let (low, high) : IsDigit d = h.0 in
    let w : ℕ = v * 10 + (d - 48) in
    let bounded : w < 2 ^ 64 = omega (arith, horner-le ds w, l) in
    let later = digits_value-horner ds r e w h.1 k l in
    let byte : d % 256 ≡ d = omega arith in
    let next : (v * 10 + d - 48) % 2 ^ 64 ≡ w = omega (arith, bounded) in
    rw (byte, next) (ground (arith, later))

abbrev pub Spaces : List ℕ → Type 0
Spaces sp = All (λ c. isspace (c % 256) ≡ true) sp

wtoi64-append : (sp s : List ℕ) → Spaces sp → wtoi64 (sp ++ s) ≡ wtoi64 s
unfolding wtoi64
wtoi64-append [] s h = refl
wtoi64-append (c ∷ sp) s h = rw (wtoi64, h.0) (wtoi64-append sp s h.1)

wtoi64-signed : (c : ℕ) (s : List ℕ) → isspace (c % 256) ≡ false → wtoi64 (c ∷ s) ≡ signed (c ∷ s)
unfolding wtoi64
wtoi64-signed c s e = rw e refl

isspace_digit : (c : ℕ) → IsDigit c → isspace (c % 256) ≡ false
unfolding isspace
isspace_digit c h = let (low, high) : IsDigit c = h in ground arith

signed_digit : (c : ℕ) (s : List ℕ) → IsDigit c → signed (c ∷ s) ≡ digits_value (c ∷ s) 0
unfolding signed
signed_digit c s h = let (low, high) : IsDigit c = h in ground arith

wtoi64-horner :
    (ds r : List ℕ) (e : ℕ)
    → 0 < length ds
    → Digits ds
    → Ends e
    → horner ds 0 < 2 ^ 64
    → wtoi64 (ds ++ e ∷ r) ≡ some (horner ds 0)
wtoi64-horner [] r e n h k l = absurd (omega arith)
wtoi64-horner (d ∷ ds) r e n h k l =
    wtoi64-signed d (ds ++ e ∷ r) (isspace_digit d h.0)
    ∙ signed_digit d (ds ++ e ∷ r) h.0
    ∙ digits_value-horner (d ∷ ds) r e 0 h k l

minus_space : isspace (b'-' % 256) ≡ false
unfolding isspace
minus_space = refl

signed_minus : (s : List ℕ) → signed (b'-' ∷ s) ≡ negated (digits_value s 0)
unfolding signed
signed_minus s = refl

negated-some : {o : Option ℕ} (n : ℕ) → o ≡ some n → negated o ≡ some ((2 ^ 64 - n) % 2 ^ 64)
unfolding negated
negated-some n e = rw e refl

numeral_within-length : (fuel n : ℕ) → 0 < length (numeral_within fuel n)
numeral_within-length zero n = omega arith
numeral_within-length (suc fuel) n =
    let snoc = length-append (numeral_within fuel (n / 10)) ((48 + n % 10) ∷ []) in
    elim (Bool-cases (ltb n 10)) [ inl l ↦ rw l (omega arith) | inr l ↦ rw l (omega (arith, snoc)) ]

-- The decimal numeral of a number below 2 ^ 64, behind any white space and in front of any unit that
-- is no digit, is read as that number; with a minus sign in front, as its negative modulo 2 ^ 64.
pub wtoi64-numeral :
    (sp r : List ℕ) (n e : ℕ)
    → Spaces sp
    → Ends e
    → n < 2 ^ 64
    → (wtoi64 (sp ++ (numeral n ++ e ∷ r)) ≡ some n)
      × (wtoi64 (sp ++ b'-' ∷ (numeral n ++ e ∷ r)) ≡ some ((2 ^ 64 - n) % 2 ^ 64))
wtoi64-numeral sp r n e h k l =
    let digits = numeral_within-Digits n n (omega arith) in
    let value : horner (numeral n) 0 ≡ n = numeral_within-horner n n (omega arith) in
    let bounded : horner (numeral n) 0 < 2 ^ 64 = omega (arith, value) in
    (
      wtoi64-append sp (numeral n ++ e ∷ r) h
          ∙ wtoi64-horner (numeral n) r e (numeral_within-length n n) digits k bounded
          ∙ ap some value,
      wtoi64-append sp (b'-' ∷ (numeral n ++ e ∷ r)) h
          ∙ wtoi64-signed b'-' (numeral n ++ e ∷ r) minus_space
          ∙ signed_minus (numeral n ++ e ∷ r)
          ∙ negated-some n (digits_value-horner (numeral n) r e 0 digits k bounded ∙ ap some value),
    )
