-- ===== src/Tests/Wide.antt =====
-- libs/ntdll/crt.c and libs/ntdll/crc64.c on concrete data.
use nloader.Base.{◌≡◌, inl, refl, true, some, List, [], ◌∷◌, ◌++◌, ◌^◌, ◌-◌, ◌%◌, ℕ, arith}
use nloader.Wide.{wcscat_s, wtoi64, isspace}
use nloader.Wide.Compare.{NonZero, Bytes}
use nloader.Wide.Copy.{Appended, wcscat_s-Appended}
use nloader.Wide.Number.{numeral, wtoi64-numeral}

abbrev abc : List ℕ
abc = b'a' ∷ b'b' ∷ b'c' ∷ []

abbrev abd : List ℕ
abd = b'A' ∷ b'B' ∷ b'D' ∷ []

abbrev abc-NonZero : NonZero abc
abc-NonZero = (omega arith, (omega arith, (omega arith, tt)))

abbrev abd-NonZero : NonZero abd
abd-NonZero = (omega arith, (omega arith, (omega arith, tt)))

abbrev abc-Bytes : Bytes abc
abc-Bytes =
    ((omega arith, omega arith), ((omega arith, omega arith), ((omega arith, omega arith), tt)))

abbrev abd-Bytes : Bytes abd
abd-Bytes =
    ((omega arith, omega arith), ((omega arith, omega arith), ((omega arith, omega arith), tt)))

abbrev five_units : List ℕ
five_units = 1 ∷ 2 ∷ 3 ∷ 4 ∷ 5 ∷ []

wcscat_s-Appended_example :
    Appended abc abd five_units 9 (wcscat_s (abc ++ 0 ∷ five_units) 9 (some (abd ++ 0 ∷ [])))
wcscat_s-Appended_example =
    wcscat_s-Appended abc abd five_units [] 9 abc-NonZero abd-NonZero (omega arith) (omega arith)

blank : isspace (32 % 256) ≡ true
unfolding isspace
blank = refl

wtoi64-numeral_example :
    (wtoi64 ((32 ∷ []) ++ (numeral 1234 ++ 0 ∷ [])) ≡ some 1234)
    × (wtoi64 ((32 ∷ []) ++ b'-' ∷ (numeral 1234 ++ 0 ∷ [])) ≡ some ((2 ^ 64 - 1234) % 2 ^ 64))
wtoi64-numeral_example =
    wtoi64-numeral (32 ∷ []) [] 1234 0 (blank, tt) (inl (omega arith)) (omega arith)
