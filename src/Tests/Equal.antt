-- ===== src/Tests/Equal.antt =====
-- libs/ntdll/rtl.c: strings that are compared as bytes.
use mathlib.Core.Path.{subst}
use nloader.Base.{ℕ, ◌≡◌, ◌↔◌, Bool, true, false, some, List, [], ◌∷◌, map, arith}
use nloader.Loader.Imports.{same}
use nloader.Loader.Names.{same-eq, same_refl}
use nloader.Rtl.{widetoa}
use nloader.Rtl.Equal.{
  equal_unicode_string, text_of, counted, equal_unicode_string_iff, equal_unicode_string-false,
}

-- A comparison of texts as `strcmp` is documented.
abbrev compare_texts : Bool → List ℕ → List ℕ → Bool
compare_texts ignoring_case a b = same (text_of a) (text_of b)

compare_texts_lem : (a b : List ℕ) → (compare_texts false a b ≡ true) ↔ (text_of a ≡ text_of b)
compare_texts_lem a b = (
  same-eq (text_of a) (text_of b),
  λ e. subst (λ t. same (text_of a) t ≡ true) e (same_refl (text_of a)),
)

-- U+0141 has the low byte of an A.
equal_unicode_string_iff_example :
    (equal_unicode_string compare_texts (counted (0x141 ∷ []) 0 []) (counted (b'A' ∷ []) 0 []) false
      ≡ some true)
    ↔ (map widetoa (0x141 ∷ []) ≡ map widetoa (b'A' ∷ []))
unfolding widetoa
equal_unicode_string_iff_example =
    equal_unicode_string_iff compare_texts compare_texts_lem (0x141 ∷ []) (b'A' ∷ []) [] []
      (omega arith) (omega arith) (omega arith, tt) (omega arith) (omega arith) (omega arith, tt)

equal_unicode_string-false_example :
    equal_unicode_string compare_texts
      (counted (b'A' ∷ []) b'B' [])
      (counted (b'A' ∷ []) 0 [])
      false
    ≡ some false
unfolding widetoa
equal_unicode_string-false_example =
    equal_unicode_string-false compare_texts compare_texts_lem (b'A' ∷ []) [] [] b'B' 0
      (omega arith) (omega arith) (omega arith, tt) (λ e. absurd (omega (arith, e)))
