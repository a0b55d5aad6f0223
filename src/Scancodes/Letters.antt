-- ===== src/Scancodes/Letters.antt =====
-- libs/ntdll/scancodes.c: what the table says of letters and digits, and where it ends.
use mathlib.Core.Path.{subst}
use mathlib.Core.Bool.{false≢true}
use nloader.Base.{
  ℕ, zero, suc, ◌+◌, ◌≤◌, ◌<◌, ◌≡◌, refl, Bool, true, false, ◌&&◌, Option, none, some, ◌++◌, arith,
  get_elem?-in, get_elem?-out, ltb, ◌==◌, Bool-cases, inl, inr, ◌⊎◌, ==_iff, sym, ap, ◌∙◌,
}
use nloader.Scancodes.{ascii_codes, high_codes, ascii_to_scan}

-- Every byte but 255 has a scan code; the table has no entry for 255, so that the code reads
-- behind it.
pub ascii_to_scan_lem :
    (ch : ℕ)
    → ch < 256
    → ((ch < 255) × ((code : ℕ) × (ascii_to_scan ch ≡ some code)))
      ⊎ ((ch ≡ 255) × (ascii_to_scan ch ≡ none))
unfolding ascii_to_scan
ascii_to_scan_lem ch h = elim (Bool-cases (ltb ch 255)) [
  | inl l ↦
      let small : ch < 255 = ground arith in
      inl (small, get_elem?-in (ascii_codes ++ high_codes) ch small)
  | inr l ↦
      let last : ch ≡ 255 = ground arith in
      inr (last, get_elem?-out (ascii_codes ++ high_codes) ch (omega arith))
]

-- A property of all numbers in a range, by computation.
abbrev pub all_from : ℕ → ℕ → (ℕ → Bool) → Bool
all_from zero a test = true
all_from (suc n) a test = test a && all_from n (a + 1) test

all_from_lem :
    (n a : ℕ) (test : ℕ → Bool)
    → all_from n a test ≡ true
    → (i : ℕ) → a ≤ i
    → i < a + n
    → test i ≡ true
all_from_lem zero a test h i l m = absurd (omega arith)
all_from_lem (suc n) a test h i l m = elim (Bool-cases (test a)) [
  | inr e ↦ absurd (false≢true (sym (ap (λ b. b && all_from n (a + 1) test) e) ∙ h))
  | inl e ↦ elim (Bool-cases (ltb a i)) [
    | inl k ↦
        let later : a + 1 ≤ i = ground arith in
        all_from_lem n (a + 1) test (sym (ap (λ b. b && all_from n (a + 1) test) e) ∙ h) i later
          (omega arith)
    | inr k ↦ let same : a ≡ i = ground arith in subst (λ j. test j ≡ true) same e
  ]
]

abbrev pub same_code : Option ℕ → Option ℕ → Bool
same_code none b = false
same_code (some x) none = false
same_code (some x) (some y) = x == y

same_code_lem : (a b : Option ℕ) → same_code a b ≡ true → a ≡ b
same_code_lem none b h = absurd (false≢true h)
same_code_lem (some x) none h = absurd (false≢true h)
same_code_lem (some x) (some y) h = ap some ((==_iff x y).0 h)

table_of_letters :
    all_from 26 b'A' (λ c. same_code (ascii_to_scan c) (ascii_to_scan (c + 32))) ≡ true
unfolding ascii_to_scan
table_of_letters = refl

-- An upper-case letter has the scan code of the lower-case letter: both are the same key.
pub ascii_to_scan_case : (c : ℕ) → b'A' ≤ c → c ≤ b'Z' → ascii_to_scan c ≡ ascii_to_scan (c + 32)
ascii_to_scan_case c h k = same_code_lem (ascii_to_scan c) (ascii_to_scan (c + 32)) (
    all_from_lem 26 b'A' (λ c. same_code (ascii_to_scan c) (ascii_to_scan (c + 32)))
      table_of_letters c h (omega arith))
