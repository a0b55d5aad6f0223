-- ===== src/Wide/Copy.antt =====
-- libs/ntdll/crt.c: the checked copies, on terminated strings.
use mathlib.Core.Path.{subst}
use mathlib.Core.List.{append_assoc}
use nloader.Base.{
  ℕ, zero, suc, ◌+◌, ◌-◌, ◌≤◌, ◌<◌, ◌≡◌, refl, sym, ap, ◌∙◌, Bool, true, false, Option, none, some,
  List, [], ◌∷◌, ◌++◌, arith, length, length-append, take, drop, length-take, length-drop, ltb,
  Bool-cases, inl, inr, ◌⊎◌, tests,
}
use nloader.Wide.{
  Errno, no_error, invalid, out_of_range, store, copy_units, reject, copied, wcscpy_s, find_end,
  wcscat_s,
}
use nloader.Wide.Compare.{NonZero}

store-append :
    (p : List ℕ) (x : ℕ) (d : List ℕ) (v i : ℕ)
    → i ≡ length p
    → store (p ++ x ∷ d) i v ≡ some (p ++ v ∷ d)
unfolding store
store-append [] x d v zero e = refl
store-append [] x d v (suc i) e = absurd (omega arith)
store-append (y ∷ p) x d v zero e = absurd (omega arith)
store-append (y ∷ p) x d v (suc i) e = rw (store-append p x d v i (omega arith)) refl

-- With room for the terminator the string and its terminator are written from the index on, and
-- nothing else is.
copy_units-fits :
    (b q p d : List ℕ) (r i : ℕ)
    → NonZero b
    → i ≡ length p
    → length b < r
    → r ≤ length d
    → copy_units r (b ++ 0 ∷ q) (p ++ d) i ≡ some (p ++ (b ++ 0 ∷ drop (suc (length b)) d), true)
unfolding copy_units
copy_units-fits b q p d zero i z e h k = absurd (omega arith)
copy_units-fits b q p [] (suc r) i z e h k = absurd (omega arith)
copy_units-fits [] q p (x ∷ d) (suc r) i z e h k = rw (copy_units, store-append p x d 0 i e) refl
copy_units-fits (c ∷ b) q p (x ∷ d) (suc r) i z e h k =
    let u : 0 < c = z.0 in
    let put = λ (m : List ℕ). copy_units r (b ++ 0 ∷ q) m (i + 1) in
    let later : put (p ++ c ∷ d) ≡ some (p ++ c ∷ (b ++ 0 ∷ drop (suc (length b)) d), true) =
      ap put (sym (append_assoc p (c ∷ []) d))
      ∙ copy_units-fits b q (p ++ c ∷ []) d r (i + 1) z.1 (omega (arith, length-append p (c ∷ [])))
          (omega arith) (omega arith)
      ∙ ap (λ m. some (m, true)) (append_assoc p (c ∷ []) (b ++ 0 ∷ drop (suc (length b)) d)) in
    rw (copy_units, store-append p x d c i e) (ground (arith, later))

-- With less room as many units are written as there is room for, and no terminator.
copy_units-cut :
    (b q p d : List ℕ) (r i : ℕ)
    → NonZero b
    → i ≡ length p
    → r ≤ length b
    → r ≤ length d
    → copy_units r (b ++ 0 ∷ q) (p ++ d) i ≡ some (p ++ (take r b ++ drop r d), false)
unfolding copy_units
copy_units-cut b q p d zero i z e h k = refl
copy_units-cut b q p [] (suc r) i z e h k = absurd (omega arith)
copy_units-cut [] q p (x ∷ d) (suc r) i z e h k = absurd (omega arith)
copy_units-cut (c ∷ b) q p (x ∷ d) (suc r) i z e h k =
    let u : 0 < c = z.0 in
    let put = λ (m : List ℕ). copy_units r (b ++ 0 ∷ q) m (i + 1) in
    let later : put (p ++ c ∷ d) ≡ some (p ++ c ∷ (take r b ++ drop r d), false) =
      ap put (sym (append_assoc p (c ∷ []) d))
      ∙ copy_units-cut b q (p ++ c ∷ []) d r (i + 1) z.1 (omega (arith, length-append p (c ∷ [])))
          (omega arith) (omega arith)
      ∙ ap (λ m. some (m, false)) (append_assoc p (c ∷ []) (take r b ++ drop r d)) in
    rw (copy_units, store-append p x d c i e) (ground (arith, later))

-- A destination of `n` units that starts with an empty string after an error.
abbrev pub IsRejected : Errno → ℕ → Option (List ℕ × Errno) → Type 0
IsRejected e n result = (rest : List ℕ) × (result ≡ some (0 ∷ rest, e)) × (length rest + 1 ≡ n)

reject-IsRejected : (e : Errno) (d : List ℕ) → 0 < length d → IsRejected e (length d) (reject e d)
unfolding reject
reject-IsRejected e [] h = absurd (omega arith)
reject-IsRejected e (x ∷ d) h = (d, refl, omega arith)

copied-true :
    {result : Option (List ℕ × Bool)} (d : List ℕ)
    → result ≡ some (d, true)
    → copied result ≡ some (d, no_error)
unfolding copied
copied-true d e = rw e refl

copied-false :
    {result : Option (List ℕ × Bool)} (d : List ℕ)
    → result ≡ some (d, false)
    → 0 < length d
    → IsRejected out_of_range (length d) (copied result)
unfolding copied
copied-false d e h = rw (copied, e) (reject-IsRejected out_of_range d h)

cut-length :
    (b d : List ℕ) (n : ℕ) → n ≤ length b → n ≤ length d → length (take n b ++ drop n d) ≡ length d
cut-length b d n h k =
    omega (arith, length-append (take n b) (drop n d), length-take n b, length-drop n d)

-- `rpl_wcscpy_s` with a destination of at least the size given: if the string and its terminator fit
-- they are copied, and the rest of the destination stays; if not, the destination is an empty
-- string and ERANGE is returned.
pub wcscpy_s-NonZero :
    (b q d : List ℕ) (n : ℕ)
    → NonZero b
    → 0 < n
    → n ≤ length d
    → ((length b < n)
        × (wcscpy_s d n (some (b ++ 0 ∷ q)) ≡ some (b ++ 0 ∷ drop (suc (length b)) d, no_error)))
      ⊎ ((n ≤ length b) × IsRejected out_of_range (length d) (wcscpy_s d n (some (b ++ 0 ∷ q))))
unfolding wcscpy_s
wcscpy_s-NonZero b q d zero z h k = absurd (omega arith)
wcscpy_s-NonZero b q d (suc n) z h k = elim (Bool-cases (ltb (length b) (suc n))) [
  | inl l ↦
      let fits : length b < suc n = omega (tests, l) in
      inl (
        fits,
        copied-true (b ++ 0 ∷ drop (suc (length b)) d)
            (copy_units-fits b q [] d (suc n) 0 z refl fits k),
      )
  | inr l ↦
      let cut : suc n ≤ length b = ground arith in
      inr (
        cut,
        let whole = cut-length b d (suc n) cut k in
            subst (λ m. IsRejected out_of_range m (wcscpy_s d (suc n) (some (b ++ 0 ∷ q)))) whole
              (copied-false (take (suc n) b ++ drop (suc n) d)
                (copy_units-cut b q [] d (suc n) 0 z refl cut k) (omega (arith, whole))),
      )
]

find_end-ends :
    (a rest : List ℕ) (i n : ℕ)
    → NonZero a
    → length a < n
    → find_end (a ++ 0 ∷ rest) i n ≡ some (some (i + length a, n - length a))
unfolding find_end
find_end-ends [] rest i n z h = ground arith
find_end-ends (c ∷ a) rest i n z h =
    let u : 0 < c = z.0 in
    let later = find_end-ends a rest (i + 1) (n - 1) z.1 (omega arith) in ground (arith, later)

find_end-full :
    (a : List ℕ) (i n : ℕ)
    → NonZero a
    → 0 < n
    → n ≤ length a
    → (rest : List ℕ) → find_end (a ++ rest) i n ≡ some none
unfolding find_end
find_end-full [] i n z h k rest = absurd (omega arith)
find_end-full (c ∷ a) i zero z h k rest = absurd (omega arith)
find_end-full (c ∷ a) i (suc zero) z h k rest = let u : 0 < c = z.0 in ground arith
find_end-full (c ∷ a) i (suc (suc n)) z h k rest =
    let u : 0 < c = z.0 in
    let later = find_end-full a (i + 1) (suc n) z.1 (omega arith) (omega arith) rest in
    ground (arith, later)

-- The three ways in which an appended string can end.
pub data Appended (a b rest : List ℕ) (n : ℕ) (result : Option (List ℕ × Errno)) : Type 0 where
  fits :
      length a + length b < n
      → result ≡ some (a ++ (b ++ 0 ∷ drop (length b) rest), no_error)
      → Appended a b rest n result
  cut :
      length a < n
      → n ≤ length a + length b
      → IsRejected out_of_range (length (a ++ 0 ∷ rest)) result
      → Appended a b rest n result
  unterminated :
      n ≤ length a → IsRejected invalid (length (a ++ 0 ∷ rest)) result → Appended a b rest n result

-- `rpl_wcscat_s` with a destination of at least the size given, which holds the string `a`: if both
-- strings and a terminator fit, `b` is appended and the rest of the destination stays; if `b` does
-- not fit, or `a` is not terminated within the size, the destination is an empty string and ERANGE
-- or EINVAL is returned.
pub wcscat_s-Appended :
    (a b rest q : List ℕ) (n : ℕ)
    → NonZero a
    → NonZero b
    → 0 < n
    → n ≤ length (a ++ 0 ∷ rest)
    → Appended a b rest n (wcscat_s (a ++ 0 ∷ rest) n (some (b ++ 0 ∷ q)))
unfolding wcscat_s
wcscat_s-Appended a b rest q zero y z h k = absurd (omega arith)
wcscat_s-Appended a b rest q (suc n) y z h k =
    let whole = length-append a (0 ∷ rest) in
    elim (Bool-cases (ltb (length a) (suc n))) [
      | inr l ↦
          let full : suc n ≤ length a = ground arith in
          unterminated full (
            rw (wcscat_s, find_end-full a 0 (suc n) y (omega arith) full (0 ∷ rest))
              (reject-IsRejected invalid (a ++ 0 ∷ rest) (omega (arith, whole))))
      | inl l ↦
          let ends : length a < suc n = ground arith in
          let found = find_end-ends a rest 0 (suc n) y ends in
          elim (Bool-cases (ltb (length a + length b) (suc n))) [
            | inl m ↦
                let room : length a + length b < suc n = ground arith in
                fits room (
                  rw (wcscat_s, found)
                    (copied-true (a ++ (b ++ 0 ∷ drop (length b) rest)) (
                      copy_units-fits b q a (0 ∷ rest) (suc n - length a) (0 + length a) z
                        (omega arith) (omega arith) (omega (arith, whole)))))
            | inr m ↦
                let short : suc n ≤ length a + length b = ground arith in
                let r = suc n - length a in
                cut ends short (
                  rw (wcscat_s, found)
                    (subst
                      (λ len.
                        IsRejected out_of_range len
                          (copied (copy_units r (b ++ 0 ∷ q) (a ++ 0 ∷ rest) (0 + length a))))
                      (length-append a (take r b ++ drop r (0 ∷ rest))
                        ∙ ap (λ len. length a + len)
                            (cut-length b (0 ∷ rest) r (omega arith) (omega (arith, whole)))
                        ∙ sym whole)
                      (copied-false (a ++ (take r b ++ drop r (0 ∷ rest)))
                        (copy_units-cut b q a (0 ∷ rest) r (0 + length a) z (omega arith)
                          (omega arith) (omega (arith, whole)))
                        (omega (
                          arith,
                          length-append a (take r b ++ drop r (0 ∷ rest)),
                          cut-length b (0 ∷ rest) r (omega arith) (omega (arith, whole)),
                        )))))
          ]
    ]
