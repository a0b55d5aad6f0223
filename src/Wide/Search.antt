-- ===== src/Wide/Search.antt =====
-- libs/ntdll/crt.c: searches in terminated strings, and changes of case.
use nloader.Base.{
  ℕ, ◌+◌, ◌<◌, ◌≡◌, ◌≢◌, refl, ap, ◌∙◌, Option, none, some, List, [], ◌∷◌, ◌++◌, arith, length, map,
  Option-cases, inl, inr, All, ◌==◌, if◌then◌else◌,
}
use nloader.Wide.{wcschr, wcschr_from, wcsrchr, wcsrchr_from, wcslwr, wcsupr, widetol, widetou}
use nloader.Wide.Compare.{NonZero}

-- No unit of the string is `c`.
abbrev pub Without : ℕ → List ℕ → Type 0
Without c s = All (λ a. a ≢ c) s

wcschr_from-first :
    (c : ℕ) (p s : List ℕ) (i : ℕ)
    → 0 < c
    → NonZero p
    → Without c p
    → wcschr_from c (p ++ c ∷ s) i ≡ some (some (i + length p))
unfolding wcschr_from
wcschr_from-first c [] s i n h k = ground arith
wcschr_from-first c (a ∷ p) s i n h k =
    let u : 0 < a = h.0 in
    let v : a ≢ c = k.0 in
    let later = wcschr_from-first c p s (i + 1) n h.1 k.1 in ground (arith, later)

wcschr_from-absent :
    (c : ℕ) (s r : List ℕ) (i : ℕ)
    → NonZero s
    → Without c s
    → wcschr_from c (s ++ 0 ∷ r) i ≡ some none
unfolding wcschr_from
wcschr_from-absent c [] r i h k = refl
wcschr_from-absent c (a ∷ s) r i h k =
    let u : 0 < a = h.0 in
    let v : a ≢ c = k.0 in
    let later = wcschr_from-absent c s r (i + 1) h.1 k.1 in ground (arith, later)

-- `rpl_wcschr` finds the first unit `c`, if it is no terminator, and reads nothing behind it; in a
-- terminated string without it the null pointer is returned.
pub wcschr-Without :
    (c : ℕ) (p s : List ℕ)
    → 0 < c
    → NonZero p
    → Without c p
    → (wcschr c (p ++ c ∷ s) ≡ some (some (length p))) × (wcschr c (p ++ 0 ∷ s) ≡ some none)
unfolding wcschr
wcschr-Without c p s n h k = (
  wcschr_from-first c p s 0 n h k ∙ ap (λ m. some (some m)) (omega arith),
  wcschr_from-absent c p s 0 h k,
)

wcsrchr_from-absent :
    (c : ℕ) (s r : List ℕ) (i : ℕ) (o : Option ℕ)
    → 0 < c
    → NonZero s
    → Without c s
    → wcsrchr_from c (s ++ 0 ∷ r) i o ≡ some o
unfolding wcsrchr_from
wcsrchr_from-absent c [] r i o n h k = ground arith
wcsrchr_from-absent c (a ∷ s) r i o n h k =
    let u : 0 < a = h.0 in
    let v : a ≢ c = k.0 in
    let later = wcsrchr_from-absent c s r (i + 1) o n h.1 k.1 in ground (arith, later)

wcsrchr_from-last :
    (c : ℕ) (p s r : List ℕ) (i : ℕ) (o : Option ℕ)
    → 0 < c
    → NonZero p
    → NonZero s
    → Without c s
    → wcsrchr_from c (p ++ c ∷ (s ++ 0 ∷ r)) i o ≡ some (some (i + length p))
unfolding wcsrchr_from
wcsrchr_from-last c [] s r i o n h g k =
    let later = wcsrchr_from-absent c s r (i + 1) (some i) n g k in ground (arith, later)
wcsrchr_from-last c (a ∷ p) s r i o n h g k =
    let u : 0 < a = h.0 in
    let later = wcsrchr_from-last c p s r (i + 1) (if a == c then some i else o) n h.1 g k in
    ground (arith, later)

-- `rpl_wcsrchr` finds the last unit `c` before the terminator, whatever stands before it.
pub wcsrchr-Without :
    (c : ℕ) (p s r : List ℕ)
    → 0 < c
    → NonZero p
    → NonZero s
    → Without c s
    → wcsrchr c (p ++ c ∷ (s ++ 0 ∷ r)) ≡ some (some (length p))
unfolding wcsrchr
wcsrchr-Without c p s r n h g k =
    wcsrchr_from-last c p s r 0 none n h g k ∙ ap (λ m. some (some m)) (omega arith)

-- The changes of case go on to the terminator, replace each unit by its low byte in the other case,
-- and leave what is behind the terminator.
pub wcslwr-map :
    (s r : List ℕ)
    → NonZero s
    → (wcslwr (s ++ 0 ∷ r) ≡ some (map widetol s ++ 0 ∷ r))
      × (wcsupr (s ++ 0 ∷ r) ≡ some (map widetou s ++ 0 ∷ r))
unfolding wcslwr wcsupr
wcslwr-map s r h = (lower s h, upper s h)
  where
    lower : (s : List ℕ) → NonZero s → wcslwr (s ++ 0 ∷ r) ≡ some (map widetol s ++ 0 ∷ r)
    lower [] h = elim (Option-cases (wcslwr r)) [
      | inl e ↦ rw (wcslwr, e) refl
      | inr (t, e) ↦ rw (wcslwr, e) refl
    ]
    lower (a ∷ s) h = let u : 0 < a = h.0 in rw (wcslwr, lower s h.1) (ground arith)

    upper : (s : List ℕ) → NonZero s → wcsupr (s ++ 0 ∷ r) ≡ some (map widetou s ++ 0 ∷ r)
    upper [] h = elim (Option-cases (wcsupr r)) [
      | inl e ↦ rw (wcsupr, e) refl
      | inr (t, e) ↦ rw (wcsupr, e) refl
    ]
    upper (a ∷ s) h = let u : 0 < a = h.0 in rw (wcsupr, upper s h.1) (ground arith)
