-- ===== src/Wide/Compare.antt =====
-- libs/ntdll/crt.c: lengths and comparisons of terminated strings.
use nloader.Base.{
  ℕ, zero, suc, ◌+◌, ◌-◌, ◌%◌, ◌^◌, ◌<◌, ◌≡◌, ◌≢◌, refl, ap, ◌∙◌, none, some, List, [], ◌∷◌, ◌++◌,
  map, arith, length, take, All, ltb, ◌==◌, if◌then◌else◌,
}
use nloader.Wide.{
  Sign, negative, equal, positive, order_of, wcslen, wcslen_from, wcscmp, wcsncmp, order_behind,
  widetol, wcsicmp, wcsnicmp,
}

-- The units of a string, before its terminator.
abbrev pub NonZero : List ℕ → Type 0
NonZero s = All (λ c. 0 < c) s

-- Units of one byte.
abbrev pub Bytes : List ℕ → Type 0
Bytes s = All (λ c. (0 < c) × (c < 256)) s

-- The order of dictionaries.
abbrev pub lexicographic : List ℕ → List ℕ → Sign
lexicographic [] [] = equal
lexicographic [] (b ∷ t) = negative
lexicographic (a ∷ s) [] = positive
lexicographic (a ∷ s) (b ∷ t) =
    let later = lexicographic s t in
    if a == b then later else if ltb a b then negative else positive

wcslen_from_lem :
    (s r : List ℕ) (n : ℕ) → NonZero s → wcslen_from (s ++ 0 ∷ r) n ≡ some (n + length s)
unfolding wcslen_from
wcslen_from_lem [] r n h = ground arith
wcslen_from_lem (c ∷ s) r n h =
    let later = wcslen_from_lem s r (n + 1) h.1 in let p : 0 < c = h.0 in ground arith

-- The length of a terminated string is the number of units before the terminator, wherever the
-- object around it ends.
pub wcslen-length : (s r : List ℕ) → NonZero s → wcslen (some (s ++ 0 ∷ r)) ≡ some (length s)
unfolding wcslen
wcslen-length s r h = wcslen_from_lem s r 0 h ∙ ap some (omega arith)

-- The comparison of two terminated strings reads no unit behind them and returns their
-- lexicographic order.
pub wcscmp-lexicographic :
    (s r t q : List ℕ)
    → NonZero s
    → NonZero t
    → wcscmp (s ++ 0 ∷ r) (t ++ 0 ∷ q) ≡ some (lexicographic s t)
unfolding wcscmp order_of
wcscmp-lexicographic [] r [] q h k = refl
wcscmp-lexicographic [] r (b ∷ t) q h k = let p : 0 < b = k.0 in ground arith
wcscmp-lexicographic (a ∷ s) r [] q h k = let p : 0 < a = h.0 in ground arith
wcscmp-lexicographic (a ∷ s) r (b ∷ t) q h k =
    let p : 0 < a = h.0 in let later = wcscmp-lexicographic s r t q h.1 k.1 in ground arith

-- Two strings compare equal in the order of dictionaries exactly if they are the same.
lexicographic-equal : (s t : List ℕ) → lexicographic s t ≡ equal → s ≡ t
lexicographic-equal [] [] e = refl
lexicographic-equal [] (b ∷ t) e = ground arith
lexicographic-equal (a ∷ s) [] e = ground arith
lexicographic-equal (a ∷ s) (b ∷ t) e = grind (arith, lexicographic-equal s t)

-- The result of `rpl_wcsncmp` at the first difference within `n` units does not depend on the two
-- units that differ: it compares the units behind them.
pub wcsncmp-order_behind :
    (p s t : List ℕ) (a b n : ℕ)
    → NonZero p
    → 0 < a
    → a ≢ b
    → length p < n
    → wcsncmp n (p ++ a ∷ s) (p ++ b ∷ t) ≡ order_behind s t
unfolding wcsncmp
wcsncmp-order_behind p s t a b zero z h d l = absurd (omega arith)
wcsncmp-order_behind [] s t a b (suc n) z h d l = ground arith
wcsncmp-order_behind (c ∷ p) s t a b (suc n) z h d l =
    let later = wcsncmp-order_behind p s t a b n z.1 h d (omega arith) in
    let q : 0 < c = z.0 in ground arith

widetol-NonZero : (c : ℕ) → 0 < c → c < 256 → 0 < widetol c
unfolding widetol
widetol-NonZero c h k = ground arith

widetol_zero : widetol 0 ≡ 0
unfolding widetol
widetol_zero = refl

-- On strings of one-byte units `rpl__wcsicmp` returns the lexicographic order of the strings in
-- lower case.
pub wcsicmp-lexicographic :
    (s r t q : List ℕ)
    → Bytes s
    → Bytes t
    → wcsicmp (s ++ 0 ∷ r) (t ++ 0 ∷ q) ≡ some (lexicographic (map widetol s) (map widetol t))
unfolding wcsicmp order_of
wcsicmp-lexicographic [] r [] q h k = refl
wcsicmp-lexicographic [] r (b ∷ t) q h k =
    ground (arith, widetol-NonZero b k.0.0 k.0.1, widetol_zero)
wcsicmp-lexicographic (a ∷ s) r [] q h k =
    ground (arith, widetol-NonZero a h.0.0 h.0.1, widetol_zero)
wcsicmp-lexicographic (a ∷ s) r (b ∷ t) q h k =
    let p : 0 < a = h.0.0 in let later = wcsicmp-lexicographic s r t q h.1 k.1 in ground arith

-- Where one string has a unit whose low byte is 0 and the other ends, `rpl__wcsicmp` does not stop:
-- it reads behind the end of the other.
pub wcsicmp_overrun :
    (p s : List ℕ) (a : ℕ)
    → NonZero p
    → 0 < a
    → a % 256 ≡ 0
    → wcsicmp (p ++ a ∷ s) (p ++ 0 ∷ []) ≡ none
unfolding wcsicmp widetol
wcsicmp_overrun [] [] a z h e = ground arith
wcsicmp_overrun [] (c ∷ s) a z h e = ground arith
wcsicmp_overrun (c ∷ p) s a z h e =
    let q : 0 < c = z.0 in let later = wcsicmp_overrun p s a z.1 h e in ground arith

-- With at least one unit to compare `rpl__wcsnicmp` returns, for strings of one-byte units, the
-- lexicographic order of their first `n` units in lower case.
pub wcsnicmp-lexicographic :
    (n : ℕ) (s r t q : List ℕ)
    → suc n < 2 ^ 64
    → Bytes s
    → Bytes t
    → wcsnicmp (suc n) (s ++ 0 ∷ r) (t ++ 0 ∷ q)
      ≡ some (lexicographic (take (suc n) (map widetol s)) (take (suc n) (map widetol t)))
unfolding wcsnicmp order_of
wcsnicmp-lexicographic n [] r [] q u h k = ground arith
wcsnicmp-lexicographic n [] r (b ∷ t) q u h k =
    ground (arith, widetol-NonZero b k.0.0 k.0.1, widetol_zero)
wcsnicmp-lexicographic n (a ∷ s) r [] q u h k =
    ground (arith, widetol-NonZero a h.0.0 h.0.1, widetol_zero)
wcsnicmp-lexicographic zero (a ∷ s) r (b ∷ t) q u h k = ground arith
wcsnicmp-lexicographic (suc n) (a ∷ s) r (b ∷ t) q u h k =
    let p : 0 < a = h.0.0 in
    let m : (suc (suc n) + 2 ^ 64 - 1) % 2 ^ 64 ≡ suc n = omega arith in
    let later = wcsnicmp-lexicographic n s r t q (omega arith) h.1 k.1 in ground (arith, m)
