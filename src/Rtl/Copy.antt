-- ===== src/Rtl/Copy.antt =====
-- libs/ntdll/rtl.c: what a loop that copies units leaves in a buffer.
use nloader.Base.{
  ℕ, zero, suc, ◌+◌, ◌≤◌, ◌<◌, ◌≡◌, ◌⊎◌, inl, inr, refl, ap, sym, ◌∙◌, Option, none, some, List, [],
  ◌∷◌, ◌++◌, map, arith, length, length-append, take, drop, length-take, length-drop, length-map,
  ltb, Bool-cases, Option-cases,
}
use nloader.Wide.{store}
use nloader.Rtl.{copy_from, copy_terminated}

-- A unit in front of all that a step leaves.
abbrev pub in_front : ℕ → Option (List ℕ) → Option (List ℕ)
in_front x none = none
in_front x (some d) = some (x ∷ d)

store-in_front : (x : ℕ) (d : List ℕ) (i v : ℕ) → store (x ∷ d) (i + 1) v ≡ in_front x (store d i v)
unfolding store
store-in_front x d i v = ground arith

module _ (f : ℕ → ℕ) where
  pub copy_from-in_front :
      (n : ℕ) (src : List ℕ) (x : ℕ) (d : List ℕ) (i : ℕ)
      → copy_from f n src (x ∷ d) (i + 1) ≡ in_front x (copy_from f n src d i)
  unfolding copy_from
  copy_from-in_front zero src x d i = refl
  copy_from-in_front (suc n) [] x d i = refl
  copy_from-in_front (suc n) (c ∷ src) x d i = elim (Option-cases (store d i (f c))) [
    | inl e ↦ rw (store-in_front x d i (f c), e) refl
    | inr (d', e) ↦ rw (store-in_front x d i (f c), e) (copy_from-in_front n src x d' (i + 1))
  ]

  -- What a copy of `n` units leaves.
  abbrev pub overlay : ℕ → List ℕ → List ℕ → List ℕ
  overlay n src dest = map f (take n src) ++ drop n dest

  pub copy_from-overlay :
      (n : ℕ) (src dest : List ℕ)
      → n ≤ length src
      → n ≤ length dest
      → copy_from f n src dest 0 ≡ some (overlay n src dest)
  unfolding copy_from
  copy_from-overlay zero src dest h k = refl
  copy_from-overlay (suc n) [] dest h k = absurd (omega arith)
  copy_from-overlay (suc n) (c ∷ src) [] h k = absurd (omega arith)
  copy_from-overlay (suc n) (c ∷ src) (x ∷ dest) h k =
      copy_from-in_front n src (f c) dest 0
      ∙ ap (in_front (f c)) (copy_from-overlay n src dest (omega arith) (omega arith))

  pub copy_from-none :
      (n : ℕ) (src dest : List ℕ)
      → (length src < n) ⊎ (length dest < n)
      → copy_from f n src dest 0 ≡ none
  unfolding copy_from
  copy_from-none zero src dest (inl h) = absurd (omega arith)
  copy_from-none zero src dest (inr h) = absurd (omega arith)
  copy_from-none (suc n) [] dest h = refl
  copy_from-none (suc n) (c ∷ src) [] h = refl
  copy_from-none (suc n) (c ∷ src) (x ∷ dest) (inl h) =
      copy_from-in_front n src (f c) dest 0
      ∙ ap (in_front (f c)) (copy_from-none n src dest (inl (omega arith)))
  copy_from-none (suc n) (c ∷ src) (x ∷ dest) (inr h) =
      copy_from-in_front n src (f c) dest 0
      ∙ ap (in_front (f c)) (copy_from-none n src dest (inr (omega arith)))

pub store-append :
    (xs : List ℕ) (y v : ℕ) (ys : List ℕ) (i : ℕ)
    → i ≡ length xs
    → store (xs ++ (y ∷ ys)) i v ≡ some (xs ++ (v ∷ ys))
unfolding store
store-append [] y v ys zero e = refl
store-append [] y v ys (suc i) e = absurd (omega arith)
store-append (x ∷ xs) y v ys zero e = absurd (omega arith)
store-append (x ∷ xs) y v ys (suc i) e = rw (store-append xs y v ys i (omega arith)) refl

pub store-none : (xs : List ℕ) (i v : ℕ) → length xs ≤ i → store xs i v ≡ none
unfolding store
store-none [] i v h = refl
store-none (x ∷ xs) zero v h = absurd (omega arith)
store-none (x ∷ xs) (suc i) v h = rw (store-none xs i v (omega arith)) refl

-- How a copy of `n` units and their terminator ends.
pub data Terminated (f : ℕ → ℕ) (n : ℕ) (src dest : List ℕ) (result : Option (List ℕ))
    : Type 0 where
  terminated :
      (y : ℕ) (rest : List ℕ)
      → n ≤ length src
      → drop n dest ≡ y ∷ rest
      → result ≡ some (map f (take n src) ++ (0 ∷ rest))
      → Terminated f n src dest result
  outside : (length src < n) ⊎ (length dest ≤ n) → result ≡ none → Terminated f n src dest result

drop-cases :
    (n : ℕ) (xs : List ℕ) → (length xs ≤ n) ⊎ ((y : ℕ) × (rest : List ℕ) × (drop n xs ≡ y ∷ rest))
drop-cases n [] = inl (omega arith)
drop-cases zero (x ∷ xs) = inr (x, xs, refl)
drop-cases (suc n) (x ∷ xs) = elim (drop-cases n xs) [ inl h ↦ inl (omega arith) | inr h ↦ inr h ]

module _ (f : ℕ → ℕ) (n : ℕ) (src dest : List ℕ) (whole : n ≤ length src) where
  length-taken : length (map f (take n src)) ≡ n
  length-taken = omega (arith, length-map (take n src) f, length-take n src)

  copy_terminated-full : length dest ≤ n → copy_terminated f n src dest ≡ none
  unfolding copy_terminated
  copy_terminated-full h = elim (Bool-cases (ltb (length dest) n)) [
    | inl l ↦
        let short : length dest < n = ground arith in
        rw (copy_from-none f n src dest (inr short)) refl
    | inr l ↦
        let room : n ≤ length dest = ground arith in
        let size = length-append (map f (take n src)) (drop n dest) in
        rw (copy_from-overlay f n src dest whole room) (
          store-none (map f (take n src) ++ drop n dest) n 0
            (omega (arith, size, length-taken, length-drop n dest)))
  ]

  copy_terminated-room :
      (y : ℕ) (rest : List ℕ)
      → drop n dest ≡ y ∷ rest
      → copy_terminated f n src dest ≡ some (map f (take n src) ++ (0 ∷ rest))
  unfolding copy_terminated
  copy_terminated-room y rest e =
      let size = ap length e in
      rw (copy_from-overlay f n src dest whole (omega (arith, size, length-drop n dest)))
        (rw e (store-append (map f (take n src)) y 0 rest n (sym length-taken)))

-- A copy with its terminator writes exactly `n + 1` units, or leaves a buffer.
pub copy_terminated-Terminated :
    (f : ℕ → ℕ) (n : ℕ) (src dest : List ℕ) → Terminated f n src dest (copy_terminated f n src dest)
copy_terminated-Terminated f n src dest = elim (Bool-cases (ltb (length src) n)) [
  | inl l ↦
      let short : length src < n = ground arith in
      outside (inl short)
        (unfold copy_terminated in rw (copy_from-none f n src dest (inl short)) refl)
  | inr l ↦
      let whole : n ≤ length src = ground arith in
      elim (drop-cases n dest) [
        | inl h ↦ outside (inr h) (copy_terminated-full f n src dest whole h)
        | inr (y, rest, e) ↦
            terminated y rest whole e (copy_terminated-room f n src dest whole y rest e)
      ]
]

pub copy_terminated-none :
    (f : ℕ → ℕ) (n : ℕ) (src dest : List ℕ) → length dest ≤ n → copy_terminated f n src dest ≡ none
copy_terminated-none f n src dest h = elim (copy_terminated-Terminated f n src dest) [
  | terminated y rest w e r ↦
      let size = ap length e in absurd (omega (arith, size, length-drop n dest, h))
  | outside w r ↦ r
]

-- With room, it yields the units and a 0.
pub copy_terminated-some :
    (f : ℕ → ℕ) (n : ℕ) (src dest : List ℕ)
    → n ≤ length src
    → n < length dest
    → (rest : List ℕ) × (copy_terminated f n src dest ≡ some (map f (take n src) ++ (0 ∷ rest)))
copy_terminated-some f n src dest h k = elim (copy_terminated-Terminated f n src dest) [
  | terminated y rest w e r ↦ (rest, r)
  | outside (inl w) r ↦ absurd (omega (arith, w, h))
  | outside (inr w) r ↦ absurd (omega (arith, w, k))
]
