-- ===== src/Loader/Bytes.antt =====
-- loader.c: bytes that are written into a buffer and read back.
use nloader.Base.{
  ℕ, zero, suc, ◌+◌, ◌-◌, ◌^◌, ◌≤◌, ◌<◌, ◌≡◌, refl, ap, ◌∙◌, ◌⊎◌, inl, inr, List, [], ◌∷◌, ◌++◌,
  arith, length, length-append, length-take, length-drop, get_or, take, drop,
}
use nloader.Loader.{accepted, word16, word32, word64, write_image}
use nloader.Loader.Patch.{le_bytes}

module _ {ℓ} {A : Type ℓ} where
  pub get_or-append_left :
      (xs ys : List A) (i : ℕ) (d : A) → i < length xs → get_or (xs ++ ys) i d ≡ get_or xs i d
  get_or-append_left [] ys i d h = absurd (omega arith)
  get_or-append_left (x ∷ xs) ys zero d h = refl
  get_or-append_left (x ∷ xs) ys (suc i) d h = get_or-append_left xs ys i d (omega arith)

  pub get_or-append_right :
      (xs ys : List A) (i n : ℕ) (d : A) → i ≡ length xs + n → get_or (xs ++ ys) i d ≡ get_or ys n d
  get_or-append_right [] ys i n d e = let e' : i ≡ n = omega arith in rw e' refl
  get_or-append_right (x ∷ xs) ys zero n d e = absurd (omega arith)
  get_or-append_right (x ∷ xs) ys (suc i) n d e = get_or-append_right xs ys i n d (omega arith)

  get_or-take :
      (n : ℕ) (xs : List A) (i : ℕ) (d : A) → i < n → get_or (take n xs) i d ≡ get_or xs i d
  get_or-take zero xs i d h = absurd (omega arith)
  get_or-take (suc n) [] i d h = refl
  get_or-take (suc n) (x ∷ xs) zero d h = refl
  get_or-take (suc n) (x ∷ xs) (suc i) d h = get_or-take n xs i d (omega arith)

  get_or-drop :
      (n : ℕ) (xs : List A) (i j : ℕ) (d : A) → j ≡ n + i → get_or (drop n xs) i d ≡ get_or xs j d
  get_or-drop zero xs i j d e = let e' : j ≡ i = omega arith in rw e' refl
  get_or-drop (suc n) [] i j d e = refl
  get_or-drop (suc n) (x ∷ xs) i zero d e = absurd (omega arith)
  get_or-drop (suc n) (x ∷ xs) i (suc j) d e = get_or-drop n xs i j d (omega arith)

-- A word depends on its eight bytes.
abbrev pub SameBytes : List ℕ → List ℕ → ℕ → ℕ → Type 0
SameBytes a b i j = (p q k : ℕ) → k < 8 → p ≡ i + k → q ≡ j + k → get_or a p 0 ≡ get_or b q 0

pub word64-cong : (a b : List ℕ) (i j : ℕ) → SameBytes a b i j → word64 a i ≡ word64 b j
unfolding word64 word32 word16
word64-cong a b i j h = omega (
  arith,
  h (i) (j) 0 (omega arith) (omega arith) (omega arith),
  h (i + 1) (j + 1) 1 (omega arith) (omega arith) (omega arith),
  h (i + 2) (j + 2) 2 (omega arith) (omega arith) (omega arith),
  h (i + 2 + 1) (j + 2 + 1) 3 (omega arith) (omega arith) (omega arith),
  h (i + 4) (j + 4) 4 (omega arith) (omega arith) (omega arith),
  h (i + 4 + 1) (j + 4 + 1) 5 (omega arith) (omega arith) (omega arith),
  h (i + 4 + 2) (j + 4 + 2) 6 (omega arith) (omega arith) (omega arith),
  h (i + 4 + 2 + 1) (j + 4 + 2 + 1) 7 (omega arith) (omega arith) (omega arith),
)

pub word64-le_bytes : (v : ℕ) → v < 2 ^ 64 → word64 (le_bytes 8 v) 0 ≡ v
unfolding word64 word32 word16 le_bytes
word64-le_bytes v h = omega arith

-- The buffer with `bytes` at `at`.
abbrev pub written : List ℕ → ℕ → List ℕ → List ℕ
written image at bytes = take at image ++ (bytes ++ drop (at + length bytes) image)

pub length-written :
    (image : List ℕ) (at : ℕ) (bytes : List ℕ)
    → at + length bytes ≤ length image
    → length (written image at bytes) ≡ length image
length-written image at bytes h =
    let rest = drop (at + length bytes) image in
    omega (
      arith,
      length-append (take at image) (bytes ++ rest),
      length-append bytes rest,
      length-take at image,
      length-drop (at + length bytes) image,
    )

pub write_image-written :
    (image : List ℕ) (at : ℕ) (bytes : List ℕ)
    → at + length bytes ≤ length image
    → write_image image at bytes ≡ accepted (written image at bytes)
unfolding write_image
write_image-written image at bytes h = ground arith

module _ (image : List ℕ) (at : ℕ) (bytes : List ℕ) (fits : at + length bytes ≤ length image) where
  pub get_or-written_in :
      (i k : ℕ)
      → i ≡ at + k
      → k < length bytes
      → get_or (written image at bytes) i 0 ≡ get_or bytes k 0
  get_or-written_in i k e h =
      get_or-append_right (take at image) (bytes ++ drop (at + length bytes) image) i k 0
        (omega (arith, length-take at image))
      ∙ get_or-append_left bytes (drop (at + length bytes) image) k 0 h

  pub get_or-written_out :
      (i : ℕ)
      → (i < at) ⊎ (at + length bytes ≤ i)
      → get_or (written image at bytes) i 0 ≡ get_or image i 0
  get_or-written_out i (inl h) =
      get_or-append_left (take at image) (bytes ++ drop (at + length bytes) image) i 0
        (omega (arith, length-take at image))
      ∙ get_or-take at image i 0 h
  get_or-written_out i (inr h) =
      let rest = drop (at + length bytes) image in
      let n = i - (at + length bytes) in
      get_or-append_right (take at image) (bytes ++ rest) i (length bytes + n) 0
        (omega (arith, length-take at image))
      ∙ (get_or-append_right bytes rest (length bytes + n) n 0 refl
          ∙ get_or-drop (at + length bytes) image n i 0 (omega arith))

  -- What is read in words outside the bytes written is what was there.
  pub word64-written_out :
      (i : ℕ)
      → (i + 8 ≤ at) ⊎ (at + length bytes ≤ i)
      → word64 (written image at bytes) i ≡ word64 image i
  word64-written_out i (inl h) = word64-cong (written image at bytes) image i i (λ p q k l e f.
      get_or-written_out p (inl (omega arith)) ∙ ap (λ n. get_or image n 0) (omega arith))
  word64-written_out i (inr h) = word64-cong (written image at bytes) image i i (λ p q k l e f.
      get_or-written_out p (inr (omega arith)) ∙ ap (λ n. get_or image n 0) (omega arith))

pub word64-written :
    (image : List ℕ) (at v : ℕ)
    → at + 8 ≤ length image
    → v < 2 ^ 64
    → word64 (written image at (le_bytes 8 v)) at ≡ v
unfolding le_bytes
word64-written image at v fits h =
    word64-cong (written image at (le_bytes 8 v)) (le_bytes 8 v) at 0 (λ p q k l e f.
      get_or-written_in image at (le_bytes 8 v) fits p q (omega arith) (omega arith))
    ∙ word64-le_bytes v h
