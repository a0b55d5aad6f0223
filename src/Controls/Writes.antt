-- ===== src/Controls/Writes.antt =====
-- libs/ntdll/ioctl.c: what the fields of a structure leave of a buffer.
use nloader.Base.{
  written_at, length-written_at, drop-written_at, take-drop-written_at, ℕ, ◌+◌, ◌-◌, ◌≤◌, ◌<◌, ◌≡◌,
  refl, ap, sym, ◌∙◌, none, some, List, [], ◌∷◌, ◌++◌, arith, length, take, drop, ◌⊎◌, leb,
  Bool-cases, All, inl, inr,
}
use nloader.Controls.{Field, write_at, fill}

pub write_at-cases :
    (i : ℕ) (bytes buffer : List ℕ)
    → ((length buffer < i + length bytes) × (write_at i bytes buffer ≡ none))
      ⊎ ((i + length bytes ≤ length buffer)
          × (write_at i bytes buffer ≡ some (written_at i bytes buffer)))
unfolding write_at
write_at-cases i bytes buffer = elim (Bool-cases (leb (i + length bytes) (length buffer))) [
  | inl l ↦ let fits : i + length bytes ≤ length buffer = ground arith in inr (fits, rw l refl)
  | inr l ↦ let out : length buffer < i + length bytes = ground arith in inl (out, rw l refl)
]

-- Every field ends within the first `n` bytes.
abbrev pub Fits : ℕ → List Field → Type 0
Fits n fields = All (λ (f : Field). f.0 + length f.1 ≤ n) fields

-- A buffer as another left it that wrote its first `n` bytes alone.
abbrev pub SameBehind : ℕ → List ℕ → List ℕ → Type 0
SameBehind n buffer output = (length output ≡ length buffer) × (drop n output ≡ drop n buffer)

pub fill-SameBehind :
    (n : ℕ) (fields : List Field) (buffer : List ℕ)
    → Fits n fields
    → n ≤ length buffer
    → (output : List ℕ) × (fill fields buffer ≡ some output) × SameBehind n buffer output
unfolding fill
fill-SameBehind n [] buffer h k = (buffer, refl, (refl, refl))
fill-SameBehind n ((i, bytes) ∷ rest) buffer h k = elim (write_at-cases i bytes buffer) [
  | inl (out, e) ↦ absurd (omega (arith, h.0, k, out))
  | inr (fits, e) ↦
      let same = length-written_at i bytes buffer fits in
      let (output, f, same') =
        fill-SameBehind n rest (written_at i bytes buffer) h.1 (omega (arith, same, k)) in
      let m = n - (i + length bytes) in
      let at : n ≡ i + length bytes + m = omega (arith, h.0) in
      (
        output,
        rw (fill, e) f,
        (
          same'.0 ∙ same,
          same'.1
              ∙ ap (λ k. drop k (written_at i bytes buffer)) at
              ∙ drop-written_at i m bytes buffer fits
              ∙ ap (λ k. drop k buffer) (sym at),
        ),
      )
]

-- A field behind the buffer is reached, or one in front of it.
pub fill-none :
    (fields : List Field) (i : ℕ) (bytes : List ℕ) (rest : List Field) (buffer : List ℕ)
    → length buffer < i + length bytes
    → fill (fields ++ ((i, bytes) ∷ rest)) buffer ≡ none
unfolding fill
fill-none [] i bytes rest buffer h = elim (write_at-cases i bytes buffer) [
  | inl (out, e) ↦ rw (fill, e) refl
  | inr (fits, e) ↦ absurd (omega (arith, h, fits))
]
fill-none ((j, xs) ∷ fields) i bytes rest buffer h = elim (write_at-cases j xs buffer) [
  | inl (out, e) ↦ rw (fill, e) refl
  | inr (fits, e) ↦
      rw (fill, e)
        (fill-none fields i bytes rest (written_at j xs buffer)
          (omega (arith, h, length-written_at j xs buffer fits)))
]

-- The field that is written last is read back.
pub fill-last :
    (n : ℕ) (fields : List Field) (i : ℕ) (bytes buffer : List ℕ)
    → Fits n fields
    → i + length bytes ≤ n
    → n ≤ length buffer
    → (output : List ℕ) × (fill (fields ++ ((i, bytes) ∷ [])) buffer ≡ some output)
      × (take (length bytes) (drop i output) ≡ bytes)
unfolding fill
fill-last n [] i bytes buffer h k l = elim (write_at-cases i bytes buffer) [
  | inl (out, e) ↦ absurd (omega (arith, k, l, out))
  | inr (fits, e) ↦ (
    written_at i bytes buffer,
    rw (fill, e) refl,
    take-drop-written_at i bytes buffer (omega (arith, fits)),
  )
]
fill-last n ((j, xs) ∷ fields) i bytes buffer h k l = elim (write_at-cases j xs buffer) [
  | inl (out, e) ↦ absurd (omega (arith, h.0, l, out))
  | inr (fits, e) ↦
      let (output, f, g) =
        fill-last n fields i bytes (written_at j xs buffer) h.1 k
          (omega (arith, l, length-written_at j xs buffer fits)) in
      (output, rw (fill, e) f, g)
]
