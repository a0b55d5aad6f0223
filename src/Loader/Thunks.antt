-- ===== src/Loader/Thunks.antt =====
-- loader.c: what the loop that patches the imports leaves in the image and in the stubs.
use nloader.Base.{
  ℕ, suc, ◌+◌, ◌*◌, ◌^◌, ◌≤◌, ◌<◌, ◌≡◌, refl, ap, ◌∙◌, ◌⊎◌, inl, inr, List, [], ◌∷◌, arith, length,
  get_or, All, All-imp, true, ltb, Bool-cases,
}
use nloader.Loader.{accepted, word64, require}
use nloader.Loader.Imports.{Import, is_contained}
use nloader.Loader.Patch.{patch, emit_stub, le_bytes}
use nloader.Loader.Bytes.{
  written, length-written, write_image-written, get_or-written_in, get_or-written_out, word64-cong,
  word64-written,
}

-- The place of an import lies in the image.
abbrev pub Fits : List ℕ → Import → Type 0
Fits image imp = imp.thunk + 8 ≤ length image

abbrev pub Beside : ℕ → Import → Type 0
Beside p imp = (p < imp.thunk) ⊎ (imp.thunk + 8 ≤ p)

-- No two places overlap.
abbrev pub Apart : List Import → Type 0
Apart [] = Unit {0}
Apart (imp ∷ rest) =
    All (λ o. (imp.thunk + 8 ≤ o.thunk) ⊎ (o.thunk + 8 ≤ imp.thunk)) rest × Apart rest

-- Each place holds the address of the stub with its number.
abbrev pub Thunks : ℕ → List Import → ℕ → List ℕ → Type 0
Thunks stubs [] i image = Unit {0}
Thunks stubs (imp ∷ rest) i image =
    (word64 image imp.thunk ≡ stubs + i * 18) × Thunks stubs rest (i + 1) image

pub record IsPatched (stubs dispatch : ℕ) (imports : List Import) (i : ℕ)
    (memory image memory' image' : List ℕ) : Type 0 where
  pub thunks_hold : Thunks stubs imports i image'
  pub stubs_hold :
      (j k p : ℕ)
      → i ≤ j
      → j < i + length imports
      → k < 18
      → p ≡ j * 18 + k
      → get_or memory' p 0 ≡ get_or (emit_stub dispatch j) k 0
  pub stubs_kept : (p : ℕ) → p < i * 18 → get_or memory' p 0 ≡ get_or memory p 0
  pub image_kept : (p : ℕ) → All (Beside p) imports → get_or image' p 0 ≡ get_or image p 0
  pub image_size : length image' ≡ length image
  pub stubs_size : length memory' ≡ length memory

Beside-apart :
    (imp : Import) (rest : List Import) (p : ℕ)
    → imp.thunk ≤ p
    → p < imp.thunk + 8
    → All (λ o. (imp.thunk + 8 ≤ o.thunk) ⊎ (o.thunk + 8 ≤ imp.thunk)) rest
    → All (Beside p) rest
Beside-apart imp rest p lo hi = All-imp _ (Beside p) one rest
  where
    one :
        (o : Import)
        → (imp.thunk + 8 ≤ o.thunk) ⊎ (o.thunk + 8 ≤ imp.thunk)
        → (p < o.thunk) ⊎ (o.thunk + 8 ≤ p)
    one o (inl h) = inl (omega arith)
    one o (inr h) = inr (omega arith)

is_contained-fits :
    (image : List ℕ) (at : ℕ) → at + 8 ≤ length image → is_contained image at 8 ≡ true
unfolding is_contained
is_contained-fits image at h = ground arith

module _ (stubs dispatch : ℕ) where
  abbrev pub Patched : List Import → ℕ → List ℕ → List ℕ → Type 0
  Patched imports i memory image =
      (memory' : List ℕ) × (image' : List ℕ) × (patch stubs dispatch imports i memory image
        ≡ accepted (memory', image'))
      × IsPatched stubs dispatch imports i memory image memory' image'

  length-emit_stub : (i : ℕ) → length (emit_stub dispatch i) ≡ 18
  unfolding emit_stub le_bytes
  length-emit_stub i = refl

  memory_with : ℕ → List ℕ → List ℕ
  memory_with i memory = written memory (i * 18) (emit_stub dispatch i)

  image_with : Import → ℕ → List ℕ → List ℕ
  image_with imp i image = written image imp.thunk (le_bytes 8 (stubs + i * 18))

  module _ (imp : Import) (rest : List Import) (i : ℕ) (memory image : List ℕ)
      (fits : Fits image imp)
      (apart : All (λ o. (imp.thunk + 8 ≤ o.thunk) ⊎ (o.thunk + 8 ≤ imp.thunk)) rest)
      (room : (i + 1) * 18 ≤ length memory) (wraps : stubs + (i + 1) * 18 ≤ 2 ^ 64) where
    room_there : i * 18 + length (emit_stub dispatch i) ≤ length memory
    room_there = omega (arith, length-emit_stub i)

    first_stub :
        (memory' image' : List ℕ)
        → IsPatched stubs dispatch rest
            (i + 1)
            (memory_with i memory)
            (image_with imp i image)
            memory'
            image'
        → (j k q : ℕ) → i ≤ j
        → j < i + length (imp ∷ rest)
        → k < 18
        → q ≡ j * 18 + k
        → get_or memory' q 0 ≡ get_or (emit_stub dispatch j) k 0
    unfolding memory_with
    first_stub memory' image' p j k q lo hi small e = elim (Bool-cases (ltb i j)) [
      | inl l ↦
          let above : i < j = ground arith in p.stubs_hold j k q (omega arith) (omega arith) small e
      | inr l ↦
          let here : i ≡ j = ground arith in
          p.stubs_kept q (omega arith)
          ∙ get_or-written_in memory (i * 18) (emit_stub dispatch i) room_there q k (omega arith)
              (omega (arith, length-emit_stub i))
          ∙ ap (λ n. get_or (emit_stub dispatch n) k 0) here
    ]

    first_thunk :
        (memory' image' : List ℕ)
        → IsPatched stubs dispatch rest
            (i + 1)
            (memory_with i memory)
            (image_with imp i image)
            memory'
            image'
        → word64 image' imp.thunk ≡ stubs + i * 18
    unfolding image_with
    first_thunk memory' image' p =
        word64-cong image' (image_with imp i image) imp.thunk imp.thunk (λ q r k l e f.
          p.image_kept q (Beside-apart imp rest q (omega arith) (omega arith) apart)
          ∙ ap (λ n. get_or (image_with imp i image) n 0) (omega arith))
        ∙ word64-written image imp.thunk (stubs + i * 18) fits (omega arith)

    -- One import is patched, and those behind it leave its place alone.
    IsPatched-first :
        (memory' image' : List ℕ)
        → IsPatched stubs dispatch rest
            (i + 1)
            (memory_with i memory)
            (image_with imp i image)
            memory'
            image'
        → IsPatched stubs dispatch (imp ∷ rest) i memory image memory' image'
    unfolding memory_with image_with le_bytes
    IsPatched-first memory' image' p = record {
      thunks_hold = (first_thunk memory' image' p, p.thunks_hold);
      stubs_hold = first_stub memory' image' p;
      stubs_kept = λ q h.
          p.stubs_kept q (omega arith)
          ∙ get_or-written_out memory (i * 18) (emit_stub dispatch i) room_there q (inl h);
      image_kept = λ q h.
          p.image_kept q h.1
          ∙ get_or-written_out image imp.thunk (le_bytes 8 (stubs + i * 18)) fits q h.0;
      image_size = p.image_size ∙ length-written image imp.thunk (le_bytes 8 (stubs + i * 18)) fits;
      stubs_size = p.stubs_size ∙ length-written memory (i * 18) (emit_stub dispatch i) room_there;
    }

    -- A round of the loop writes both.
    patch_round :
        patch stubs dispatch (imp ∷ rest) i memory image
        ≡ patch stubs dispatch rest (i + 1) (memory_with i memory) (image_with imp i image)
    unfolding patch memory_with image_with le_bytes require
    patch_round = rw (is_contained-fits image imp.thunk fits) (
        rw (write_image-written memory (i * 18) (emit_stub dispatch i) room_there)
          (rw (write_image-written image imp.thunk (le_bytes 8 (stubs + i * 18)) fits) refl))

  Fits-kept :
      (imp : Import) (rest : List Import) (i : ℕ) (image : List ℕ)
      → Fits image imp
      → All (Fits image) rest
      → All (Fits (image_with imp i image)) rest
  unfolding image_with le_bytes
  Fits-kept imp rest i image fits h =
      let same = length-written image imp.thunk (le_bytes 8 (stubs + i * 18)) fits in
      All-imp (Fits image) _ (λ o f. omega (arith, same)) rest h

  room_kept :
      (i : ℕ) (memory : List ℕ) (rest : List Import)
      → (i + 1) * 18 ≤ length memory
      → (i + suc (length rest)) * 18 ≤ length memory
      → (i + 1 + length rest) * 18 ≤ length (memory_with i memory)
  unfolding memory_with
  room_kept i memory rest room h = omega (
    arith,
    length-written memory (i * 18) (emit_stub dispatch i) (omega (arith, length-emit_stub i)),
  )

  pub Patched-imports :
      (imports : List Import) (i : ℕ) (memory image : List ℕ)
      → All (Fits image) imports
      → Apart imports
      → (i + length imports) * 18 ≤ length memory
      → stubs + (i + length imports) * 18 ≤ 2 ^ 64
      → Patched imports i memory image
  unfolding patch
  Patched-imports [] i memory image fits apart room wraps = (
    memory,
    image,
    refl,
    record {
      thunks_hold = tt;
      stubs_hold = λ j k q lo hi small e. absurd (omega arith);
      stubs_kept = λ q h. refl;
      image_kept = λ q h. refl;
      image_size = refl;
      stubs_size = refl;
    },
  )
  Patched-imports (imp ∷ rest) i memory image fits apart room wraps =
      let (memory', image', e, p) =
        Patched-imports rest (i + 1) (memory_with i memory) (image_with imp i image)
          (Fits-kept imp rest i image fits.0 fits.1) apart.1
          (room_kept i memory rest (omega arith) room) (omega arith) in
      (
        memory',
        image',
        patch_round imp rest i memory image fits.0 apart.0 (omega arith) (omega arith) ∙ e,
        IsPatched-first imp rest i memory image fits.0 apart.0 (omega arith) (omega arith) memory'
            image' p,
      )
