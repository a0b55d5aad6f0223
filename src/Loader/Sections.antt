-- ===== src/Loader/Sections.antt =====
-- loader.c: where the copies of the sections go.
use mathlib.Core.Path.{subst}
use nloader.Base.{
  ℕ, ◌+◌, ◌%◌, ◌^◌, ◌≤◌, ◌<◌, ◌≡◌, refl, sym, List, [], ◌∷◌, ◌++◌, arith, length, length-append,
  length-take, length-drop, take, drop, All, ltb, ◌==◌, if◌then◌else◌, Bool-cases, inl, inr,
}
use nloader.Loader.{
  unread, Result, accepted, refused, overrun, stuck, require, getb_ok, OptionalHeader, Section,
  pealign, pesalign, rva_of, vsz_of, image_extent, write_image, map_section, map_sections, ◌>>=◌,
}

write_image-inside :
    (image : List ℕ) (at : ℕ) (bytes : List ℕ)
    → at + length bytes ≤ length image
    → (image' : List ℕ) × (write_image image at bytes ≡ accepted image')
      × (length image' ≡ length image)
unfolding write_image
write_image-inside image at bytes h =
    let rest = drop (at + length bytes) image in
    (
      take at image ++ (bytes ++ rest),
      ground arith,
      omega (
        arith,
        length-append (take at image) (bytes ++ rest),
        length-append bytes rest,
        length-take at image,
        length-drop (at + length bytes) image,
        h,
      ),
    )

write_image-outside :
    (image : List ℕ) (at : ℕ) (bytes : List ℕ)
    → length image < at + length bytes
    → write_image image at bytes ≡ overrun
unfolding write_image
write_image-outside image at bytes h = ground arith

abbrev pub raw_of : OptionalHeader → Section → ℕ
raw_of opt s = pealign s.pointer_to_raw_data opt.file_align

abbrev pub rsz_of : OptionalHeader → Section → ℕ
rsz_of opt s = pesalign s.size_of_raw_data opt.file_align

length-raw :
    (file : List ℕ) (raw rsz : ℕ)
    → raw + rsz ≤ length file
    → length (take rsz (drop raw file)) ≡ rsz
length-raw file raw rsz h = omega (arith, length-take rsz (drop raw file), length-drop raw file)

-- The four ways in which the mapping of a section ends.
pub data Mapped (file : List ℕ) (raw rsz rva : ℕ) (image : List ℕ) (result : Result (List ℕ))
    : Type 0 where
  empty :
      raw ≡ 0
      → rsz ≡ 0
      → rva ≤ length image
      → result ≡ refused unread
      → Mapped file raw rsz rva image result
  truncated :
      length file < raw + rsz → result ≡ accepted image → Mapped file raw rsz rva image result
  copied :
      (image' : List ℕ)
      → 0 < raw + rsz
      → raw + rsz ≤ length file
      → rva + rsz ≤ length image
      → length image' ≡ length image
      → result ≡ accepted image'
      → Mapped file raw rsz rva image result
  outside :
      raw + rsz ≤ length file
      → length image < rva + rsz
      → result ≡ overrun
      → Mapped file raw rsz rva image result

-- `map_section` with its offsets given.
abbrev map_at : List ℕ → ℕ → ℕ → ℕ → List ℕ → Result (List ℕ)
map_at file raw rsz rva image =
    (if ltb (length file) (raw + rsz)
      then accepted image
      else write_image image rva (take rsz (drop raw file)))
    >>= λ image'. (require (getb_ok raw rsz) unread >>= λ _. accepted image')

map_at-Mapped :
    (file : List ℕ) (raw rsz rva : ℕ) (image : List ℕ)
    → Mapped file raw rsz rva image (map_at file raw rsz rva image)
unfolding getb_ok require
map_at-Mapped file raw rsz rva image = elim (Bool-cases (ltb (length file) (raw + rsz))) [
  | inl l ↦ let short : length file < raw + rsz = ground arith in truncated short (ground arith)
  | inr l ↦
      let whole : raw + rsz ≤ length file = ground arith in
      let size = length-raw file raw rsz whole in
      elim (Bool-cases (ltb (length image) (rva + rsz))) [
        | inl m ↦
            let out : length image < rva + rsz = ground arith in
            let o =
              write_image-outside image rva (take rsz (drop raw file)) (omega (arith, size)) in
            outside whole out (rw (l, o) refl)
        | inr m ↦
            let fits : rva + rsz ≤ length image = ground arith in
            let (image', w, n) =
              write_image-inside image rva (take rsz (drop raw file)) (omega (arith, size)) in
            elim (Bool-cases (raw + rsz == 0)) [
              | inl z ↦
                  let none_there : raw + rsz ≡ 0 = ground arith in
                  empty (omega arith) (omega arith) (omega arith) (rw (l, w, z) refl)
              | inr z ↦
                  let some_there : 0 < raw + rsz = ground arith in
                  copied image' some_there whole fits n (rw (l, w, z) refl)
            ]
      ]
]

-- A section whose data is not in the file is left as it is and no error is reported; one without
-- data at offset 0 of the file ends the load; any other is copied, and the copy leaves the image
-- exactly if the aligned raw size reaches behind its end.
pub map_section-Mapped :
    (file : List ℕ) (opt : OptionalHeader) (s : Section) (image : List ℕ)
    → Mapped file (raw_of opt s) (rsz_of opt s) (rva_of opt s) image (map_section file opt s image)
unfolding map_section
map_section-Mapped file opt s image =
    map_at-Mapped file (raw_of opt s) (rsz_of opt s) (rva_of opt s) image

-- The raw data of a section is no larger than the section, which ends within 32 bits.
abbrev pub RawFits : OptionalHeader → Section → Type 0
RawFits opt s = (rsz_of opt s ≤ vsz_of opt s) × (rva_of opt s + vsz_of opt s < 2 ^ 32)

image_extent-le :
    (opt : OptionalHeader) (secs : List Section) (size : ℕ) → size ≤ image_extent opt secs size
unfolding image_extent
image_extent-le opt [] size = omega arith
image_extent-le opt (s ∷ rest) size =
    let top = (rva_of opt s + vsz_of opt s) % 2 ^ 32 in
    let later = image_extent-le opt rest (if ltb size top then top else size) in
    ground (arith, later)

image_extent-top :
    (opt : OptionalHeader) (secs : List Section) (size : ℕ)
    → All (RawFits opt) secs
    → All (λ s. rva_of opt s + rsz_of opt s ≤ image_extent opt secs size) secs
unfolding image_extent
image_extent-top opt [] size h = tt
image_extent-top opt (s ∷ rest) size h =
    let top = (rva_of opt s + vsz_of opt s) % 2 ^ 32 in
    let next = if ltb size top then top else size in
    let (r, v) : (rsz_of opt s ≤ vsz_of opt s) × (rva_of opt s + vsz_of opt s < 2 ^ 32) = h.0 in
    let reach : top ≤ next = ground arith in
    (omega (arith, image_extent-le opt rest next, reach, r, v), image_extent-top opt rest next h.1)

-- No copy leaves the image.
abbrev pub Inside : Result (List ℕ) → Type 0
Inside (accepted image) = Unit
Inside (refused why) = Unit
Inside overrun = ⊥
Inside stuck = ⊥

map_sections-within :
    (file : List ℕ) (opt : OptionalHeader) (secs : List Section) (image : List ℕ)
    → All (λ s. rva_of opt s + rsz_of opt s ≤ length image) secs
    → Inside (map_sections file opt secs image)
unfolding map_sections
map_sections-within file opt [] image h = tt
map_sections-within file opt (s ∷ rest) image h = elim (map_section-Mapped file opt s image) [
  | empty a b c e ↦ rw e tt
  | truncated a e ↦ rw e (map_sections-within file opt rest image h.1)
  | copied image' a b c n e ↦ rw e (
      map_sections-within file opt rest image'
        (subst (λ m. All (λ s. rva_of opt s + rsz_of opt s ≤ m) rest) (sym n) h.1))
  | outside a b e ↦ absurd (omega (arith, b, h.0))
]

-- If no section has, both aligned, more raw data than its size, and every section ends within 32
-- bits, all copies stay inside the image of the size that the first loop computes.
pub map_sections-Inside :
    (file : List ℕ) (opt : OptionalHeader) (secs : List Section) (image : List ℕ)
    → All (RawFits opt) secs
    → length image ≡ image_extent opt secs 0
    → Inside (map_sections file opt secs image)
map_sections-Inside file opt secs image h e = map_sections-within file opt secs image (
    subst (λ m. All (λ s. rva_of opt s + rsz_of opt s ≤ m) secs) (sym e)
      (image_extent-top opt secs 0 h))
