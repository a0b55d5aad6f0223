-- ===== src/Controls/Layout.antt =====
-- libs/ntdll/ioctl.c: the layouts of a drive, and its geometry.
use nloader.Base.{
  ℕ, ◌+◌, ◌*◌, ◌/◌, ◌%◌, ◌^◌, ◌≤◌, ◌<◌, ◌≡◌, refl, ap, sym, ◌∙◌, false, List, [], ◌∷◌, ◌++◌, arith,
  length, take, ltb, replicate, Bool-cases, inl, inr, ◌⊎◌,
}
use nloader.Registry.{le32}
use nloader.Controls.{
  invalid_parameter, buffer_too_small, StatusBlock, File, Outcome, fault, Field, shifted, le64,
  report, succeed, answer,
}
use nloader.Controls.Disk.{
  get_drive_layout, get_drive_layout_ex, get_drive_geometry, geometry_of, geometry_fields,
  Partition, partition_of, partition_ex_fields, partition_fields, layout_fields, layout_ex_fields,
  drive_geometry, control,
}
use nloader.Controls.Writes.{Fits, SameBehind, fill-SameBehind, fill-none, fill-last}

-- How a control ends that checks for `n` bytes and writes `m`.
pub data LayoutEnds (n m : ℕ) (b : StatusBlock) (buffer : List ℕ) (result : Outcome) : Type 0 where
  too_small :
      length buffer < n → result ≡ report buffer_too_small b buffer → LayoutEnds n m b buffer result
  behind : n ≤ length buffer → length buffer < m → result ≡ fault → LayoutEnds n m b buffer result
  laid_out :
      (output : List ℕ)
      → m ≤ length buffer
      → SameBehind m buffer output
      → result ≡ succeed n output
      → LayoutEnds n m b buffer result

answer-LayoutEnds :
    (n m : ℕ) (fields : List Field) (i : ℕ) (bytes : List ℕ) (b : StatusBlock) (buffer : List ℕ)
    → Fits m (fields ++ ((i, bytes) ∷ []))
    → i + length bytes ≡ m
    → n ≤ m
    → LayoutEnds n m b buffer (answer n (fields ++ ((i, bytes) ∷ [])) (length buffer) b buffer)
unfolding answer
answer-LayoutEnds n m fields i bytes b buffer h e below =
    elim (Bool-cases (ltb (length buffer) n)) [
      | inl l ↦ let short : length buffer < n = ground arith in too_small short (rw l refl)
      | inr l ↦
          let room : n ≤ length buffer = ground arith in
          elim (Bool-cases (ltb (length buffer) m)) [
            | inl k ↦
                let short : length buffer < m = ground arith in
                behind room short
                  (rw (l, fill-none fields i bytes [] buffer (omega (arith, e, short))) refl)
            | inr k ↦
                let whole : m ≤ length buffer = ground arith in
                let (output, f, same) =
                  fill-SameBehind m (fields ++ ((i, bytes) ∷ [])) buffer h whole in
                laid_out output whole same (rw (l, f) refl)
          ]
    ]

layout_fields-Fits : (p : Partition) → Fits 136 (layout_fields p)
unfolding layout_fields partition_fields le64 le32
layout_fields-Fits p = omega arith

layout_ex_fields-Fits : (p : Partition) → Fits 624 (layout_ex_fields p)
unfolding layout_ex_fields partition_ex_fields le64 le32
layout_ex_fields-Fits p = omega arith

-- The layout of a drive is checked for 72 bytes, but has 136, and the extended one for 336, but has
-- 624: a buffer of less than the first size is refused and left as it is; behind one of less than the
-- second the layout is written; a larger one gets it with success, and the bytes behind it stay.
pub control-LayoutEnds :
    (f : File) (b : StatusBlock) (buffer : List ℕ)
    → LayoutEnds 72 136 b buffer (control get_drive_layout f (length buffer) b buffer)
      × LayoutEnds 336 624 b buffer (control get_drive_layout_ex f (length buffer) b buffer)
unfolding control layout_fields layout_ex_fields
control-LayoutEnds f b buffer = (
  answer-LayoutEnds 72 136
      ((0, replicate 40 0)
        ∷ (0, le32 4)
        ∷ (4, le32 0)
        ∷ shifted 8 (partition_fields (partition_of f)))
      40 (replicate 96 0) b buffer (layout_fields-Fits (partition_of f)) (omega arith)
      (omega arith),
  answer-LayoutEnds 336 624
      ((0, replicate 192 0)
        ∷ (0, le32 0)
        ∷ (4, le32 4)
        ∷ (8, le32 0)
        ∷ shifted 48 (partition_ex_fields (partition_of f)))
      192 (replicate 432 0) b buffer (layout_ex_fields-Fits (partition_of f)) (omega arith)
      (omega arith),
)

-- The number that bytes stand for, the lowest first.
abbrev pub value : List ℕ → ℕ
value [] = 0
value (x ∷ xs) = x + 256 * value xs

length-le64 : (n : ℕ) → length (le64 n) ≡ 8
unfolding le64 le32
length-le64 n = refl

value-le64 : (n : ℕ) → value (le64 n) ≡ n % 2 ^ 64
unfolding le64 le32
value-le64 n = omega arith

-- The geometry of a disk of at least a cylinder is written with success, and the whole of its
-- cylinders is more than the disk, but by at most one cylinder: where the disk has less than 2 to
-- the 63 bytes, and the buffer has room. A smaller disk is refused.
pub drive_geometry-cylinders :
    (f : File) (b : StatusBlock) (buffer : List ℕ)
    → f.size < 2 ^ 63
    → 24 ≤ length buffer
    → (output : List ℕ) × ((8225280 ≤ f.size)
          × (control get_drive_geometry f (length buffer) b buffer ≡ succeed 24 output)
          × (f.size < value (take 8 output) * 8225280)
          × (value (take 8 output) * 8225280 ≤ f.size + 8225280)
        ⊎ (f.size < 8225280)
          × (control get_drive_geometry f (length buffer) b buffer
              ≡ report invalid_parameter b output))
unfolding control drive_geometry geometry_of geometry_fields
drive_geometry-cylinders f b buffer small room =
    let g = geometry_of f in
    let (output, e, last) =
      fill-last 24
        ((8, le32 g.media_type)
          ∷ (12, le32 g.tracks_per_cylinder)
          ∷ (16, le32 g.sectors_per_track)
          ∷ (20, le32 g.bytes_per_sector)
          ∷ [])
        0 (le64 g.cylinders) buffer (unfold le32 in omega arith)
        (omega (arith, length-le64 g.cylinders)) room in
    let c : value (take 8 output) ≡ 1 + f.size / 8225280 =
      ap (λ k. value (take k output)) (sym (length-le64 g.cylinders))
      ∙ ap value last
      ∙ value-le64 g.cylinders
      ∙ omega (arith, small) in
    let enough : ltb (length buffer) 24 ≡ false = ground arith in
    elim (Bool-cases (ltb (1 + f.size / 8225280) 2)) [
      | inl l ↦
          let tiny : f.size < 8225280 = ground arith in (output, inr (tiny, rw (enough, e, l) refl))
      | inr l ↦
          let large : 8225280 ≤ f.size = ground arith in
          (
            output,
            inl (large, rw (drive_geometry, enough, e, l) refl, omega (arith, c), omega (arith, c)),
          )
    ]
