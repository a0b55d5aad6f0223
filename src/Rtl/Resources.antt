-- ===== src/Rtl/Resources.antt =====
-- libs/ntdll/rtl.c: `RtlFindMessage`, which walks the resources of an image to its message table.
-- The image is the list of the bytes from `hmod` on, and a pointer into it an offset; `none` is an
-- access outside it. The structures are read at the offsets of their fields (ntdll.h).
pub mod Ways
pub mod Walks
pub mod Blocks
pub mod Texts
use nloader.Base.{
  ℕ, zero, suc, ◌+◌, ◌-◌, ◌*◌, ◌/◌, ◌%◌, ◌^◌, Bool, true, false, ◌&&◌, ◌||◌, Option, none, some,
  List, [], ◌∷◌, ◌++◌, ltb, leb, ◌==◌, if◌then◌else◌, drop, length, replicate,
}
use nloader.Loader.{word16, word32}
use nloader.Rtl.{◌>>=◌, copy_from, unicode_to_oem_n}

unfoldable pub load16 : List ℕ → ℕ → Option ℕ
unfolding word16
load16 image at = if leb (at + 2) (length image) then some (word16 image at) else none

unfoldable pub load32 : List ℕ → ℕ → Option ℕ
unfolding word32
load32 image at = if leb (at + 4) (length image) then some (word32 image at) else none

-- The variables of the loop: `level`, `rd`, `i` and `len`.
pub record Walk : Type 0 where
  pub level : ℕ
  pub rd : ℕ
  pub i : ℕ
  pub len : ℕ

-- After a round the loop goes on, or it ends with what `rde` is then.
pub data Next : Type 0 where
  more : Walk → Next
  ends : Option ℕ → Next

-- `cur`: a directory of 16 bytes has entries of 8 bytes behind it.
unfoldable pub current : Walk → ℕ
current w = w.rd + 16 + 8 * w.i

-- `NameIsString` and `DataIsDirectory` are the highest bits of their words.
unfoldable pub high_bit : ℕ → Bool
high_bit word = word / 2 ^ 31 % 2 == 1

-- `!cur->NameIsString && cur->DataIsDirectory`
unfoldable pub is_directory : List ℕ → Walk → ℕ → Option Bool
unfolding load32 current high_bit
is_directory image w name =
    let data_bit = load32 image (current w + 4) >>= λ word. some (high_bit word) in
    if high_bit name then some false else data_bit

-- `(i < len) && (level < 4)`
unfoldable pub settle : Walk → Next
settle w = if ltb w.i w.len && ltb w.level 4 then more w else ends none

unfoldable pub number_of_entries : List ℕ → ℕ → Option ℕ
unfolding load16
number_of_entries image rd = do
  named ← load16 image (rd + 12)
  ids ← load16 image (rd + 14)
  some (named + ids)

-- `rd = root + cur->OffsetToDirectory`, one level further down.
unfoldable pub descend : List ℕ → ℕ → Walk → Option Next
unfolding load32 current number_of_entries settle
descend image root w = do
  word ← load32 image (current w + 4)
  let below = root + word % 2 ^ 31
  count ← number_of_entries image below
  some (settle (record { level = suc (w.level); rd = below; i = 0; len = count }))

-- `rde = root + cur->OffsetToData`
unfoldable pub leaf : List ℕ → ℕ → Walk → Option Next
unfolding load32 current
leaf image root w = load32 image (current w + 4) >>= λ word. some (ends (some (root + word)))

-- The next entry of the same directory.
unfoldable pub advance : Walk → Next
unfolding settle
advance w = settle (record w { i = suc (w.i) })

-- `(level == 1 && Id == type) || (level == 2 && Id == 1)`
unfoldable pub goes_down : ℕ → ℕ → ℕ → Bool
goes_down type level id = (level == 1 && id == type) || (level == 2 && id == 1)

-- `level == 3 && (!lang || Id == lang)`
unfoldable pub is_leaf : ℕ → ℕ → ℕ → Bool
is_leaf lang level id = level == 3 && (lang == 0 || id == lang)

-- A round at an entry that is a directory, or is not.
unfoldable pub at_entry : List ℕ → ℕ → ℕ → ℕ → Walk → ℕ → Bool → Option Next
unfolding descend leaf advance goes_down is_leaf
at_entry image root type lang w id true =
    if goes_down type w.level id then descend image root w else some (advance w)
at_entry image root type lang w id false =
    if is_leaf lang w.level id then leaf image root w else some (advance w)

-- A round of the loop, with its condition.
unfoldable pub walk_round : List ℕ → ℕ → ℕ → ℕ → Walk → Option Next
unfolding load32 current is_directory at_entry
walk_round image root type lang w = do
  name ← load32 image (current w)
  directory ← is_directory image w name
  at_entry image root type lang w (name % 2 ^ 16) directory

-- How the walk ends: with `rde`, or outside the image, or without fuel.
pub data Walked : Type 0 where
  at : ℕ → Walked
  nowhere : Walked
  outside : Walked
  stuck : Walked

unfoldable pub walk_resources : ℕ → List ℕ → ℕ → ℕ → ℕ → Walk → Walked
unfolding walk_round
walk_resources zero image root type lang w = stuck
walk_resources (suc fuel) image root type lang w = elim (walk_round image root type lang w) [
  | none ↦ outside
  | some (more w') ↦ walk_resources fuel image root type lang w'
  | some (ends none) ↦ nowhere
  | some (ends (some rde)) ↦ at rde
]

-- `for (i = msg_id - block->LowId; i > 0; i--)`: an entry has its length in front.
unfoldable pub skip_entries : List ℕ → ℕ → ℕ → Option ℕ
unfolding load16
skip_entries image zero entry = some entry
skip_entries image (suc n) entry =
    load16 image entry >>= λ size. skip_entries image n (entry + size)

-- `msg_id >= block->LowId && msg_id <= block->HighId`
unfoldable pub in_block : List ℕ → ℕ → ℕ → Option Bool
unfolding load32
in_block image id block =
    let below_high = load32 image (block + 4) >>= λ high. some (leb id high) in
    load32 image block >>= λ low. if leb low id then below_high else some false

-- The entry of a message in the block that has it.
unfoldable pub entry_in : List ℕ → ℕ → ℕ → ℕ → Option ℕ
unfolding load32 skip_entries
entry_in image id data_at block = do
  low ← load32 image block
  offset ← load32 image (block + 8)
  skip_entries image (id - low) (data_at + offset)

-- The loop over the blocks of 12 bytes: the entry, if a block has the message.
unfoldable pub find_block : ℕ → List ℕ → ℕ → ℕ → ℕ → Option (Option ℕ)
unfolding in_block entry_in
find_block zero image id data_at block = some none
find_block (suc n) image id data_at block =
    let rest = find_block n image id data_at (block + 12) in
    in_block image id block >>= λ inside.
    if inside then (entry_in image id data_at block >>= λ entry. some (some entry)) else rest

unfoldable pub units : List ℕ → List ℕ
units [] = []
units (a ∷ []) = []
units (a ∷ b ∷ rest) = (a + 256 * b) ∷ units rest

-- `munge`: it runs to the zero.
unfoldable pub munge : List ℕ → Option (List ℕ)
munge [] = none
munge (c ∷ rest) =
    let later = munge rest >>= λ rest'. some ((if c == 13 || c == 10 then 46 else c) ∷ rest') in
    if c == 0 then some (c ∷ rest) else later

-- `DECLAREVARCONV(message)`
abbrev pub conversion_size : ℕ
conversion_size = 1024

abbrev pub fresh_message : List ℕ
fresh_message = b'(' ∷ b'n' ∷ b'i' ∷ b'l' ∷ b')' ∷ replicate 1019 0

-- The text of an entry for the log, which is converted whether there is a log or not.
unfoldable pub log_text : List ℕ → ℕ → Option (List ℕ)
unfolding load16 copy_from unicode_to_oem_n units munge
log_text image entry = do
  flags ← load16 image (entry + 2)
  size ← load16 image entry
  let text = drop (entry + 4) image
  let wide = unicode_to_oem_n fresh_message conversion_size (some (units text)) size
  let count = if ltb size conversion_size then size else conversion_size
  let converted =
      if flags % 2 == 1
      then (wide >>= λ r. some (r.1.0))
      else copy_from (λ b. b) count text fresh_message 0
  converted >>= munge

pub data Found : Type 0 where
  found : ℕ → Found
  not_found : Found
  access_violation : Found
  undefined : Found
  unfinished : Found

-- The entry in the message table at `data_at`.
unfoldable pub find_entry : List ℕ → ℕ → ℕ → Option (Option ℕ)
unfolding load32 find_block
find_entry image id data_at =
    load32 image data_at >>= λ count. find_block count image id data_at (data_at + 4)

unfoldable pub finish_found : List ℕ → Option (Option ℕ) → Found
unfolding log_text
finish_found image none = undefined
finish_found image (some none) = not_found
finish_found image (some (some entry)) = elim (log_text image entry) [
  | none ↦ undefined
  | some _ ↦ found entry
]

-- What `rde` leads to. The offset in it is one from `hmod`.
unfoldable pub find_in : List ℕ → ℕ → Walked → Found
unfolding load32 find_entry finish_found
find_in image id (at rde) =
    finish_found image (load32 image rde >>= λ data_at. find_entry image id data_at)
find_in image id nowhere = not_found
find_in image id outside = undefined
find_in image id stuck = unfinished

-- The place and the size of the resources in the headers.
unfoldable pub resource_directory : List ℕ → Option (ℕ × ℕ)
unfolding load32
resource_directory image = do
  header ← load32 image 0x3c
  size ← load32 image (header + 24 + 132)
  root ← load32 image (header + 24 + 128)
  some (root, size)

-- `RtlFindMessage`; `has_ret` says that `ret` is not null.
unfoldable pub find_message : List ℕ → ℕ → ℕ → ℕ → Bool → Found
unfolding number_of_entries walk_resources find_in resource_directory
find_message image type lang id false = access_violation
find_message image type lang id true = elim (resource_directory image) [
  | none ↦ undefined
  | some (root, zero) ↦ not_found
  | some (root, suc _) ↦ elim (number_of_entries image root) [
    | none ↦ undefined
    | some count ↦ find_in image id (
        walk_resources (3 * suc (length image)) image root type lang
          (record { level = 1; rd = root; i = 0; len = count }))
  ]
]
