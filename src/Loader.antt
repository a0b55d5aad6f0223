-- ===== src/Loader.antt =====
-- loader.c: the part of `setup_nloader` that reads the headers of a PE image and maps its sections,
-- for x86_64.
-- The file is the list of its bytes. `page` is what `getpagesize` returns, and `mapped` says whether
-- `mmap` succeeds for an image of the size given. The structures are read at the offsets of their
-- fields (nt_structs.h). `overrun` is an access outside a buffer, which C leaves
-- undefined, and `stuck` a loop that has used up its fuel.
pub mod Imports
pub mod Patch
pub mod Ends
pub mod Bytes
pub mod Thunks
pub mod Places
pub mod Names
pub mod Sections
use nloader.Base.{
  ℕ, zero, suc, ◌+◌, ◌*◌, ◌/◌, ◌%◌, ◌^◌, Bool, true, false, not, ◌&&◌, List, [], ◌∷◌, ◌++◌, ltb,
  leb, ◌==◌, if◌then◌else◌, length, take, drop, replicate, get_or,
}

pub data Refused : Type 0 where
  unread : Refused
  bad_mz_magic : Refused
  bad_pe_magic : Refused
  bad_arch : Refused
  bad_section_count : Refused
  opt_hdr_too_small : Refused
  bad_opt_magic : Refused
  not_native : Refused
  unexpected_dir_count : Refused
  unaligned_image_base : Refused
  section_alignment : Refused
  not_mapped : Refused
  descriptor_out_of_image : Refused
  borland_import : Refused
  thunk_out_of_image : Refused
  api_out_of_image : Refused
  no_stubs : Refused
  not_protected : Refused

pub data Result (A : Type 0) : Type 0 where
  accepted : A → Result A
  refused : Refused → Result A
  overrun : Result A
  stuck : Result A

infixl 5 ◌>>=◌
abbrev pub ◌>>=◌ :
    {From : Type 0} {Into : Type 0} → Result From → (From → Result Into) → Result Into
accepted x >>= next = next x
refused why >>= next = refused why
overrun >>= next = overrun
stuck >>= next = stuck

unfoldable pub require : Bool → Refused → Result Unit
require true why = accepted tt
require false why = refused why

-- The checks in order: the first that fails is reported.
unfoldable pub require_all : List (Bool × Refused) → Result Unit
unfolding require
require_all [] = accepted tt
require_all ((test, why) ∷ rest) = require test why >>= λ _. require_all rest

-- `GETB`: the destination keeps its bytes, `old`, if the file is too short.
unfoldable pub get_bytes : List ℕ → ℕ → ℕ → List ℕ → List ℕ
get_bytes file offset size old =
    if ltb (length file) (offset + size) then old else take size (drop offset file)

-- `!GETB(...)`: the value of the macro is that of its comma, the offset behind what was read.
unfoldable pub getb_ok : ℕ → ℕ → Bool
getb_ok offset size = not (offset + size == 0)

unfoldable pub word16 : List ℕ → ℕ → ℕ
word16 bytes at = get_or bytes at 0 + 256 * get_or bytes (at + 1) 0

unfoldable pub word32 : List ℕ → ℕ → ℕ
unfolding word16
word32 bytes at = word16 bytes at + 2 ^ 16 * word16 bytes (at + 2)

unfoldable pub word64 : List ℕ → ℕ → ℕ
unfolding word32
word64 bytes at = word32 bytes at + 2 ^ 32 * word32 bytes (at + 4)

pub record FileHeader : Type 0 where
  pub magic : ℕ
  pub machine : ℕ
  pub number_of_sections : ℕ
  pub size_of_optional_header : ℕ

pub record OptionalHeader : Type 0 where
  pub opt_magic : ℕ
  pub image_base : ℕ
  pub section_align : ℕ
  pub file_align : ℕ
  pub subsystem : ℕ
  pub size_of_headers : ℕ
  pub number_of_rva_and_sizes : ℕ
  pub import_rva : ℕ
  pub import_size : ℕ

pub record Section : Type 0 where
  pub virtual_size : ℕ
  pub virtual_address : ℕ
  pub size_of_raw_data : ℕ
  pub pointer_to_raw_data : ℕ
  pub characteristics : ℕ

unfoldable pub file_header : List ℕ → FileHeader
unfolding word16 word32
file_header bytes = record {
  magic = word32 bytes 0;
  machine = word16 bytes 4;
  number_of_sections = word16 bytes 6;
  size_of_optional_header = word16 bytes 20;
}

unfoldable pub optional_header : List ℕ → OptionalHeader
unfolding word16 word32 word64
optional_header bytes = record {
  opt_magic = word16 bytes 0;
  image_base = word64 bytes 24;
  section_align = word32 bytes 32;
  file_align = word32 bytes 36;
  subsystem = word16 bytes 68;
  size_of_headers = word32 bytes 60;
  number_of_rva_and_sizes = word32 bytes 108;
  import_rva = word32 bytes 120;
  import_size = word32 bytes 124;
}

unfoldable pub section_headers : ℕ → List ℕ → List Section
unfolding word32
section_headers zero bytes = []
section_headers (suc n) bytes =
    record {
      virtual_size = word32 bytes 8;
      virtual_address = word32 bytes 12;
      size_of_raw_data = word32 bytes 16;
      pointer_to_raw_data = word32 bytes 20;
      characteristics = word32 bytes 36;
    }
    ∷ section_headers n (drop 40 bytes)

-- `PEALIGN` and `PESALIGN`, on 32 bits.
unfoldable pub pealign : ℕ → ℕ → ℕ
pealign o a = if a == 0 then o else (o / a * a) % 2 ^ 32

unfoldable pub pesalign : ℕ → ℕ → ℕ
pesalign o a = if a == 0 then o else ((o / a + (if o % a == 0 then 0 else 1)) * a) % 2 ^ 32

abbrev pub file_header_size : ℕ
file_header_size = 24

abbrev pub optional_header_size : ℕ
optional_header_size = 240

abbrev pub section_header_size : ℕ
section_header_size = 40

-- The offset of the PE header: `pe_off` holds the first bytes of the file if the second read fails.
unfoldable pub pe_offset : List ℕ → Result ℕ
unfolding require get_bytes getb_ok word16 word32
pe_offset file = do
  _ ← require (getb_ok 0 4) unread
  let mz = get_bytes file 0 4 (replicate 4 0)
  _ ← require (word16 mz 0 == 0x5a4d) bad_mz_magic
  _ ← require (getb_ok 0x3c 4) unread
  accepted (word32 (get_bytes file 0x3c 4 mz) 0)

unfoldable pub file_header_checks : ℕ → FileHeader → List (Bool × Refused)
unfolding getb_ok
file_header_checks offset hdr =
    (getb_ok offset file_header_size, unread)
    ∷ (hdr.magic == 0x4550, bad_pe_magic)
    ∷ (hdr.machine == 0x8664, bad_arch)
    ∷ (leb 1 hdr.number_of_sections && leb hdr.number_of_sections 16, bad_section_count)
    ∷ (leb optional_header_size hdr.size_of_optional_header, opt_hdr_too_small)
    ∷ []

unfoldable pub read_file_header : List ℕ → ℕ → Result FileHeader
unfolding require_all file_header_checks get_bytes file_header
read_file_header file offset =
    let hdr = file_header (get_bytes file offset file_header_size (replicate 24 0)) in
    require_all (file_header_checks offset hdr) >>= λ _. accepted hdr

unfoldable pub optional_header_checks : ℕ → ℕ → OptionalHeader → List (Bool × Refused)
unfolding getb_ok
optional_header_checks page offset opt =
    (getb_ok offset optional_header_size, unread)
    ∷ (opt.opt_magic == 0x20b, bad_opt_magic)
    ∷ (opt.subsystem == 1, not_native)
    ∷ (opt.number_of_rva_and_sizes == 16, unexpected_dir_count)
    ∷ (opt.image_base % page == 0, unaligned_image_base)
    ∷ (opt.section_align % page == 0, section_alignment)
    ∷ []

unfoldable pub read_optional_header : List ℕ → ℕ → ℕ → Result OptionalHeader
unfolding require_all optional_header_checks get_bytes optional_header
read_optional_header file page offset =
    let opt = optional_header (get_bytes file offset optional_header_size (replicate 240 0)) in
    require_all (optional_header_checks page offset opt) >>= λ _. accepted opt

unfoldable pub rva_of : OptionalHeader → Section → ℕ
unfolding pealign
rva_of opt s = pealign s.virtual_address opt.section_align

unfoldable pub vsz_of : OptionalHeader → Section → ℕ
unfolding pesalign
vsz_of opt s = pesalign s.virtual_size opt.section_align

-- The loop that computes `image_size`.
unfoldable pub image_extent : OptionalHeader → List Section → ℕ → ℕ
unfolding rva_of vsz_of
image_extent opt [] size = size
image_extent opt (s ∷ rest) size =
    let top = (rva_of opt s + vsz_of opt s) % 2 ^ 32 in
    image_extent opt rest (if ltb size top then top else size)

-- `memcpy` into the image.
unfoldable pub write_image : List ℕ → ℕ → List ℕ → Result (List ℕ)
write_image image at bytes =
    if leb (at + length bytes) (length image)
    then accepted (take at image ++ (bytes ++ drop (at + length bytes) image))
    else overrun

unfoldable pub map_section : List ℕ → OptionalHeader → Section → List ℕ → Result (List ℕ)
unfolding rva_of pealign pesalign getb_ok require write_image
map_section file opt s image =
    let raw = pealign s.pointer_to_raw_data opt.file_align in
    let rsz = pesalign s.size_of_raw_data opt.file_align in
    let copied = write_image image (rva_of opt s) (take rsz (drop raw file)) in
    (if ltb (length file) (raw + rsz) then accepted image else copied) >>= λ image'.
    (require (getb_ok raw rsz) unread >>= λ _. accepted image')

unfoldable pub map_sections : List ℕ → OptionalHeader → List Section → List ℕ → Result (List ℕ)
unfolding map_section
map_sections file opt [] image = accepted image
map_sections file opt (s ∷ rest) image =
    map_section file opt s image >>= λ image'. map_sections file opt rest image'

pub record Loaded : Type 0 where
  pub header : FileHeader
  pub optional : OptionalHeader
  pub sections : List Section
  pub image : List ℕ

-- The section headers at `at`, the mapping of the image, and its sections.
unfoldable pub load_sections :
    List ℕ → (ℕ → ℕ → Bool) → FileHeader → ℕ → OptionalHeader → Result Loaded
unfolding section_headers get_bytes getb_ok require_all image_extent map_sections
load_sections file mapped hdr at opt =
    let size = section_header_size * hdr.number_of_sections in
    let secs = section_headers hdr.number_of_sections (get_bytes file at size (replicate size 0)) in
    let extent = image_extent opt secs 0 in
    require_all ((getb_ok at size, unread) ∷ (mapped opt.image_base extent, not_mapped) ∷ [])
    >>= λ _.
        (map_sections file opt secs (replicate extent 0) >>= λ image.
        accepted (record { header = hdr; optional = opt; sections = secs; image = image }))

unfoldable pub load_with : List ℕ → ℕ → (ℕ → ℕ → Bool) → ℕ → FileHeader → Result Loaded
unfolding read_optional_header load_sections
load_with file page mapped offset hdr =
    read_optional_header file page (offset + file_header_size)
    >>= load_sections file mapped hdr (offset + file_header_size + optional_header_size)

unfoldable pub load_at : List ℕ → ℕ → (ℕ → ℕ → Bool) → ℕ → Result Loaded
unfolding read_file_header load_with
load_at file page mapped offset = read_file_header file offset >>= load_with file page mapped offset

-- `setup_nloader` up to the imports.
unfoldable pub load : List ℕ → ℕ → (ℕ → ℕ → Bool) → Result Loaded
unfolding pe_offset load_at
load file page mapped = pe_offset file >>= load_at file page mapped
