-- ===== src/Loader/Patch.antt =====
-- loader.c: the stubs and the patches of the import table, the header of the image, the protection of
-- the sections, and the whole of `setup_nloader` up to the blocks of the process, for x86_64.
use nloader.Base.{
  ℕ, zero, suc, ◌+◌, ◌-◌, ◌*◌, ◌/◌, ◌%◌, ◌^◌, Bool, Option, none, some, List, [], ◌∷◌, ◌++◌, ltb,
  if◌then◌else◌, length, take, replicate,
}
use nloader.Loader.{
  Result, accepted, refused, ◌>>=◌, require, OptionalHeader, Section, Loaded, rva_of, vsz_of,
  pesalign, write_image, getb_ok, pe_offset, load_at, unread, api_out_of_image, no_stubs,
  not_protected,
}
use nloader.Loader.Imports.{Export, Import, is_contained, bind_imports}

-- The host: `getpagesize`, `mmap` at a fixed address and anywhere, `mprotect`, and the address of
-- `stub_dispatch`.
pub record Host : Type 0 where
  pub page : ℕ
  pub mapped : ℕ → ℕ → Bool
  pub stubs_at : ℕ → Option ℕ
  pub protects : ℕ → ℕ → ℕ → Bool
  pub dispatch : ℕ

unfoldable pub le_bytes : ℕ → ℕ → List ℕ
le_bytes zero v = []
le_bytes (suc n) v = (v % 256) ∷ le_bytes n (v / 256)

-- What `sizeof_stub` (stubs_x64.asm) returns.
abbrev pub stub_size : ℕ
stub_size = 18

unfoldable pub emit_stub : ℕ → ℕ → List ℕ
unfolding le_bytes
emit_stub dispatch idx =
    0x68 ∷ (le_bytes 4 idx ++ (0x49 ∷ 0xbb ∷ (le_bytes 8 dispatch ++ (0x41 ∷ 0xff ∷ 0xe3 ∷ []))))

-- The loop over the imports, from number `i` on: the stubs and the image.
unfoldable pub patch : ℕ → ℕ → List Import → ℕ → List ℕ → List ℕ → Result (List ℕ × List ℕ)
unfolding require is_contained write_image emit_stub le_bytes
patch stubs dispatch [] i memory image = accepted (memory, image)
patch stubs dispatch (imp ∷ rest) i memory image =
    require (is_contained image imp.thunk 8) api_out_of_image >>= λ _.
    (write_image memory (i * stub_size) (emit_stub dispatch i) >>= λ memory'.
    (write_image image imp.thunk (le_bytes 8 (stubs + i * stub_size)) >>= λ image'.
    patch stubs dispatch rest (i + 1) memory' image'))

unfoldable pub stubs_len : ℕ → ℕ → ℕ
unfolding pesalign
stubs_len page nfuncs = pesalign ((nfuncs * stub_size) % 2 ^ 32) page

-- With the answer of `mmap`. PROT_READ is 1, PROT_WRITE 2 and PROT_EXEC 4.
unfoldable pub patch_at : Host → ℕ → Option ℕ → List Import → List ℕ → Result (List ℕ × List ℕ)
unfolding patch require
patch_at host size none imports image = refused no_stubs
patch_at host size (some stubs) imports image =
    patch stubs host.dispatch imports 0 (replicate size 0) image >>= λ done.
    (require (host.protects stubs size 5) not_protected >>= λ _. accepted done)

unfoldable pub patch_all : Host → List Import → List ℕ → Result (List ℕ × List ℕ)
unfolding patch_at stubs_len
patch_all host [] image = accepted ([], image)
patch_all host (imp ∷ rest) image =
    let size = stubs_len host.page (length (imp ∷ rest)) in
    patch_at host size (host.stubs_at size) (imp ∷ rest) image

-- The lowest address of a section.
unfoldable pub lowest_rva : OptionalHeader → List Section → ℕ → ℕ
unfolding rva_of
lowest_rva opt [] min_rva = min_rva
lowest_rva opt (s ∷ rest) min_rva =
    lowest_rva opt rest (if ltb (rva_of opt s) min_rva then rva_of opt s else min_rva)

-- How much of the file is mapped as the header: up to the first section at most.
unfoldable pub header_end : OptionalHeader → List Section → ℕ → ℕ
unfolding lowest_rva
header_end opt secs pe_off =
    let min_rva = lowest_rva opt secs (2 ^ 32 - 1) in
    let headers = (pe_off + opt.size_of_headers) % 2 ^ 32 in
    if ltb min_rva headers then min_rva else headers

unfoldable pub map_header : List ℕ → ℕ → List ℕ → Result (List ℕ)
unfolding write_image require getb_ok
map_header file size image =
    let copied = write_image image 0 (take size file) in
    (if ltb (length file) size then accepted image else copied) >>= λ image'.
    (require (getb_ok 0 size) unread >>= λ _. accepted image')

-- The access that the characteristics ask for.
unfoldable pub prot_of : ℕ → ℕ
prot_of characteristics =
    characteristics / 2 ^ 29 % 2 * 4
    + characteristics / 2 ^ 30 % 2
    + characteristics / 2 ^ 31 % 2 * 2

unfoldable pub protect_sections : Host → OptionalHeader → List Section → Result Unit
unfolding require rva_of vsz_of prot_of
protect_sections host opt [] = accepted tt
protect_sections host opt (s ∷ rest) =
    let at = opt.image_base + rva_of opt s in
    require (host.protects at (vsz_of opt s) (prot_of s.characteristics)) not_protected >>= λ _.
    protect_sections host opt rest

pub record Bound : Type 0 where
  pub loaded : Loaded
  pub imports : List Import
  pub stubs : List ℕ
  pub final_image : List ℕ

-- From the imports on.
unfoldable pub bind_image : List ℕ → Host → List Export → ℕ → Loaded → Result Bound
unfolding bind_imports patch_all header_end map_header protect_sections require
bind_image file host table pe_off l = do
  imports ← bind_imports table l.optional l.image
  patched ← patch_all host imports l.image
  let size = header_end l.optional l.sections pe_off
  image ← map_header file size patched.1
  _ ← require (host.protects l.optional.image_base size 1) not_protected
  _ ← protect_sections host l.optional l.sections
  accepted (record { loaded = l; imports = imports; stubs = patched.0; final_image = image })

-- `setup_nloader` up to the blocks of the process.
unfoldable pub setup_nloader : List ℕ → Host → List Export → Result Bound
unfolding pe_offset load_at bind_image
setup_nloader file host table = do
  pe_off ← pe_offset file
  l ← load_at file host.page host.mapped pe_off
  bind_image file host table pe_off l
