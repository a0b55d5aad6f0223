-- ===== src/Loader/Ends.antt =====
-- loader.c: no loop of `setup_nloader` runs out of its fuel.
use nloader.Base.{
  ℕ, zero, suc, ◌+◌, ◌-◌, ◌*◌, ◌%◌, ◌^◌, ◌≤◌, ◌<◌, ◌≡◌, Bool, true, false, Option, none, some, List,
  [], ◌∷◌, arith, length, ltb, leb, if◌then◌else◌, Bool-cases, inl, inr, drop,
}
use nloader.Loader.{
  Refused, Result, accepted, refused, overrun, ◌>>=◌, require, require_all, OptionalHeader, Section,
  Loaded, pe_offset, read_file_header, read_optional_header, write_image, map_section, map_sections,
  load_sections, load_with, load_at,
}
use nloader.Loader.Imports.{
  Export, Import, read32, read64, until_nul, c_string, import_name, bind_import, bind_names,
  bind_library, bind_libraries, bind_imports,
}
use nloader.Loader.Patch.{
  Host, patch, patch_at, patch_all, map_header, protect_sections, bind_image, setup_nloader,
}

-- A result that is not for want of fuel.
pub data Ends {A : Type 0} : Result A → Type 0 where
  with_value : (a : A) → Ends (accepted a)
  with_refusal : (why : Refused) → Ends (refused why)
  with_overrun : Ends overrun

module _ {A B : Type 0} where
  Ends-bind :
      (m : Result A) (next : A → Result B) → Ends m → ((a : A) → Ends (next a)) → Ends (m >>= next)
  Ends-bind _ next (with_value a) k = k a
  Ends-bind _ next (with_refusal why) k = with_refusal why
  Ends-bind _ next with_overrun k = with_overrun

module _ {A : Type 0} where
  Ends-if : (b : Bool) (x y : Result A) → Ends x → Ends y → Ends (if b then x else y)
  Ends-if true x y h k = h
  Ends-if false x y h k = k

require-Ends : (b : Bool) (why : Refused) → Ends (require b why)
unfolding require
require-Ends true why = with_value tt
require-Ends false why = with_refusal why

require_all-Ends : (checks : List (Bool × Refused)) → Ends (require_all checks)
unfolding require_all require
require_all-Ends [] = with_value tt
require_all-Ends ((true, why) ∷ rest) = require_all-Ends rest
require_all-Ends ((false, why) ∷ rest) = with_refusal why

ruleset ends = (with_value, with_refusal, with_overrun, Ends-bind, Ends-if, require-Ends)

until_nul-Ends : (bytes : List ℕ) → Ends (until_nul bytes)
unfolding until_nul
until_nul-Ends [] = with_overrun
until_nul-Ends (c ∷ rest) = search (ends, until_nul-Ends rest)

read32-Ends : (image : List ℕ) (at : ℕ) → Ends (read32 image at)
unfolding read32
read32-Ends image at = search ends

write_image-Ends : (image : List ℕ) (at : ℕ) (bytes : List ℕ) → Ends (write_image image at bytes)
unfolding write_image
write_image-Ends image at bytes = search ends

c_string-Ends : (image : List ℕ) (at : ℕ) → Ends (c_string image at)
unfolding c_string
c_string-Ends image at = until_nul-Ends (drop at image)

import_name-Ends : (image : List ℕ) (name : ℕ) → Ends (import_name image name)
unfolding import_name
import_name-Ends image name = search (ends, c_string-Ends)

bind_import-Ends :
    (table : List Export) (image dll : List ℕ) (name addr : ℕ)
    → Ends (bind_import table image dll name addr)
unfolding bind_import
bind_import-Ends table image dll name addr = search (ends, import_name-Ends)

-- Each round reads eight bytes of the image behind those of the last.
bind_names-Ends :
    (fuel : ℕ) (table : List Export) (image dll : List ℕ) (names addrs : ℕ)
    → length image < names + 8 * fuel
    → Ends (bind_names (suc fuel) table image dll names addrs)
unfolding bind_names read64
bind_names-Ends zero table image dll names addrs h =
    let short : leb (names + 8) (length image) ≡ false = ground arith in rw short with_overrun
bind_names-Ends (suc fuel) table image dll names addrs h =
    let later = bind_names-Ends fuel table image dll (names + 8) (addrs + 8) (omega arith) in
    search (ends, bind_import-Ends, later) depth 10

bind_library-Ends :
    (table : List Export) (image : List ℕ) (at dll_name : ℕ)
    → Ends (bind_library table image at dll_name)
unfolding bind_library
bind_library-Ends table image at dll_name =
    let functions : (dll : List ℕ) (orig thunk : ℕ)
        → Ends (bind_names (suc (suc (length image))) table image dll orig thunk) =
      λ dll orig thunk.
        bind_names-Ends (suc (length image)) table image dll orig thunk (omega arith) in
    search (ends, read32-Ends, c_string-Ends, functions)

-- Each round takes 20 bytes off the size.
bind_libraries-Ends :
    (fuel : ℕ) (table : List Export) (image : List ℕ) (at size : ℕ)
    → size < fuel
    → Ends (bind_libraries fuel table image at size)
unfolding bind_libraries
bind_libraries-Ends zero table image at size h = absurd (omega arith)
bind_libraries-Ends (suc fuel) table image at size h = elim (Bool-cases (ltb size 20)) [
  | inl l ↦ rw l (with_value [])
  | inr l ↦
      let large : 20 ≤ size = ground arith in
      let later =
        bind_libraries-Ends fuel table image ((at + 20) % 2 ^ 32) (size - 20) (omega arith) in
      rw l (search (ends, read32-Ends, bind_library-Ends, later) depth 10)
]

bind_imports-Ends :
    (table : List Export) (opt : OptionalHeader) (image : List ℕ)
    → Ends (bind_imports table opt image)
unfolding bind_imports
bind_imports-Ends table opt image =
    bind_libraries-Ends (suc opt.import_size) table image opt.import_rva opt.import_size
      (omega arith)

patch-Ends :
    (stubs dispatch : ℕ) (imports : List Import) (i : ℕ) (memory image : List ℕ)
    → Ends (patch stubs dispatch imports i memory image)
unfolding patch
patch-Ends stubs dispatch [] i memory image = search ends
patch-Ends stubs dispatch (imp ∷ rest) i memory image =
    search (ends, write_image-Ends, patch-Ends stubs dispatch rest (i + 1))

patch_at-Ends :
    (host : Host) (size : ℕ) (at : Option ℕ) (imports : List Import) (image : List ℕ)
    → Ends (patch_at host size at imports image)
unfolding patch_at
patch_at-Ends host size none imports image = search ends
patch_at-Ends host size (some stubs) imports image = search (ends, patch-Ends)

patch_all-Ends :
    (host : Host) (imports : List Import) (image : List ℕ) → Ends (patch_all host imports image)
unfolding patch_all
patch_all-Ends host [] image = search ends
patch_all-Ends host (imp ∷ rest) image = patch_at-Ends host _ _ (imp ∷ rest) image

map_header-Ends : (file : List ℕ) (size : ℕ) (image : List ℕ) → Ends (map_header file size image)
unfolding map_header
map_header-Ends file size image = search (ends, write_image-Ends)

protect_sections-Ends :
    (host : Host) (opt : OptionalHeader) (secs : List Section)
    → Ends (protect_sections host opt secs)
unfolding protect_sections
protect_sections-Ends host opt [] = search ends
protect_sections-Ends host opt (s ∷ rest) = search (ends, protect_sections-Ends host opt rest)

map_section-Ends :
    (file : List ℕ) (opt : OptionalHeader) (s : Section) (image : List ℕ)
    → Ends (map_section file opt s image)
unfolding map_section
map_section-Ends file opt s image = search (ends, write_image-Ends)

map_sections-Ends :
    (file : List ℕ) (opt : OptionalHeader) (secs : List Section) (image : List ℕ)
    → Ends (map_sections file opt secs image)
unfolding map_sections
map_sections-Ends file opt [] image = search ends
map_sections-Ends file opt (s ∷ rest) image =
    search (ends, map_section-Ends, map_sections-Ends file opt rest)

load_at-Ends :
    (file : List ℕ) (page : ℕ) (mapped : ℕ → ℕ → Bool) (offset : ℕ)
    → Ends (load_at file page mapped offset)
unfolding load_at load_with load_sections read_file_header read_optional_header
load_at-Ends file page mapped offset = search (ends, require_all-Ends, map_sections-Ends)

bind_image-Ends :
    (file : List ℕ) (host : Host) (table : List Export) (pe_off : ℕ) (l : Loaded)
    → Ends (bind_image file host table pe_off l)
unfolding bind_image
bind_image-Ends file host table pe_off l =
    search (ends, bind_imports-Ends, patch_all-Ends, map_header-Ends, protect_sections-Ends) depth
      12

pe_offset-Ends : (file : List ℕ) → Ends (pe_offset file)
unfolding pe_offset
pe_offset-Ends file = search ends

-- No loop of the loader runs out of its fuel, whatever the file holds: the fuel that the model gives
-- to the loop over the descriptors and to the loop over the functions is enough, so that the load
-- ends with the image, with a refusal or with an access outside a buffer.
pub setup_nloader-Ends :
    (file : List ℕ) (host : Host) (table : List Export) → Ends (setup_nloader file host table)
unfolding setup_nloader
setup_nloader-Ends file host table = search (ends, pe_offset-Ends, load_at-Ends, bind_image-Ends)
