-- ===== src/Tests/Imports.antt =====
-- loader.c on an image whose import table has one import, by its ordinal.
use nloader.Base.{◌≡◌, refl, true, some, List, [], ◌∷◌, ◌++◌, ℕ, arith, replicate, All}
use nloader.Loader.{accepted, OptionalHeader, require, word16, word32, word64, pesalign}
use nloader.Loader.Imports.{
  Export, Import, is_contained, read32, read64, until_nul, c_string, same, nl_resolve,
  before_last_dot, dll_base, padded, ordinal_name, import_name, bind_import, bind_names,
  bind_library, bind_libraries, bind_imports,
}
use nloader.Loader.Patch.{Host, patch_all, stubs_len, prot_of, setup_nloader}
use nloader.Loader.Ends.{Ends, setup_nloader-Ends}
use nloader.Loader.Thunks.{Fits, IsPatched}
use nloader.Loader.Places.{bind_imports-Fits, patch_all-IsPatched}

abbrev zero_bytes : ℕ → List ℕ
zero_bytes n = replicate n 0

-- The descriptor at 0, the names at 40, the places at 56, the name of the library at 72.
abbrev one_import : List ℕ
one_import =
    (40 ∷ [])
    ++ zero_bytes 11
    ++ (72 ∷ 0 ∷ 0 ∷ 0 ∷ 56 ∷ [])
    ++ zero_bytes 23
    ++ (7 ∷ [])
    ++ zero_bytes 6
    ++ (0x80 ∷ [])
    ++ zero_bytes 24
    ++ (b'a' ∷ b'.' ∷ b'd' ∷ b'l' ∷ b'l' ∷ 0 ∷ [])

abbrev importing : OptionalHeader
importing = record {
  opt_magic = 0x20b;
  image_base = 0x400000;
  section_align = 16;
  file_align = 8;
  subsystem = 1;
  size_of_headers = 0;
  number_of_rva_and_sizes = 16;
  import_rva = 0;
  import_size = 40;
}

abbrev seventh : List ℕ
seventh = b'o' ∷ b'r' ∷ b'd' ∷ b'_' ∷ b'0' ∷ b'0' ∷ b'7' ∷ []

abbrev exports : List Export
exports =
    record { dll = b'b' ∷ []; name = seventh; func = 100 }
    ∷ record { dll = b'a' ∷ []; name = seventh; func = 200 }
    ∷ []

abbrev first_import : Import
first_import = record {
  fname = (b'a' ∷ b'.' ∷ b'd' ∷ b'l' ∷ b'l' ∷ b'!' ∷ []) ++ seventh;
  api_addr = some 200;
  thunk = 56;
}

abbrev host : Host
host = record {
  page = 16;
  mapped = λ base size. true;
  stubs_at = λ size. some 4096;
  protects = λ base size prot. true;
  dispatch = 1000;
}

imports_found : bind_imports exports importing one_import ≡ accepted (first_import ∷ [])
unfolding bind_imports bind_libraries bind_library bind_names bind_import import_name ordinal_name
    padded dll_base before_last_dot nl_resolve same c_string until_nul read64 read32 is_contained
    require word64 word32 word16
imports_found = refl

bind_imports-Fits_example : All (Fits one_import) (first_import ∷ [])
bind_imports-Fits_example =
    bind_imports-Fits exports importing one_import (first_import ∷ []) imports_found

stubs_page : stubs_len 16 1 ≡ 32
unfolding stubs_len pesalign
stubs_page = refl

patch_all-IsPatched_example :
    (memory : List ℕ) × (image' : List ℕ) × (patch_all host (first_import ∷ []) one_import
      ≡ accepted (memory, image'))
    × IsPatched 4096 1000
        (first_import ∷ [])
        0
        (replicate (stubs_len 16 1) 0)
        one_import
        memory
        image'
patch_all-IsPatched_example =
    patch_all-IsPatched host exports importing one_import 4096 first_import [] imports_found
      (tt, tt) (omega arith) (omega arith) refl refl (omega (arith, stubs_page))

setup_nloader-Ends_example : Ends (setup_nloader (b'M' ∷ b'Z' ∷ []) host exports)
setup_nloader-Ends_example = setup_nloader-Ends (b'M' ∷ b'Z' ∷ []) host exports

-- Execute and read.
code_access : prot_of 0x60000020 ≡ 5
unfolding prot_of
code_access = refl
