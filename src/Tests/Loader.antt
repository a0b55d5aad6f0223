-- ===== src/Tests/Loader.antt =====
-- loader.c on a file with one section.
use nloader.Base.{◌≡◌, refl, true, Bool, List, [], ◌∷◌, ◌++◌, ℕ, arith, replicate, length, All}
use nloader.Loader.{
  accepted, refused, unread, OptionalHeader, Section, Loaded, load, load_at, load_with,
  load_sections, pe_offset, read_file_header, read_optional_header, require_all, require,
  file_header_checks, optional_header_checks, file_header, optional_header, get_bytes, getb_ok,
  word16, word32, word64, section_headers, image_extent, rva_of, vsz_of, pealign, pesalign,
  map_sections, map_section, write_image,
}
use nloader.Loader.Sections.{Inside, RawFits, map_sections-Inside}

abbrev zeros : ℕ → List ℕ
zeros n = replicate n 0

-- 8 bytes of data at offset 368 of the file, for the address 0 of the image.
abbrev tiny : List ℕ
tiny =
    (b'M' ∷ b'Z' ∷ [])
    ++ zeros 58
    ++ (64 ∷ 0 ∷ 0 ∷ 0 ∷ [])
    ++ (b'P' ∷ b'E' ∷ 0 ∷ 0 ∷ 0x64 ∷ 0x86 ∷ 1 ∷ 0 ∷ [])
    ++ zeros 12
    ++ (240 ∷ 0 ∷ 0 ∷ 0 ∷ [])
    ++ (0x0b ∷ 0x02 ∷ [])
    ++ zeros 22
    ++ (0 ∷ 0 ∷ 0x40 ∷ 0 ∷ 0 ∷ 0 ∷ 0 ∷ 0 ∷ [])
    ++ (16 ∷ 0 ∷ 0 ∷ 0 ∷ 8 ∷ 0 ∷ 0 ∷ 0 ∷ [])
    ++ zeros 28
    ++ (1 ∷ 0 ∷ [])
    ++ zeros 38
    ++ (16 ∷ 0 ∷ 0 ∷ 0 ∷ [])
    ++ zeros 128
    ++ zeros 8
    ++ (8 ∷ 0 ∷ 0 ∷ 0 ∷ [])
    ++ zeros 4
    ++ (8 ∷ 0 ∷ 0 ∷ 0 ∷ 0x70 ∷ 1 ∷ 0 ∷ 0 ∷ [])
    ++ zeros 16
    ++ (1 ∷ 2 ∷ 3 ∷ 4 ∷ 5 ∷ 6 ∷ 7 ∷ 8 ∷ [])

abbrev tiny_optional : OptionalHeader
tiny_optional = record {
  opt_magic = 0x20b;
  image_base = 0x400000;
  section_align = 16;
  file_align = 8;
  subsystem = 1;
  size_of_headers = 0;
  number_of_rva_and_sizes = 16;
  import_rva = 0;
  import_size = 0;
}

abbrev tiny_section : Section
tiny_section = record {
  virtual_size = 8;
  virtual_address = 0;
  size_of_raw_data = 8;
  pointer_to_raw_data = 368;
  characteristics = 0;
}

abbrev tiny_loaded : Loaded
tiny_loaded = record {
  header = record {
    magic = 0x4550;
    machine = 0x8664;
    number_of_sections = 1;
    size_of_optional_header = 240;
  };
  optional = tiny_optional;
  sections = tiny_section ∷ [];
  image = (1 ∷ 2 ∷ 3 ∷ 4 ∷ 5 ∷ 6 ∷ 7 ∷ 8 ∷ []) ++ zeros 8;
}

abbrev always_mapped : ℕ → ℕ → Bool
always_mapped base size = true

tiny-accepted : load tiny 16 always_mapped ≡ accepted tiny_loaded
unfolding load load_at load_with load_sections pe_offset read_file_header read_optional_header
    require_all require file_header_checks optional_header_checks file_header optional_header
    get_bytes getb_ok word16 word32 word64 section_headers image_extent rva_of vsz_of pealign
    pesalign map_sections map_section write_image
tiny-accepted = refl

tiny-RawFits : All (RawFits tiny_optional) (tiny_section ∷ [])
unfolding rva_of vsz_of pealign pesalign
tiny-RawFits = ((omega arith, omega arith), tt)

tiny-extent : length (zeros 16) ≡ image_extent tiny_optional (tiny_section ∷ []) 0
unfolding image_extent rva_of vsz_of pealign pesalign
tiny-extent = refl

map_sections-Inside_example :
    Inside (map_sections tiny tiny_optional (tiny_section ∷ []) (zeros 16))
map_sections-Inside_example =
    map_sections-Inside tiny tiny_optional (tiny_section ∷ []) (zeros 16) tiny-RawFits tiny-extent

-- A section without data, at offset 0 of the file.
bss_refused :
    map_section tiny tiny_optional
      (record tiny_section { size_of_raw_data = 0; pointer_to_raw_data = 0 })
      (zeros 16)
    ≡ refused unread
unfolding map_section rva_of pealign pesalign getb_ok require write_image
bss_refused = refl
