-- ===== src/Scancodes.antt =====
-- libs/ntdll/scancodes.c: `AsciiToScan`, in two parts.
pub mod Letters
use nloader.Base.{ℕ, Option, List, [], ◌∷◌, ◌++◌, get_elem?}

-- The codes of the characters below 128.
abbrev pub ascii_codes : List ℕ
ascii_codes =
    0x00 ∷ 0x00 ∷ 0x00 ∷ 0x00 ∷ 0x00 ∷ 0x00 ∷ 0x00 ∷ 0x00 ∷ 0x0e ∷ 0x00 ∷ 0x1c ∷ 0x00 ∷ 0x00 ∷ 0x1c
    ∷ 0x00 ∷ 0x00 ∷ 0x00 ∷ 0x00 ∷ 0x00 ∷ 0x00 ∷ 0x00 ∷ 0x00 ∷ 0x00 ∷ 0x00 ∷ 0x00 ∷ 0x00 ∷ 0x00
    ∷ 0x00 ∷ 0x00 ∷ 0x00 ∷ 0x00 ∷ 0x00 ∷ 0x39 ∷ 0x02 ∷ 0x28 ∷ 0x04 ∷ 0x05 ∷ 0x06 ∷ 0x08 ∷ 0x29
    ∷ 0x0a ∷ 0x0b ∷ 0x37 ∷ 0x4e ∷ 0x33 ∷ 0x4a ∷ 0x34 ∷ 0x35 ∷ 0x0b ∷ 0x02 ∷ 0x03 ∷ 0x04 ∷ 0x05
    ∷ 0x06 ∷ 0x07 ∷ 0x08 ∷ 0x09 ∷ 0x0a ∷ 0x27 ∷ 0x27 ∷ 0x33 ∷ 0x0d ∷ 0x34 ∷ 0x35 ∷ 0x03 ∷ 0x1e
    ∷ 0x30 ∷ 0x2e ∷ 0x20 ∷ 0x12 ∷ 0x21 ∷ 0x22 ∷ 0x23 ∷ 0x17 ∷ 0x24 ∷ 0x25 ∷ 0x26 ∷ 0x32 ∷ 0x31
    ∷ 0x18 ∷ 0x19 ∷ 0x10 ∷ 0x13 ∷ 0x1f ∷ 0x14 ∷ 0x16 ∷ 0x2f ∷ 0x11 ∷ 0x2d ∷ 0x15 ∷ 0x2c ∷ 0x1a
    ∷ 0x2b ∷ 0x1b ∷ 0x07 ∷ 0x0c ∷ 0x00 ∷ 0x1e ∷ 0x30 ∷ 0x2e ∷ 0x20 ∷ 0x12 ∷ 0x21 ∷ 0x22 ∷ 0x23
    ∷ 0x17 ∷ 0x24 ∷ 0x25 ∷ 0x26 ∷ 0x32 ∷ 0x31 ∷ 0x18 ∷ 0x19 ∷ 0x10 ∷ 0x13 ∷ 0x1f ∷ 0x14 ∷ 0x16
    ∷ 0x2f ∷ 0x11 ∷ 0x2d ∷ 0x15 ∷ 0x2c ∷ 0x1a ∷ 0x2b ∷ 0x1b ∷ 0x29 ∷ 0x0e ∷ []

-- The codes of the characters from 128 on; there is none for 255.
abbrev pub high_codes : List ℕ
high_codes =
    0x00 ∷ 0x00 ∷ 0x00 ∷ 0x00 ∷ 0x00 ∷ 0x00 ∷ 0x00 ∷ 0x00 ∷ 0x00 ∷ 0x00 ∷ 0x00 ∷ 0x00 ∷ 0x00 ∷ 0x00
    ∷ 0x00 ∷ 0x00 ∷ 0x00 ∷ 0x00 ∷ 0x00 ∷ 0x00 ∷ 0x00 ∷ 0x00 ∷ 0x00 ∷ 0x00 ∷ 0x00 ∷ 0x00 ∷ 0x00
    ∷ 0x00 ∷ 0x00 ∷ 0x00 ∷ 0x00 ∷ 0x00 ∷ 0x00 ∷ 0x00 ∷ 0x00 ∷ 0x00 ∷ 0x00 ∷ 0x00 ∷ 0x00 ∷ 0x00
    ∷ 0x00 ∷ 0x00 ∷ 0x00 ∷ 0x00 ∷ 0x00 ∷ 0x00 ∷ 0x00 ∷ 0x00 ∷ 0x00 ∷ 0x00 ∷ 0x00 ∷ 0x00 ∷ 0x00
    ∷ 0x00 ∷ 0x00 ∷ 0x00 ∷ 0x00 ∷ 0x00 ∷ 0x00 ∷ 0x00 ∷ 0x00 ∷ 0x00 ∷ 0x00 ∷ 0x00 ∷ 0x00 ∷ 0x00
    ∷ 0x00 ∷ 0x00 ∷ 0x00 ∷ 0x00 ∷ 0x00 ∷ 0x00 ∷ 0x00 ∷ 0x00 ∷ 0x00 ∷ 0x00 ∷ 0x00 ∷ 0x00 ∷ 0x00
    ∷ 0x00 ∷ 0x00 ∷ 0x00 ∷ 0x00 ∷ 0x00 ∷ 0x00 ∷ 0x00 ∷ 0x00 ∷ 0x00 ∷ 0x00 ∷ 0x00 ∷ 0x00 ∷ 0x00
    ∷ 0x00 ∷ 0x00 ∷ 0x00 ∷ 0x00 ∷ 0x00 ∷ 0x00 ∷ 0x00 ∷ 0x00 ∷ 0x00 ∷ 0x00 ∷ 0x00 ∷ 0x00 ∷ 0x00
    ∷ 0x00 ∷ 0x00 ∷ 0x00 ∷ 0x00 ∷ 0x00 ∷ 0x00 ∷ 0x00 ∷ 0x00 ∷ 0x00 ∷ 0x00 ∷ 0x00 ∷ 0x00 ∷ 0x00
    ∷ 0x00 ∷ 0x00 ∷ 0x00 ∷ 0x00 ∷ 0x00 ∷ 0x00 ∷ 0x00 ∷ 0x00 ∷ 0x00 ∷ []

-- `AsciiToScan[ch]`; `none` is a read behind the table.
unfoldable pub ascii_to_scan : ℕ → Option ℕ
ascii_to_scan ch = get_elem? (ascii_codes ++ high_codes) ch
