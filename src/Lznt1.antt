-- ===== src/Lznt1.antt =====
-- libs/ntdll/lznt1.c: `RtlDecompressBufferLZNT1` and `RtlDecompressBuffer`.
-- The compressed buffer is the list of the bytes that are not read yet, so `CompressedBufferSize` is
-- its length; `UncompressedBufferSize` is `room`. The output is the list of the bytes written so
-- far, the last one first, so `d[-back]` is the element `back - 1` of it. `fault` is a read in front
-- of the output buffer, which C leaves undefined; `stuck` is no value of the program: a loop of
-- the model ran out of fuel.
pub mod Tokens
pub mod Bounds
pub mod Runs
pub mod Literals
use nloader.Base.{
  ℕ, zero, suc, ◌+◌, ◌-◌, ◌*◌, ◌/◌, ◌%◌, ◌^◌, bit_and, Bool, true, false, ◌||◌, Option, none, some,
  List, [], ◌∷◌, ltb, leb, ◌==◌, if◌then◌else◌, length, get_elem?,
}

pub data Status : Type 0 where
  access_violation : Status
  invalid_parameter : Status
  bad_compression_buffer : Status

-- `fail` keeps what was written before the error was found.
pub data Run {ℓ} (A : Type ℓ) : Type ℓ where
  ok : A → Run A
  fail : Status → List ℕ → Run A
  fault : Run A
  stuck : Run A

infixl 5 ◌>>=◌
abbrev pub ◌>>=◌ {ℓ κ} : {From : Type ℓ} {Into : Type κ} → Run From → (From → Run Into) → Run Into
ok x >>= next = next x
fail e w >>= next = fail e w
fault >>= next = fault
stuck >>= next = stuck

-- The variables of the decoder: `c`, `d`, and the sizes that are left.
pub record Cursor : Type 0 where
  pub input : List ℕ
  pub written : List ℕ
  pub room : ℕ
  pub blocksz : ℕ
  pub blockpos : ℕ

-- `((uint16_t) c[1] << 8) + *c`, if two bytes are left.
unfoldable pub read_word : List ℕ → Option (ℕ × List ℕ)
read_word [] = none
read_word (lo ∷ []) = none
read_word (lo ∷ hi ∷ rest) = some (hi * 256 + lo, rest)

-- `d[-back]`
unfoldable pub peek_back : ℕ → List ℕ → Option ℕ
peek_back zero written = none
peek_back (suc k) written = get_elem? written k

-- `while (len--) { *d = d[-back]; d++; }`
unfoldable pub copy_run : ℕ → ℕ → List ℕ → Option (List ℕ)
copy_run zero back written = some written
copy_run (suc len) back written = elim (peek_back back written) [
  | none ↦ none
  | some b ↦ copy_run len back (b ∷ written)
]

-- `for (j = blockpos - 1; j >= 0x10; j >>= 1) { len >>= 1; back--; }`
unfoldable pub split_loop : ℕ → ℕ → ℕ → ℕ → ℕ × ℕ
split_loop zero j len back = (len, back)
split_loop (suc fuel) j len back =
    let rest = split_loop fuel (j / 2) (len / 2) (back - 1) in
    if leb 0x10 j then rest else (len, back)

-- The length mask and the shift of a run at `blockpos`; 16 rounds are enough for a 16-bit number.
unfoldable pub split_at : ℕ → ℕ × ℕ
unfolding split_loop
split_at blockpos = split_loop 16 (blockpos - 1) 0xfff 12

unfoldable pub run_length : ℕ → ℕ → ℕ
run_length blockpos runlen = (bit_and runlen (split_at blockpos).0 + 3) % 2 ^ 16

unfoldable pub run_back : ℕ → ℕ → ℕ
run_back blockpos runlen = (runlen / 2 ^ (split_at blockpos).1 + 1) % 2 ^ 16

-- The part of a back reference after the tests of `blocksz` and `blockpos`.
unfoldable pub expand_run : ℕ → ℕ → Cursor → Run Cursor
expand_run len back s =
    if ltb s.room len
    then fail bad_compression_buffer s.written
    else elim (copy_run len back s.written) [
      | none ↦ fault
      | some out ↦
          ok (record s {
            written = out;
            room = s.room - len;
            blockpos = (s.blockpos + len) % 2 ^ 16;
          })
    ]

unfoldable pub back_reference : Cursor → Run Cursor
unfolding read_word
back_reference s = elim (read_word s.input) [
  | none ↦ fail bad_compression_buffer s.written
  | some (runlen, rest) ↦
      if ltb s.blocksz 2 || s.blockpos == 0
      then fail bad_compression_buffer s.written
      else expand_run (run_length s.blockpos runlen) (run_back s.blockpos runlen)
          (record s { input = rest; blocksz = s.blocksz - 2 })
]

unfoldable pub literal : Cursor → Run Cursor
literal s = elim (s.input) [
  | [] ↦ fail bad_compression_buffer s.written
  | b ∷ rest ↦
      if s.blocksz == 0 || s.room == 0
      then fail bad_compression_buffer s.written
      else ok (record s {
        input = rest;
        written = b ∷ s.written;
        room = s.room - 1;
        blocksz = s.blocksz - 1;
        blockpos = (s.blockpos + 1) % 2 ^ 16;
      })
]

unfoldable pub token : ℕ → Cursor → Run Cursor
unfolding back_reference literal
token mask s = if mask % 2 == 1 then back_reference s else literal s

-- `for (i = 0; i < 8 && blocksz; i++)`, with the rounds left.
unfoldable pub tokens : ℕ → ℕ → Cursor → Run Cursor
tokens zero mask s = ok s
tokens (suc left) mask s =
    if s.blocksz == 0 then ok s else (token mask s >>= λ s'. tokens left (mask / 2) s')

-- The run mask and the tokens that it governs.
unfoldable pub group : Cursor → Run Cursor
group s = elim (s.input) [
  | [] ↦ fail bad_compression_buffer s.written
  | mask ∷ rest ↦ tokens 8 mask (record s { input = rest; blocksz = s.blocksz - 1 })
]

-- `while (blocksz)`
unfoldable pub block : ℕ → Cursor → Run Cursor
block zero s = stuck
block (suc fuel) s = if s.blocksz == 0 then ok s else (group s >>= λ s'. block fuel s')

-- The first `n` bytes, last one first in front of `written`, and the rest; `none` if there are fewer.
unfoldable pub copy_raw : ℕ → List ℕ → List ℕ → Option (List ℕ × List ℕ)
copy_raw zero input written = some (input, written)
copy_raw (suc n) [] written = none
copy_raw (suc n) (b ∷ rest) written = copy_raw n rest (b ∷ written)

abbrev pub raw_chunk : ℕ
raw_chunk = 4096

-- An uncompressed chunk, by `memcpy`.
unfoldable pub raw : Cursor → Run Cursor
raw s =
    if ltb s.room raw_chunk
    then fail bad_compression_buffer s.written
    else elim (copy_raw raw_chunk s.input s.written) [
      | none ↦ fail bad_compression_buffer s.written
      | some (rest, out) ↦ ok (record s { input = rest; written = out; room = s.room - raw_chunk })
    ]

-- One round of the outer loop: the block header and the chunk behind it.
unfoldable pub chunk : Cursor → Run Cursor
chunk s = elim (read_word s.input) [
  | none ↦ fail invalid_parameter s.written
  | some (header, rest) ↦
      if ltb header 0x8000
      then raw (record s { input = rest; blocksz = raw_chunk; blockpos = 0 })
      else block (header % 0x1000 + 2)
          (record s { input = rest; blocksz = header % 0x1000 + 1; blockpos = 0 })
]

-- `while (CompressedBufferSize)`
unfoldable pub chunks : ℕ → Cursor → Run Cursor
chunks zero s = stuck
chunks (suc fuel) s = elim (s.input) [ [] ↦ ok s | b ∷ rest ↦ chunk s >>= λ s'. chunks fuel s' ]

pub record Decoded : Type 0 where
  pub output : List ℕ
  pub final_size : ℕ

abbrev pub start : List ℕ → ℕ → Cursor
start input room = record { input = input; written = []; room = room; blocksz = 0; blockpos = 0 }

-- `RtlDecompressBufferLZNT1`; a null pointer is `none` or `false`.
unfoldable pub decompress_lznt1 : Option (List ℕ) → Bool → Bool → ℕ → Run Decoded
decompress_lznt1 none has_output has_final size = fail access_violation []
decompress_lznt1 (some []) has_output has_final size = fail access_violation []
decompress_lznt1 (some (b ∷ rest)) false has_final size = fail access_violation []
decompress_lznt1 (some (b ∷ rest)) true false size = fail access_violation []
decompress_lznt1 (some (b ∷ rest)) true true size =
    chunks (suc (length (b ∷ rest))) (start (b ∷ rest) size) >>= λ s.
    ok (record { output = s.written; final_size = size - s.room })

abbrev pub compression_format_lznt1 : ℕ
compression_format_lznt1 = 2

-- `RtlDecompressBuffer`
unfoldable pub decompress_buffer : ℕ → Option (List ℕ) → Bool → Bool → ℕ → Run Decoded
unfolding decompress_lznt1
decompress_buffer format input has_output has_final size =
    if format == compression_format_lznt1
    then decompress_lznt1 input has_output has_final size
    else fail invalid_parameter []
