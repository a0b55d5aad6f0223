-- ===== src/Lznt1/Bounds.antt =====
-- libs/ntdll/lznt1.c: the writes of the decoder, on every path, and the end of its loops.
use nloader.Base.{
  ℕ, zero, suc, ◌+◌, ◌-◌, ◌%◌, ◌≤◌, ◌<◌, ◌≡◌, Bool, true, false, Option, none, some, List, [], ◌∷◌,
  arith, length, ltb, ◌==◌, Bool-cases, Option-cases, inl, inr,
}
use nloader.Lznt1.{
  Run, ok, fail, fault, stuck, Cursor, read_word, copy_raw, group, block, raw, chunk, chunks,
  Decoded, decompress_lznt1, ◌>>=◌, raw_chunk,
}
use nloader.Lznt1.Tokens.{Ends, Ends->>=, Ends-le, length-read_word, length-copy_raw, tokens-Ends}

group_from-Ends :
    (size b : ℕ) (input w : List ℕ) (room blocksz blockpos : ℕ)
    → length w + room ≡ size
    → blocksz ≤ suc b
    → let s : Cursor = record {
      input = input;
      written = w;
      room = room;
      blocksz = blocksz;
      blockpos = blockpos;
    } in
      Ends size b (length input) (group s)
unfolding group
group_from-Ends size b [] w room blocksz blockpos h k = omega arith
group_from-Ends size b (mask ∷ rest) w room blocksz blockpos h k =
    Ends-le size (blocksz - 1) (length rest) b (suc (length rest)) _ (omega arith) (omega arith) (
      tokens-Ends size 8 mask
        (record {
          input = rest;
          written = w;
          room = room;
          blocksz = blocksz - 1;
          blockpos = blockpos;
        })
        h)

group-Ends :
    (size b : ℕ) (s : Cursor)
    → length s.written + s.room ≡ size
    → s.blocksz ≤ suc b
    → Ends size b (length s.input) (group s)
group-Ends size b s = group_from-Ends size b s.input s.written s.room s.blocksz s.blockpos

block-Ends :
    (size fuel : ℕ) (s : Cursor)
    → length s.written + s.room ≡ size
    → s.blocksz < fuel
    → Ends size 0 (length s.input) (block fuel s)
unfolding block
block-Ends size zero s h k = absurd (omega arith)
block-Ends size (suc fuel) s h k = elim (Bool-cases (s.blocksz == 0)) [
  | inl e ↦ rw e (ground arith)
  | inr e ↦ rw e (
      Ends->>= size (s.blocksz - 1) (length s.input) 0 (length s.input) (group s)
        (λ s'. block fuel s') (group-Ends size (s.blocksz - 1) s h (ground arith))
        (λ t p q r.
          Ends-le size 0 (length t.input) 0 (length s.input) _ (omega arith) r
            (block-Ends size fuel t p (ground arith))))
]

raw-Ends :
    (size : ℕ) (s : Cursor)
    → length s.written + s.room ≡ size
    → Ends size s.blocksz (length s.input) (raw s)
unfolding raw
raw-Ends size s h = elim (Option-cases (copy_raw raw_chunk s.input s.written)) [
  | inl e ↦ ground arith
  | inr ((rest, out), e) ↦ ground (arith, length-copy_raw raw_chunk s.input s.written rest out e)
]

-- Every chunk uses up its header at least.
chunk-Ends :
    (size n : ℕ) (s : Cursor)
    → length s.written + s.room ≡ size
    → length s.input ≤ suc n
    → Ends size raw_chunk n (chunk s)
unfolding chunk
chunk-Ends size n s h k = elim (Option-cases (read_word s.input)) [
  | inl e ↦ rw (Ends, chunk, e) (omega arith)
  | inr ((v, rest), e) ↦ elim (Bool-cases (ltb v 0x8000)) [
    | inl c ↦
        rw (Ends, chunk, e, c)
          (Ends-le size raw_chunk (length rest) raw_chunk n _ (omega arith)
            (omega (arith, length-read_word s.input v rest e))
            (raw-Ends size (record s { input = rest; blocksz = raw_chunk; blockpos = 0 }) h))
    | inr c ↦
        rw (Ends, chunk, e, c)
          (Ends-le size 0 (length rest) raw_chunk n _ (omega arith)
            (omega (arith, length-read_word s.input v rest e))
            (block-Ends size (v % 0x1000 + 2)
              (record s { input = rest; blocksz = v % 0x1000 + 1; blockpos = 0 }) h (omega arith)))
  ]
]

chunks-Ends :
    (size fuel : ℕ) (input w : List ℕ) (room blocksz blockpos : ℕ)
    → length w + room ≡ size
    → blocksz ≤ raw_chunk
    → length input < fuel
    → let s : Cursor = record {
      input = input;
      written = w;
      room = room;
      blocksz = blocksz;
      blockpos = blockpos;
    } in
      Ends size raw_chunk 0 (chunks fuel s)
unfolding chunks
chunks-Ends size zero input w room blocksz blockpos h p k = absurd (omega arith)
chunks-Ends size (suc fuel) [] w room blocksz blockpos h p k = omega arith
chunks-Ends size (suc fuel) (x ∷ rest) w room blocksz blockpos h p k =
    let s : Cursor = record {
      input = x ∷ rest;
      written = w;
      room = room;
      blocksz = blocksz;
      blockpos = blockpos;
    } in
    Ends->>= size raw_chunk (length rest) raw_chunk 0 (chunk s) (λ s'. chunks fuel s')
      (chunk-Ends size (length rest) s h (omega arith))
      (λ t p q r.
        chunks-Ends size fuel t.input t.written t.room t.blocksz t.blockpos p q (omega arith))

-- A result that stays in the buffer: a success whose final size is the number of bytes written and
-- at most the size of the buffer, an error after at most that many writes, or a read in front of
-- the buffer. `stuck` is excluded.
abbrev pub StaysWithin : ℕ → Run Decoded → Type 0
StaysWithin size (ok d) = (length d.output ≡ d.final_size) × (d.final_size ≤ size)
StaysWithin size (fail e w) = length w ≤ size
StaysWithin size fault = Unit
StaysWithin size stuck = ⊥

finish-StaysWithin :
    (size : ℕ) (r : Run Cursor)
    → Ends size raw_chunk 0 r
    → StaysWithin size (r >>= λ s. ok (record { output = s.written; final_size = size - s.room }))
finish-StaysWithin size (ok s) h = omega arith
finish-StaysWithin size (fail e w) h = h
finish-StaysWithin size fault h = tt
finish-StaysWithin size stuck h = absurd h

-- Whatever the input, the decoder ends. On every error it has written at most as many bytes as the
-- output buffer has; on success too, and the final size that it reports is the number written.
-- Nothing is said of a run that reads in front of the output buffer.
pub decompress_lznt1-StaysWithin :
    (input : Option (List ℕ)) (has_output has_final : Bool) (size : ℕ)
    → StaysWithin size (decompress_lznt1 input has_output has_final size)
unfolding decompress_lznt1
decompress_lznt1-StaysWithin none has_output has_final size = omega arith
decompress_lznt1-StaysWithin (some []) has_output has_final size = omega arith
decompress_lznt1-StaysWithin (some (b ∷ rest)) false has_final size = omega arith
decompress_lznt1-StaysWithin (some (b ∷ rest)) true false size = omega arith
decompress_lznt1-StaysWithin (some (b ∷ rest)) true true size = finish-StaysWithin size _ (
    chunks-Ends size (suc (length (b ∷ rest))) (b ∷ rest) [] size 0 0 (omega arith) (omega arith)
      (omega arith))
