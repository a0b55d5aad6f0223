-- ===== src/Lznt1/Literals.antt =====
-- libs/ntdll/lznt1.c: the decoder reads back what a compressor that uses no back references emits.
-- The encoder is a specification; the repository has none.
use mathlib.Core.List.{reverse, reverse_aux}
use native.Mathlib.Nat.{sub-zero}
use nloader.Base.{
  ℕ, zero, suc, ◌+◌, ◌-◌, ◌*◌, ◌/◌, ◌%◌, ◌^◌, ◌≤◌, ◌<◌, ◌≡◌, refl, true, false, some, List, [], ◌∷◌,
  ◌++◌, arith, length, ltb, length-append, sym, ◌∙◌, ap,
}
use nloader.Lznt1.{
  ok, ◌>>=◌, Cursor, read_word, literal, token, tokens, group, block, copy_raw, raw, chunk, chunks,
  raw_chunk, start, decompress_lznt1,
}

-- The body of a compressed chunk of literals: a mask of zeros in front of every eight bytes; `left`
-- bytes still belong to the open group.
unfoldable pub put_literals : ℕ → List ℕ → List ℕ
put_literals left [] = []
put_literals zero (b ∷ bs) = 0 ∷ b ∷ put_literals 7 bs
put_literals (suc left) (b ∷ bs) = b ∷ put_literals left bs

abbrev cursor : List ℕ → List ℕ → ℕ → ℕ → ℕ → Cursor
cursor input w room blocksz blockpos = record {
  input = input;
  written = w;
  room = room;
  blocksz = blocksz;
  blockpos = blockpos;
}

tokens-literal :
    (left b : ℕ) (rest w : List ℕ) (room blocksz blockpos : ℕ)
    → 0 < room
    → tokens (suc left) 0 (cursor (b ∷ rest) w room (suc blocksz) blockpos)
      ≡ tokens left 0 (cursor rest (b ∷ w) (room - 1) blocksz ((blockpos + 1) % 2 ^ 16))
unfolding tokens token literal
tokens-literal left b rest w room blocksz blockpos h = ground arith

tokens-zero : (s : Cursor) → tokens 0 0 s ≡ ok s
unfolding tokens
tokens-zero s = refl

tokens-end : (left : ℕ) (s : Cursor) → s.blocksz ≡ 0 → tokens left 0 s ≡ ok s
unfolding tokens
tokens-end zero s e = refl
tokens-end (suc left) s e = ground arith

block-end : (fuel : ℕ) (s : Cursor) → s.blocksz ≡ 0 → block (suc fuel) s ≡ ok s
unfolding block
block-end fuel s e = ground arith

block-suc :
    (fuel : ℕ) (s : Cursor) → 0 < s.blocksz → block (suc fuel) s ≡ (group s >>= λ s'. block fuel s')
unfolding block
block-suc fuel s h = ground arith

group-literals :
    (rest w : List ℕ) (room blocksz blockpos : ℕ)
    → group (cursor (0 ∷ rest) w room (suc blocksz) blockpos)
      ≡ tokens 8 0 (cursor rest w room blocksz blockpos)
unfolding group
group-literals rest w room blocksz blockpos =
    let e : suc blocksz - 1 ≡ blocksz = omega arith in
    ap (λ n. tokens 8 0 (cursor rest w room n blockpos)) e

-- The tokens that are left in a group, and the groups behind it.
block-literals :
    (left : ℕ) (bs rest w : List ℕ) (fuel room blockpos : ℕ)
    → length bs ≤ room
    → length (put_literals left bs) < fuel
    → (p : ℕ) × ((tokens left 0
            (cursor (put_literals left bs ++ rest) w room (length (put_literals left bs)) blockpos)
          >>= λ s. block fuel s)
        ≡ ok (cursor rest (reverse_aux bs w) (room - length bs) 0 p))
unfolding put_literals
block-literals left [] rest w zero room blockpos h k = absurd (omega arith)
block-literals left [] rest w (suc fuel) room blockpos h k =
    let c : Cursor = cursor rest w room 0 blockpos in
    (
      blockpos,
      ap (λ m. m >>= λ s. block (suc fuel) s) (tokens-end left c refl)
          ∙ block-end fuel c refl
          ∙ ap (λ n. ok (cursor rest w n 0 blockpos)) (sym (sub-zero room)),
    )
block-literals zero (b ∷ bs) rest w zero room blockpos h k = absurd (omega arith)
block-literals zero (b ∷ bs) rest w (suc fuel) room blockpos h k =
    let n : ℕ = length (put_literals 7 bs) in
    let c : Cursor = cursor (b ∷ (put_literals 7 bs ++ rest)) w room (suc n) blockpos in
    let c0 : Cursor = cursor (0 ∷ b ∷ (put_literals 7 bs ++ rest)) w room (suc (suc n)) blockpos in
    let (p, e) =
      block-literals 7 bs rest (b ∷ w) fuel (room - 1) ((blockpos + 1) % 2 ^ 16) (omega arith)
        (omega arith) in
    (
      p,
      ap (λ m. m >>= λ s. block (suc fuel) s) (tokens-zero c0)
          ∙ block-suc fuel c0 (omega arith)
          ∙ ap (λ m. m >>= λ s. block fuel s)
              (group-literals (b ∷ (put_literals 7 bs ++ rest)) w room (suc n) blockpos
                ∙ tokens-literal 7 b (put_literals 7 bs ++ rest) w room n blockpos (omega arith))
          ∙ e
          ∙ ap (λ n. ok (cursor rest (reverse_aux bs (b ∷ w)) n 0 p)) (omega arith),
    )
block-literals (suc left) (b ∷ bs) rest w fuel room blockpos h k =
    let (p, e) =
      block-literals left bs rest (b ∷ w) fuel (room - 1) ((blockpos + 1) % 2 ^ 16) (omega arith)
        (omega arith) in
    (
      p,
      ap (λ m. m >>= λ s. block fuel s)
            (tokens-literal left b (put_literals left bs ++ rest) w room
              (length (put_literals left bs)) blockpos (omega arith))
          ∙ e
          ∙ ap (λ n. ok (cursor rest (reverse_aux bs (b ∷ w)) n 0 p)) (omega arith),
    )

copy_raw-append :
    (bs rest w : List ℕ) → copy_raw (length bs) (bs ++ rest) w ≡ some (rest, reverse_aux bs w)
unfolding copy_raw
copy_raw-append [] rest w = refl
copy_raw-append (b ∷ bs) rest w = copy_raw-append bs rest (b ∷ w)

-- A chunk of the stream: its header, the low byte first, and its body.
pub data Piece : Type 0 where
  compressed : List ℕ → Piece
  stored : List ℕ → Piece

abbrev pub content : Piece → List ℕ
content (compressed bs) = bs
content (stored bs) = bs

-- Bit 15 and the low 12 bits are what the decoder reads of a header; 3 stands in the bits between.
unfoldable pub header : Piece → ℕ
unfolding put_literals
header (compressed bs) = 0xb000 + (length (put_literals 0 bs) - 1)
header (stored bs) = 0x3fff

unfoldable pub encode_piece : Piece → List ℕ
unfolding header put_literals
encode_piece (compressed bs) =
    header (compressed bs) % 256 ∷ header (compressed bs) / 256 ∷ put_literals 0 bs
encode_piece (stored bs) = header (stored bs) % 256 ∷ header (stored bs) / 256 ∷ bs

-- What fits a chunk: a body of 1 to 4096 bytes, masks included, or exactly 4096 stored bytes.
abbrev pub Fits : Piece → Type 0
Fits (compressed bs) = (0 < length (put_literals 0 bs)) × (length (put_literals 0 bs) ≤ 0x1000)
Fits (stored bs) = length bs ≡ raw_chunk

unfoldable pub encode : List Piece → List ℕ
unfolding encode_piece
encode [] = []
encode (p ∷ ps) = encode_piece p ++ encode ps

abbrev pub contents : List Piece → List ℕ
contents [] = []
contents (p ∷ ps) = content p ++ contents ps

chunk-compressed :
    (v n : ℕ) (rest w : List ℕ) (room blocksz blockpos : ℕ)
    → 0x8000 ≤ v
    → v % 0x1000 + 1 ≡ n
    → chunk (cursor (v % 256 ∷ v / 256 ∷ rest) w room blocksz blockpos)
      ≡ block (n + 1) (cursor rest w room n 0)
unfolding chunk read_word
chunk-compressed v n rest w room blocksz blockpos h e =
    let word : v / 256 * 256 + v % 256 ≡ v = omega arith in
    let fuel : v % 0x1000 + 2 ≡ n + 1 = omega arith in
    let big : ltb v 0x8000 ≡ false = ground arith in rw (word, big, fuel, e)

chunk-stored :
    (bs rest w : List ℕ) (room blocksz blockpos : ℕ)
    → length bs ≡ raw_chunk
    → length bs ≤ room
    → chunk (cursor (0xff ∷ 0x3f ∷ (bs ++ rest)) w room blocksz blockpos)
      ≡ ok (cursor rest (reverse_aux bs w) (room - length bs) raw_chunk 0)
unfolding chunk read_word raw
chunk-stored bs rest w room blocksz blockpos e h =
    let wide : ltb room raw_chunk ≡ false = ground arith in
    let copied : copy_raw raw_chunk (bs ++ rest) w ≡ some (rest, reverse_aux bs w) =
      rw (← e) (copy_raw-append bs rest w) in
    rw (wide, copied, e)

chunk-encode_piece :
    (p : Piece) (rest w : List ℕ) (room blocksz blockpos : ℕ)
    → Fits p
    → length (content p) ≤ room
    → (b : ℕ) × (q : ℕ) × (chunk (cursor (encode_piece p ++ rest) w room blocksz blockpos)
        ≡ ok (cursor rest (reverse_aux (content p) w) (room - length (content p)) b q))
unfolding encode_piece
chunk-encode_piece (compressed bs) rest w room blocksz blockpos f h =
    let n : ℕ = length (put_literals 0 bs) in
    let (p, e) = block-literals 0 bs rest w (n + 1) room 0 h (omega arith) in
    (
      0,
      p,
      chunk-compressed (0xb000 + (n - 1)) n (put_literals 0 bs ++ rest) w room blocksz blockpos
            (omega arith) (omega arith)
          ∙ ap (λ m. m >>= λ s. block (n + 1) s)
              (sym (tokens-zero (cursor (put_literals 0 bs ++ rest) w room n 0)))
          ∙ e,
    )
chunk-encode_piece (stored bs) rest w room blocksz blockpos f h =
    (raw_chunk, 0, chunk-stored bs rest w room blocksz blockpos f h)

abbrev pub FitAll : List Piece → Type 0
FitAll [] = Unit
FitAll (p ∷ ps) = Fits p × FitAll ps

encode_piece-cons : (p : Piece) → (b : ℕ) × (bs : List ℕ) × (encode_piece p ≡ b ∷ bs)
unfolding encode_piece
encode_piece-cons (compressed bs) = (_, _, refl)
encode_piece-cons (stored bs) = (_, _, refl)

chunks-cons :
    (fuel : ℕ) (s : Cursor) (b : ℕ) (rest : List ℕ)
    → s.input ≡ b ∷ rest
    → chunks (suc fuel) s ≡ (chunk s >>= λ s'. chunks fuel s')
unfolding chunks
chunks-cons fuel s b rest e = ground arith

reverse_aux-append :
    (xs ys w : List ℕ) → reverse_aux (xs ++ ys) w ≡ reverse_aux ys (reverse_aux xs w)
reverse_aux-append [] ys w = refl
reverse_aux-append (x ∷ xs) ys w = reverse_aux-append xs ys (x ∷ w)

chunks-encode :
    (ps : List Piece) (fuel : ℕ) (w : List ℕ) (room blocksz blockpos : ℕ)
    → FitAll ps
    → length (contents ps) ≤ room
    → length (encode ps) < fuel
    → (b : ℕ) × (q : ℕ) × (chunks fuel (cursor (encode ps) w room blocksz blockpos)
        ≡ ok (cursor [] (reverse_aux (contents ps) w) (room - length (contents ps)) b q))
unfolding encode chunks
chunks-encode ps zero w room blocksz blockpos f h k = absurd (omega arith)
chunks-encode [] (suc fuel) w room blocksz blockpos f h k =
    (blocksz, blockpos, ap (λ n. ok (cursor [] w n blocksz blockpos)) (sym (sub-zero room)))
chunks-encode (p ∷ ps) (suc fuel) w room blocksz blockpos f h k =
    let (x, xs, c) = encode_piece-cons p in
    let long = ap length c in
    let total = length-append {0} (content p) (contents ps) in
    let (b, q, one) =
      chunk-encode_piece p (encode ps) w room blocksz blockpos f.0 (omega (arith, total)) in
    let w' : List ℕ = reverse_aux (content p) w in
    let room' : ℕ = room - length (content p) in
    let (b', q', more) =
      chunks-encode ps fuel w' room' b q f.1 (omega (arith, total))
        (omega (arith, long, length-append {0} (encode_piece p) (encode ps))) in
    (
      b',
      q',
      chunks-cons fuel (cursor (encode_piece p ++ encode ps) w room blocksz blockpos) x
            (xs ++ encode ps) (ap (λ l. l ++ encode ps) c)
          ∙ ap (λ m. m >>= λ s. chunks fuel s) one
          ∙ more
          ∙ ap (λ l. ok (cursor [] l (room' - length (contents ps)) b' q'))
              (sym (reverse_aux-append (content p) (contents ps) w))
          ∙ ap (λ n. ok (cursor [] (reverse_aux (content p ++ contents ps) w) n b' q'))
              (omega (arith, total)),
    )

decompress_lznt1-chunks :
    (b : ℕ) (rest : List ℕ) (size : ℕ)
    → decompress_lznt1 (some (b ∷ rest)) true true size ≡ (
        chunks (suc (length (b ∷ rest))) (start (b ∷ rest) size) >>= λ s.
        ok (record { output = s.written; final_size = size - s.room }))
unfolding decompress_lznt1
decompress_lznt1-chunks b rest size = refl

-- A stream of one or more chunks, of 4096 stored bytes or of 1 to 4096 bytes of literals and their
-- masks, whose contents fit the output buffer is decompressed to exactly the contents (the last
-- byte first), and their length is reported.
pub decompress_lznt1-encode :
    (p : Piece) (ps : List Piece) (size : ℕ)
    → FitAll (p ∷ ps)
    → length (contents (p ∷ ps)) ≤ size
    → decompress_lznt1 (some (encode (p ∷ ps))) true true size
      ≡ ok
          (record { output = reverse (contents (p ∷ ps)); final_size = length (contents (p ∷ ps)) })
unfolding encode
decompress_lznt1-encode p ps size f h =
    let (x, xs, c) = encode_piece-cons p in
    let input : encode (p ∷ ps) ≡ x ∷ (xs ++ encode ps) = ap (λ l. l ++ encode ps) c in
    let (b, q, e) =
      chunks-encode (p ∷ ps) (suc (length (encode (p ∷ ps)))) [] size 0 0 f h (omega arith) in
    let report : size - (size - length (contents (p ∷ ps))) ≡ length (contents (p ∷ ps)) =
      omega arith in
    ap (λ l. decompress_lznt1 (some l) true true size) input
    ∙ decompress_lznt1-chunks x (xs ++ encode ps) size
    ∙ ap
        (λ l. chunks (suc (length l)) (start l size) >>= λ s.
          ok (record { output = s.written; final_size = size - s.room }))
        (sym input)
    ∙ ap (λ m. m >>= λ s. ok (record { output = s.written; final_size = size - s.room })) e
    ∙ ap (λ n. ok (record { output = reverse (contents (p ∷ ps)); final_size = n })) report
