-- ===== src/Tests/Lznt1.antt =====
-- libs/ntdll/lznt1.c on concrete streams.
use nloader.Base.{◌≡◌, refl, true, some, List, [], ◌∷◌, ℕ, arith}
use nloader.Lznt1.{
  ok, decompress_lznt1, decompress_buffer, expand_run, Cursor, split_at, chunks, chunk, read_word,
  block, group, tokens, token, run_length, run_back, copy_run, peek_back,
}
use nloader.Lznt1.Bounds.{StaysWithin, decompress_lznt1-StaysWithin}
use nloader.Lznt1.Literals.{
  compressed, encode, contents, FitAll, put_literals, decompress_lznt1-encode,
}
use mathlib.Core.List.{reverse}

-- One chunk: the literals "ab", then a run of 5 bytes from 2 back.
abbrev stream : List ℕ
stream = 4 ∷ 0xb0 ∷ 4 ∷ b'a' ∷ b'b' ∷ 2 ∷ 0x10 ∷ []

stream_output :
    decompress_buffer 2 (some stream) true true 16
    ≡ ok (record { output = b'a' ∷ b'b' ∷ b'a' ∷ b'b' ∷ b'a' ∷ b'b' ∷ b'a' ∷ []; final_size = 7 })
unfolding decompress_buffer chunks chunk read_word block group tokens token expand_run run_length
    run_back split_at copy_run peek_back
stream_output = refl

decompress_lznt1-StaysWithin_example : StaysWithin 16 (decompress_lznt1 (some stream) true true 16)
decompress_lznt1-StaysWithin_example = decompress_lznt1-StaysWithin (some stream) true true 16

-- Two bytes written, room for eight more.
abbrev two_written : Cursor
two_written = record { input = []; written = b'b' ∷ b'a' ∷ []; room = 8; blocksz = 0; blockpos = 2 }

abbrev hello : List ℕ
hello = b'h' ∷ b'e' ∷ b'l' ∷ b'l' ∷ b'o' ∷ []

hello-FitAll : FitAll (compressed hello ∷ [])
unfolding put_literals
hello-FitAll = omega arith

decompress_lznt1-encode_example :
    decompress_lznt1 (some (encode (compressed hello ∷ []))) true true 16
    ≡ ok (record { output = reverse (contents (compressed hello ∷ [])); final_size = 5 })
decompress_lznt1-encode_example =
    decompress_lznt1-encode (compressed hello) [] 16 hello-FitAll (omega arith)
