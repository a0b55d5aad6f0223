-- ===== src/Tests/Resources.antt =====
-- libs/ntdll/rtl.c: the search for a message in a small image.
use nloader.Base.{ℕ, ◌+◌, ◌^◌, ◌≡◌, refl, true, false, some, List, [], ◌∷◌, ◌++◌, arith, replicate}
use nloader.Loader.{word16, word32}
use nloader.Loader.Patch.{le_bytes}
use nloader.Rtl.Resources.{
  found, not_found, undefined, access_violation, find_message, finish_found, entry_in, load16,
  load32,
}
use nloader.Rtl.Resources.Blocks.{IsFound, find_message-IsFound}
use nloader.Rtl.Resources.Texts.{entry_in-joined, finish_found-undefined}

-- A directory with one entry.
abbrev directory : ℕ → ℕ → List ℕ
directory id word = replicate 14 0 ++ (le_bytes 2 1 ++ (le_bytes 4 id ++ le_bytes 4 word))

abbrev entry_a : List ℕ
entry_a = le_bytes 2 8 ++ (0 ∷ 0 ∷ b'a' ∷ 0 ∷ 0 ∷ 0 ∷ [])

abbrev entry_b : List ℕ
entry_b = le_bytes 2 8 ++ (0 ∷ 0 ∷ b'b' ∷ 0 ∷ 0 ∷ 0 ∷ [])

-- The headers, up to the root of the resources at 224.
abbrev headers : List ℕ
headers =
    replicate 60 0 ++ (le_bytes 4 64 ++ (replicate 152 0 ++ (le_bytes 4 224 ++ le_bytes 4 128)))

abbrev tree : List ℕ
tree =
    directory 11 (2 ^ 31 + 24)
    ++ (directory 1 (2 ^ 31 + 48) ++ (directory 1033 72 ++ le_bytes 16 312))

-- A table with a block for the messages 5 and 6, and their entries, the second of them at 336.
abbrev table : List ℕ
table = le_bytes 4 1 ++ (le_bytes 4 5 ++ (le_bytes 4 6 ++ (le_bytes 4 16 ++ (entry_a ++ entry_b))))

abbrev block_of_table : List ℕ
block_of_table = le_bytes 4 1 ++ (le_bytes 4 5 ++ (le_bytes 4 6 ++ le_bytes 4 16))

abbrev tight : List ℕ
tight = headers ++ (tree ++ table)

abbrev image : List ℕ
image = tight ++ replicate 8 0

finds_second : find_message image 11 1033 6 true ≡ found 336
unfolding find_message le_bytes
finds_second = refl

finds_any_language : find_message image 11 0 5 true ≡ found 328
unfolding find_message le_bytes
finds_any_language = refl

other_number : find_message image 11 1033 7 true ≡ not_found
unfolding find_message le_bytes
other_number = refl

other_language : find_message image 11 1040 6 true ≡ not_found
unfolding find_message le_bytes
other_language = refl

reads_behind : find_message tight 11 1033 6 true ≡ undefined
unfolding find_message le_bytes
reads_behind = refl

no_result : find_message image 11 1033 6 false ≡ access_violation
unfolding find_message le_bytes
no_result = refl

find_message-IsFound_example : IsFound image 6 11 1033 (found 336)
unfolding find_message le_bytes
find_message-IsFound_example = find_message-IsFound image 6 11 1033

entry_in-joined_example : entry_in tight 6 312 316 ≡ some 336
unfolding le_bytes load32 word16 word32
entry_in-joined_example =
    entry_in-joined (headers ++ (tree ++ block_of_table)) (entry_a ∷ entry_b ∷ []) [] 6 5 312 316 16
      refl refl refl (omega arith) (omega arith) ((refl, omega arith), ((refl, omega arith), tt))

finish_found-undefined_example : finish_found tight (some (some 336)) ≡ undefined
unfolding load16 le_bytes
finish_found-undefined_example =
    finish_found-undefined tight 336 0 8 refl refl refl (omega arith) (omega arith)
