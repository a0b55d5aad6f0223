-- ===== src/Rtl/Resources/Texts.antt =====
-- libs/ntdll/rtl.c: the entries of a message table one behind the other, and the text that
-- `RtlFindMessage` converts for the log.
use mathlib.Core.List.{append_assoc}
use nloader.Base.{
  ℕ, zero, suc, ◌-◌, ◌+◌, ◌%◌, ◌≤◌, ◌<◌, ◌≡◌, ap, sym, ◌∙◌, inl, inr, true, false, none, some, List,
  [], ◌∷◌, ◌++◌, All, arith, length, length-append, length-drop, drop, ltb, leb, ◌==◌, Bool-cases,
  tests,
}
use nloader.Loader.{word16}
use nloader.Loader.Bytes.{get_or-append_left, get_or-append_right}
use nloader.Rtl.Copy.{copy_from-none}
use nloader.Rtl.Resources.{
  load16, load32, entry_in, skip_entries, fresh_message, conversion_size, log_text, finish_found,
  undefined,
}

-- Bytes that start with their length.
abbrev pub IsEntry : List ℕ → Type 0
IsEntry bytes = (word16 bytes 0 ≡ length bytes) × (4 ≤ length bytes)

abbrev pub joined : List (List ℕ) → List ℕ → List ℕ
joined [] after = after
joined (e ∷ es) after = e ++ joined es after

-- The bytes of the first `n` entries.
abbrev pub bytes_before : ℕ → List (List ℕ) → ℕ
bytes_before zero es = 0
bytes_before (suc n) [] = 0
bytes_before (suc n) (e ∷ es) = length e + bytes_before n es

lt_leb : (a b : ℕ) → a ≤ b → leb a b ≡ true
lt_leb a b h = ground arith

load16-append :
    (before e after : List ℕ) (p : ℕ)
    → p ≡ length before
    → IsEntry e
    → load16 (before ++ (e ++ after)) p ≡ some (length e)
unfolding load16 word16
load16-append before e after p at is =
    let total = length-append before (e ++ after) in
    let tail = length-append e after in
    let inside : leb (p + 2) (length (before ++ (e ++ after))) ≡ true =
      lt_leb (p + 2) _ (omega (arith, is.1, total, tail)) in
    let a = get_or-append_right before (e ++ after) p 0 0 (omega arith) in
    let b = get_or-append_right before (e ++ after) (p + 1) 1 0 (omega arith) in
    let c = get_or-append_left e after 0 0 (omega (arith, is.1)) in
    let d = get_or-append_left e after 1 0 (omega (arith, is.1)) in
    rw (inside, a, b, c, d) (ap some (is.0))

-- As many entries are skipped as asked for, where they stand one behind the other.
skip_entries-joined :
    (n : ℕ) (before : List ℕ) (entries : List (List ℕ)) (after : List ℕ) (p : ℕ)
    → p ≡ length before
    → n ≤ length entries
    → All IsEntry entries
    → skip_entries (before ++ joined entries after) n p ≡ some (p + bytes_before n entries)
unfolding skip_entries
skip_entries-joined zero before entries after p at h all = ap some (omega arith)
skip_entries-joined (suc n) before [] after p at h all = absurd (omega arith)
skip_entries-joined (suc n) before (e ∷ es) after p at h all =
    let image = before ++ (e ++ joined es after) in
    let apart : image ≡ (before ++ e) ++ joined es after =
      sym (append_assoc before e (joined es after)) in
    let next : skip_entries image n (p + length e) ≡ some (p + length e + bytes_before n es) =
      ap (λ l. skip_entries l n (p + length e)) apart
      ∙ skip_entries-joined n (before ++ e) es after (p + length e)
          (omega (arith, length-append before e)) (omega arith) all.1 in
    rw (skip_entries, load16-append before e (joined es after) p at all.0)
      (next ∙ ap some (omega arith))

-- The entry found for a message in a block is the one with as many entries in front of it as there
-- are messages between the first of the block and the one that is looked for, where the entries of
-- the block stand one behind the other from its offset in the table on, and start with their
-- lengths.
pub entry_in-joined :
    (before : List ℕ) (entries : List (List ℕ)) (after : List ℕ) (id low data_at block offset : ℕ)
    → load32 (before ++ joined entries after) block ≡ some low
    → load32 (before ++ joined entries after) (block + 8) ≡ some offset
    → data_at + offset ≡ length before
    → low ≤ id
    → id < low + length entries
    → All IsEntry entries
    → entry_in (before ++ joined entries after) id data_at block
      ≡ some (length before + bytes_before (id - low) entries)
unfolding entry_in
entry_in-joined before entries after id low data_at block offset l o at lo hi all =
    rw (entry_in, l, o)
      (skip_entries-joined (id - low) before entries after (data_at + offset) at (omega arith) all
        ∙ ap (λ p. some (p + bytes_before (id - low) entries)) at)

load16-inside : (image : List ℕ) (p v : ℕ) → load16 image p ≡ some v → p + 2 ≤ length image
unfolding load16
load16-inside image p v h = ground arith

log_text-none :
    (image : List ℕ) (entry flags size : ℕ)
    → load16 image (entry + 2) ≡ some flags
    → load16 image entry ≡ some size
    → flags % 2 ≡ 0
    → size ≤ conversion_size
    → length image < entry + 4 + size
    → log_text image entry ≡ none
unfolding log_text
log_text-none image entry flags size f s narrow fits short =
    let bytes : (flags % 2 == 1) ≡ false = ground arith in
    let left = length-drop (entry + 4) image in
    let inside = load16-inside image (entry + 2) flags f in
    elim (Bool-cases (ltb size conversion_size)) [
      | inl e ↦ rw (
        log_text,
        f,
        s,
        bytes,
        e,
        copy_from-none (λ b. b) size (drop (entry + 4) image) fresh_message
            (inl (omega (arith, left, short, inside))),
      )
      | inr e ↦ rw (
        log_text,
        f,
        s,
        bytes,
        e,
        copy_from-none (λ b. b) conversion_size (drop (entry + 4) image) fresh_message
            (inl (omega (tests, left, short, inside, e))),
      )
    ]

-- A message in bytes at whose text fewer than `Length` bytes are left in the image, because the
-- length counts the four bytes in front of the text, is read outside the image for the log.
pub finish_found-undefined :
    (image : List ℕ) (entry flags size : ℕ)
    → load16 image (entry + 2) ≡ some flags
    → load16 image entry ≡ some size
    → flags % 2 ≡ 0
    → size ≤ conversion_size
    → length image < entry + 4 + size
    → finish_found image (some (some entry)) ≡ undefined
unfolding finish_found
finish_found-undefined image entry flags size f s narrow fits short =
    rw (finish_found, log_text-none image entry flags size f s narrow fits short)
