-- ===== src/Rtl/Resources/Blocks.antt =====
-- libs/ntdll/rtl.c: the blocks of a message table, and what `RtlFindMessage` finds.
use nloader.Base.{
  ℕ, zero, suc, ◌+◌, ◌-◌, ◌≤◌, ◌<◌, ◌≡◌, refl, inl, inr, Bool, true, false, Option, none, some,
  List, arith, leb, Bool-cases, Option-cases, tests,
}
use nloader.Rtl.{◌>>=◌}
use nloader.Rtl.Resources.{
  load32, number_of_entries, Walked, skip_entries, in_block, entry_in, find_block, log_text, Found,
  found, not_found, undefined, find_entry, finish_found, find_in, resource_directory, find_message,
}
use nloader.Rtl.Resources.Ways.{Leads, Lost}
use nloader.Rtl.Resources.Walks.{
  Arrives, at_leaf, found_nothing, left_image, walk_resources-Arrives_root,
}

module _ (image : List ℕ) (id : ℕ) where
  -- The block has the message, or does not have it, or lies outside the image.
  pub data Has (block : ℕ) : Option Bool → Type 0 where
    within :
        (low high : ℕ)
        → load32 image block ≡ some low
        → load32 image (block + 4) ≡ some high
        → low ≤ id
        → id ≤ high
        → Has block (some true)
    under : (low : ℕ) → load32 image block ≡ some low → id < low → Has block (some false)
    over : (high : ℕ) → load32 image (block + 4) ≡ some high → high < id → Has block (some false)
    cut_off : Has block none

  in_block-Has : (block : ℕ) → Has block (in_block image id block)
  unfolding in_block
  in_block-Has block = elim (Option-cases (load32 image block)) [
    | inl o ↦ rw o cut_off
    | inr (low, l) ↦ elim (Bool-cases (leb low id)) [
      | inr u ↦ rw (l, u) (under low l (ground arith))
      | inl u ↦ elim (Option-cases (load32 image (block + 4))) [
        | inl o ↦ rw (l, u, o) cut_off
        | inr (high, h) ↦ elim (Bool-cases (leb id high)) [
          | inl v ↦ rw (l, u, h, v) (within low high l h (omega (tests, u)) (omega (tests, v)))
          | inr v ↦ rw (l, u, h, v) (over high h (ground arith))
        ]
      ]
    ]
  ]

  -- The first of `n` blocks that has the message, and its entry there.
  pub data InBlocks (data_at : ℕ) : ℕ → ℕ → Option (Option ℕ) → Type 0 where
    here :
        (n block low offset entry : ℕ)
        → Has block (some true)
        → load32 image block ≡ some low
        → load32 image (block + 8) ≡ some offset
        → skip_entries image (id - low) (data_at + offset) ≡ some entry
        → InBlocks data_at (suc n) block (some (some entry))
    later :
        (n block : ℕ) (r : Option (Option ℕ))
        → Has block (some false)
        → InBlocks data_at n (block + 12) r
        → InBlocks data_at (suc n) block r
    no_more : (block : ℕ) → InBlocks data_at 0 block (some none)
    broken : (n block : ℕ) → InBlocks data_at n block none

  entry_in-InBlocks :
      (n data_at block : ℕ)
      → Has block (some true)
      → InBlocks data_at
          (suc n)
          block
          (entry_in image id data_at block >>= λ entry. some (some entry))
  unfolding entry_in
  entry_in-InBlocks n data_at block has = elim (Option-cases (load32 image block)) [
    | inl o ↦ rw o (broken (suc n) block)
    | inr (low, l) ↦ elim (Option-cases (load32 image (block + 8))) [
      | inl o ↦ rw (l, o) (broken (suc n) block)
      | inr (offset, f) ↦ elim (Option-cases (skip_entries image (id - low) (data_at + offset))) [
        | inl o ↦ rw (l, f, o) (broken (suc n) block)
        | inr (entry, e) ↦ rw (l, f, e) (here n block low offset entry has l f e)
      ]
    ]
  ]

  block-InBlocks :
      (n data_at block : ℕ) (o : Option Bool)
      → in_block image id block ≡ o
      → Has block o
      → InBlocks data_at n (block + 12) (find_block n image id data_at (block + 12))
      → InBlocks data_at (suc n) block (find_block (suc n) image id data_at block)
  unfolding find_block
  block-InBlocks n data_at block (some true) e has rest =
      rw (find_block, e) (entry_in-InBlocks n data_at block has)
  block-InBlocks n data_at block (some false) e has rest =
      rw (find_block, e) (later n block _ has rest)
  block-InBlocks n data_at block none e has rest = rw (find_block, e) (broken (suc n) block)

  find_block-InBlocks :
      (n data_at block : ℕ) → InBlocks data_at n block (find_block n image id data_at block)
  unfolding find_block
  find_block-InBlocks zero data_at block = no_more block
  find_block-InBlocks (suc n) data_at block =
      block-InBlocks n data_at block (in_block image id block) refl (in_block-Has block)
        (find_block-InBlocks n data_at (block + 12))

  module _ (type lang : ℕ) where
    -- A message that is found, and the ways in which it is not.
    pub data IsFound : Found → Type 0 where
      in_table :
          (root size rde data_at count entry : ℕ)
          → resource_directory image ≡ some (root, suc size)
          → Leads image root type lang 1 root rde
          → load32 image rde ≡ some data_at
          → load32 image data_at ≡ some count
          → InBlocks data_at count (data_at + 4) (some (some entry))
          → IsFound (found entry)
      in_no_block :
          (root size rde data_at count : ℕ)
          → resource_directory image ≡ some (root, suc size)
          → Leads image root type lang 1 root rde
          → load32 image rde ≡ some data_at
          → load32 image data_at ≡ some count
          → InBlocks data_at count (data_at + 4) (some none)
          → IsFound not_found
      no_leaf :
          (root size : ℕ)
          → resource_directory image ≡ some (root, suc size)
          → Lost image root type lang 1 root
          → IsFound not_found
      no_resources : (root : ℕ) → resource_directory image ≡ some (root, 0) → IsFound not_found
      unreadable : IsFound undefined

    module _ (root size : ℕ) (r : resource_directory image ≡ some (root, suc size)) where
      finish-IsFound :
          (rde data_at count : ℕ)
          → Leads image root type lang 1 root rde
          → load32 image rde ≡ some data_at
          → load32 image data_at ≡ some count
          → (o : Option (Option ℕ)) → InBlocks data_at count (data_at + 4) o
          → IsFound (finish_found image o)
      unfolding finish_found
      finish-IsFound rde data_at count l d c none b = unreadable
      finish-IsFound rde data_at count l d c (some none) b =
          in_no_block root size rde data_at count r l d c b
      finish-IsFound rde data_at count l d c (some (some entry)) b =
          elim (Option-cases (log_text image entry)) [
            | inl o ↦ rw (finish_found, o) unreadable
            | inr (text, e) ↦
                rw (finish_found, e) (in_table root size rde data_at count entry r l d c b)
          ]

      find_in-IsFound :
          (w : Walked) → Arrives image root type lang 1 root w → IsFound (find_in image id w)
      unfolding find_in find_entry finish_found
      find_in-IsFound _ (at_leaf rde l) = elim (Option-cases (load32 image rde)) [
        | inl o ↦ rw o unreadable
        | inr (data_at, d) ↦ elim (Option-cases (load32 image data_at)) [
          | inl o ↦ rw (d, o) unreadable
          | inr (count, c) ↦
              rw (d, c)
                (finish-IsFound rde data_at count l d c _
                  (find_block-InBlocks count data_at (data_at + 4)))
        ]
      ]
      find_in-IsFound _ (found_nothing lost) = no_leaf root size r lost
      find_in-IsFound _ left_image = unreadable

    find_resource-IsFound :
        (o : Option (ℕ × ℕ))
        → resource_directory image ≡ o
        → IsFound (find_message image type lang id true)
    unfolding find_message
    find_resource-IsFound none e = rw (find_message, e) unreadable
    find_resource-IsFound (some (root, zero)) e = rw (find_message, e) (no_resources root e)
    find_resource-IsFound (some (root, suc size)) e =
        elim (Option-cases (number_of_entries image root)) [
          | inl o ↦ rw (find_message, e, o) unreadable
          | inr (count, c) ↦
              rw (find_message, e, c)
                (find_in-IsFound root size e _
                  (walk_resources-Arrives_root image root type lang count c))
        ]

    -- The search for a message ends. The entry it finds is that of the first block whose range has
    -- the number of the message, in the table that the entries on the way from the root lead to:
    -- the first has the type as its number and leads to a directory, the second the number 1 and
    -- leads to a directory, and the third leads to the table and has the language as its number,
    -- unless the language is 0. It reports that there is no message where the image has no
    -- resources, where such a way ends at a directory none of whose entries leads on, or where no
    -- block of the table has the message. Nothing is said of an image in which it reads outside.
    pub find_message-IsFound : IsFound (find_message image type lang id true)
    find_message-IsFound = find_resource-IsFound (resource_directory image) refl
