-- ===== src/Rtl/Resources/Ways.antt =====
-- libs/ntdll/rtl.c: the ways through the directories of the resources.
use nloader.Base.{
  ◌/◌, ==_iff, ℕ, suc, ◌+◌, ◌*◌, ◌%◌, ◌^◌, ◌≤◌, ◌<◌, ◌≡◌, ◌⊎◌, inl, inr, true, false, some, List,
  arith, length,
}
use nloader.Rtl.Resources.{load32, high_bit, number_of_entries, goes_down, is_leaf}

pub load32-inside : (image : List ℕ) (p v : ℕ) → load32 image p ≡ some v → p + 4 ≤ length image
unfolding load32
load32-inside image p v h = ground arith

module _ (image : List ℕ) where
  -- The words of the entry `j` of the directory at `rd`.
  abbrev pub EntryWords : ℕ → ℕ → ℕ → ℕ → Type 0
  EntryWords rd j name word =
      (load32 image (rd + 16 + 8 * j) ≡ some name)
      × (load32 image (rd + 16 + 8 * j + 4) ≡ some word)

  -- An entry that the loop looks at: one of the directory's, or the first without a look at their
  -- number.
  abbrev pub IsVisited : ℕ → ℕ → Type 0
  IsVisited rd j = (len : ℕ) × ((number_of_entries image rd ≡ some len) × ((j < len) ⊎ (j ≡ 0)))

-- `NameIsString` and `DataIsDirectory`.
abbrev pub HighBit : ℕ → Type 0
HighBit word = word / 2 ^ 31 % 2 ≡ 1

module _ (type lang level name word : ℕ) where
  -- An entry of a directory of the level that leads to the next level: it has a number and leads to a
  -- directory, and the number is the type on the first level and 1 on the second.
  abbrev pub LeadsDown : Type 0
  LeadsDown =
      (¬ HighBit name)
      × (HighBit word)
      × ((level ≡ 1) × (name % 2 ^ 16 ≡ type) ⊎ (level ≡ 2) × (name % 2 ^ 16 ≡ 1))

  -- An entry that is taken for the table: it leads to no directory, or has a name, on the third
  -- level, and its number is the language, unless any language will do.
  abbrev pub IsLeaf : Type 0
  IsLeaf = ((HighBit name) ⊎ (¬ HighBit word)) × (level ≡ 3) × ((lang ≡ 0) ⊎ (name % 2 ^ 16 ≡ lang))

  abbrev pub IsPassed : Type 0
  IsPassed = (¬ LeadsDown) × (¬ IsLeaf)

pub high_bit-HighBit : (word : ℕ) → high_bit word ≡ true → HighBit word
unfolding high_bit
high_bit-HighBit word h = (==_iff (word / 2 ^ 31 % 2) 1).0 h

pub not_HighBit : (word : ℕ) → high_bit word ≡ false → ¬ HighBit word
unfolding high_bit
not_HighBit word h e = ground (arith, h, e)

pub goes_down-true :
    (type level id : ℕ)
    → goes_down type level id ≡ true
    → (level ≡ 1) × (id ≡ type) ⊎ (level ≡ 2) × (id ≡ 1)
unfolding goes_down
goes_down-true type level id h = ground (arith, h)

pub goes_down-false :
    (type level id : ℕ)
    → goes_down type level id ≡ false
    → ¬ ((level ≡ 1) × (id ≡ type) ⊎ (level ≡ 2) × (id ≡ 1))
unfolding goes_down
goes_down-false type level id h (inl (l, e)) = ground (arith, h, l, e)
goes_down-false type level id h (inr (l, e)) = ground (arith, h, l, e)

pub is_leaf-true :
    (lang level id : ℕ) → is_leaf lang level id ≡ true → (level ≡ 3) × ((lang ≡ 0) ⊎ (id ≡ lang))
unfolding is_leaf
is_leaf-true lang level id h = ground (arith, h)

pub is_leaf-false :
    (lang level id : ℕ)
    → is_leaf lang level id ≡ false
    → ¬ ((level ≡ 3) × ((lang ≡ 0) ⊎ (id ≡ lang)))
unfolding is_leaf
is_leaf-false lang level id h (l, inl e) = ground (arith, h, l, e)
is_leaf-false lang level id h (l, inr e) = ground (arith, h, l, e)

module _ (image : List ℕ) (root type lang : ℕ) where
  -- A path of entries from a directory of a level to a leaf.
  pub data Leads : ℕ → ℕ → ℕ → Type 0 where
    to_leaf :
        (level rd j name word : ℕ)
        → IsVisited image rd j
        → EntryWords image rd j name word
        → IsLeaf type lang level name word
        → Leads level rd (root + word)
    through :
        (level rd j name word rde : ℕ)
        → IsVisited image rd j
        → EntryWords image rd j name word
        → LeadsDown type lang level name word
        → Leads (suc level) (root + word % 2 ^ 31) rde
        → Leads level rd rde

  -- A path of entries from a directory of a level to a directory without an entry that leads on.
  pub data Lost : ℕ → ℕ → Type 0 where
    no_entry :
        (level rd len : ℕ)
        → number_of_entries image rd ≡ some len
        → ((j name word : ℕ)
            → j < len
            → EntryWords image rd j name word
            → IsPassed type lang level name word)
        → Lost level rd
    below_entry :
        (level rd j name word : ℕ)
        → IsVisited image rd j
        → EntryWords image rd j name word
        → LeadsDown type lang level name word
        → Lost (suc level) (root + word % 2 ^ 31)
        → Lost level rd
