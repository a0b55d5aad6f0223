-- ===== src/Rtl/Resources/Walks.antt =====
-- libs/ntdll/rtl.c: where the walk over the resources of an image ends.
use mathlib.Core.Path.{subst}
use mathlib.Core.Option.{some-injective}
use nloader.Base.{
  ap, sym, ◌∙◌, ==_iff, ℕ, zero, suc, ◌+◌, ◌-◌, ◌*◌, ◌%◌, ◌^◌, ◌≤◌, ◌<◌, ◌≡◌, refl, ◌⊎◌, inl, inr,
  true, false, ◌&&◌, Option, none, some, List, arith, length, ltb, ◌==◌, if◌then◌else◌, Bool-cases,
  Option-cases,
}
use nloader.Rtl.Resources.{
  load32, Walk, Next, more, ends, current, high_bit, is_directory, settle, number_of_entries,
  descend, leaf, advance, goes_down, is_leaf, at_entry, walk_round, Walked, at, nowhere, outside,
  walk_resources,
}
use nloader.Rtl.Resources.Ways.{
  load32-inside, EntryWords, IsVisited, HighBit, LeadsDown, IsLeaf, IsPassed, high_bit-HighBit,
  not_HighBit, goes_down-true, goes_down-false, is_leaf-true, is_leaf-false, Leads, to_leaf,
  through, Lost, no_entry, below_entry,
}

module _ (image : List ℕ) (root type lang : ℕ) where
  -- What a round does.
  data RoundEnd (w : Walk) : Option Next → Type 0 where
    stray : RoundEnd w none
    aside :
        current w + 4 ≤ length image
        → ((name word : ℕ)
            → EntryWords image w.rd w.i name word
            → IsPassed type lang w.level name word)
        → RoundEnd w (some (settle (record w { i = suc (w.i) })))
    below :
        (name word count : ℕ)
        → EntryWords image w.rd w.i name word
        → LeadsDown type lang w.level name word
        → number_of_entries image (root + word % 2 ^ 31) ≡ some count
        → RoundEnd w (
            some (
              settle
                (record { level = suc (w.level); rd = root + word % 2 ^ 31; i = 0; len = count })))
    last :
        (name word : ℕ)
        → EntryWords image w.rd w.i name word
        → IsLeaf type lang w.level name word
        → RoundEnd w (some (ends (some (root + word))))

  descend-RoundEnd :
      (w : Walk) (name word : ℕ)
      → EntryWords image w.rd w.i name word
      → LeadsDown type lang w.level name word
      → RoundEnd w (descend image root w)
  unfolding descend current
  descend-RoundEnd w name word e d =
      elim (Option-cases (number_of_entries image (root + word % 2 ^ 31))) [
        | inl o ↦ rw (e.1, o) stray
        | inr (count, c) ↦ rw (e.1, c) (below name word count e d c)
      ]

  at_entry-RoundEnd_plain :
      (w : Walk) (name : ℕ)
      → load32 image (current w) ≡ some name
      → ((word : ℕ) → load32 image (current w + 4) ≡ some word → (HighBit name) ⊎ (¬ HighBit word))
      → RoundEnd w (at_entry image root type lang w (name % 2 ^ 16) false)
  unfolding at_entry leaf advance current
  at_entry-RoundEnd_plain w name h plain =
      elim (Bool-cases (is_leaf lang w.level (name % 2 ^ 16))) [
        | inl l ↦ elim (Option-cases (load32 image (current w + 4))) [
          | inl o ↦ rw (l, o) stray
          | inr (word, e) ↦
              let (third, language) = is_leaf-true lang w.level (name % 2 ^ 16) l in
              rw (l, e) (last name word (h, e) (plain word e, third, language))
        ]
        | inr l ↦ rw l (
            aside (load32-inside image (current w) name h) (λ name' word e. (
              λ d. either word d.0 d.1 (plain word e.1) (some-injective _ _ (sym h ∙ e.0)),
              λ f.
                  is_leaf-false lang w.level (name % 2 ^ 16) l
                    (f.1, same_number name name' lang (some-injective _ _ (sym h ∙ e.0)) f.2),
            )))
      ]
    where
      either :
          {name' : ℕ} (word : ℕ)
          → (¬ HighBit name')
          → HighBit word
          → (HighBit name) ⊎ (¬ HighBit word)
          → name ≡ name'
          → ⊥
      either word d t (inl q) same = d (subst HighBit same q)
      either word d t (inr q) same = q t

      same_number : (a b l : ℕ) → a ≡ b → (l ≡ 0) ⊎ (b % 2 ^ 16 ≡ l) → (l ≡ 0) ⊎ (a % 2 ^ 16 ≡ l)
      same_number a b l e (inl q) = inl q
      same_number a b l e (inr q) = inr (ap (λ n. n % 2 ^ 16) e ∙ q)

  at_entry-RoundEnd_directory :
      (w : Walk) (name word : ℕ)
      → EntryWords image w.rd w.i name word
      → ¬ HighBit name
      → HighBit word
      → RoundEnd w (at_entry image root type lang w (name % 2 ^ 16) true)
  unfolding at_entry advance current
  at_entry-RoundEnd_directory w name word e n d =
      elim (Bool-cases (goes_down type w.level (name % 2 ^ 16))) [
        | inl g ↦
            rw g
              (descend-RoundEnd w name word e (n, d, goes_down-true type w.level (name % 2 ^ 16) g))
        | inr g ↦ rw g (
            aside (load32-inside image (current w) name e.0) (λ name' word' e'.
              let same_name = some-injective _ _ (sym e.0 ∙ e'.0) in
              let same_word = some-injective _ _ (sym e.1 ∙ e'.1) in
              (
                λ f. goes_down-false type w.level (name % 2 ^ 16) g (
                    subst
                      (λ m. (w.level ≡ 1) × (m % 2 ^ 16 ≡ type) ⊎ (w.level ≡ 2) × (m % 2 ^ 16 ≡ 1))
                      (sym same_name) f.2),
                λ f. not_both f.0 same_name same_word,
              )))
      ]
    where
      not_both :
          {name' word' : ℕ} → (HighBit name') ⊎ (¬ HighBit word') → name ≡ name' → word ≡ word' → ⊥
      not_both (inl q) a b = n (subst HighBit (sym a) q)
      not_both (inr q) a b = q (subst HighBit b d)

  walk_round-RoundEnd : (w : Walk) → RoundEnd w (walk_round image root type lang w)
  unfolding walk_round is_directory current
  walk_round-RoundEnd w = elim (Option-cases (load32 image (current w))) [
    | inl o ↦ rw o stray
    | inr (name, h) ↦ elim (Bool-cases (high_bit name)) [
      | inl s ↦
          rw (h, s) (at_entry-RoundEnd_plain w name h (λ word e. inl (high_bit-HighBit name s)))
      | inr s ↦ elim (Option-cases (load32 image (current w + 4))) [
        | inl o ↦ rw (h, s, o) stray
        | inr (word, e) ↦ elim (Bool-cases (high_bit word)) [
          | inl d ↦
              rw (h, s, e, d)
                (at_entry-RoundEnd_directory w name word (h, e) (not_HighBit name s)
                  (high_bit-HighBit word d))
          | inr d ↦
              rw (h, s, e, d)
                (at_entry-RoundEnd_plain w name h (λ word' e'. inr (
                  subst (λ v. ¬ HighBit v) (some-injective _ _ (sym e ∙ e')) (not_HighBit word d))))
        ]
      ]
    ]
  ]

  -- How a walk from a directory ends.
  pub data Arrives (level rd : ℕ) : Walked → Type 0 where
    at_leaf : (rde : ℕ) → Leads image root type lang level rd rde → Arrives level rd (at rde)
    found_nothing : Lost image root type lang level rd → Arrives level rd nowhere
    left_image : Arrives level rd outside

  settle-cases :
      (w : Walk)
      → ((settle w ≡ more w) × ((w.i < w.len) × (w.level < 4)))
        ⊎ ((settle w ≡ ends none) × (w.level < 4 → w.len ≤ w.i))
  unfolding settle
  settle-cases w = elim (Bool-cases (ltb w.i w.len && ltb w.level 4)) [
    | inl e ↦ inl (rw e (refl, ground arith))
    | inr e ↦ inr (rw e (refl, λ h. ground (arith, e, h)))
  ]

  -- The rounds that the levels below may take.
  unfoldable rounds_below : ℕ → ℕ
  rounds_below level =
      if level == 1 then 2 * suc (length image) else (if level == 2 then suc (length image) else 0)

  rounds_below_down :
      (level name word : ℕ)
      → LeadsDown type lang level name word
      → ((length image + rounds_below (suc level)) < rounds_below level) × (suc level < 4)
  unfolding rounds_below
  rounds_below_down level name word (n, d, inl (e, f)) = rw e (omega arith, omega arith)
  rounds_below_down level name word (n, d, inr (e, f)) = rw e (omega arith, omega arith)

  deeper :
      (level rd j name word : ℕ) (result : Walked)
      → IsVisited image rd j
      → EntryWords image rd j name word
      → LeadsDown type lang level name word
      → Arrives (suc level) (root + word % 2 ^ 31) result
      → Arrives level rd result
  deeper level rd j name word _ v e d (at_leaf rde l) =
      at_leaf rde (through level rd j name word rde v e d l)
  deeper level rd j name word _ v e d (found_nothing l) =
      found_nothing (below_entry level rd j name word v e d l)
  deeper level rd j name word _ v e d left_image = left_image

  -- The entries that the loop has passed.
  abbrev Passed : Walk → ℕ → Type 0
  Passed w i =
      (j name word : ℕ)
      → j < i
      → EntryWords image w.rd j name word
      → IsPassed type lang w.level name word

  abbrev Stands : Walk → Type 0
  Stands w =
      (number_of_entries image w.rd ≡ some (w.len))
      × ((w.i < w.len) ⊎ (w.i ≡ 0))
      × (w.level < 4)
      × Passed w w.i

  Passed-suc :
      (w : Walk)
      → Passed w w.i
      → ((name word : ℕ)
          → EntryWords image w.rd w.i name word
          → IsPassed type lang w.level name word)
      → Passed w (suc (w.i))
  Passed-suc w before here j name word h e = elim (Bool-cases (j == w.i)) [
    | inl q ↦
        here name word (subst (λ k. EntryWords image w.rd k name word) ((==_iff j (w.i)).0 q) e)
    | inr q ↦ before j name word (ground (arith, q, h)) e
  ]

  abbrev AllArrive : ℕ → Type 0
  AllArrive fuel =
      (w : Walk)
      → Stands w
      → length image - w.i + rounds_below w.level < fuel
      → Arrives w.level w.rd (walk_resources fuel image root type lang w)

  walk_on :
      (fuel : ℕ)
      → AllArrive fuel
      → (w : Walk) (o : Option Next) → walk_round image root type lang w ≡ o
      → RoundEnd w o
      → Stands w
      → length image - w.i + rounds_below w.level < suc fuel
      → Arrives w.level w.rd (walk_resources (suc fuel) image root type lang w)
  unfolding walk_resources current
  walk_on fuel later w _ e stray v h = rw (walk_resources, e) left_image
  walk_on fuel later w _ e (aside inside passes) (c, visited, low, passed) h =
      let w' : Walk = record w { i = suc (w.i) } in
      let rest : suc (length image - suc (w.i)) ≤ length image - w.i = omega (arith, inside) in
      let passed' = Passed-suc w passed passes in
      elim (settle-cases w') [
        | inl (s, t) ↦
            rw (walk_resources, e, s) (later w' (c, inl t.0, low, passed') (omega (arith, rest)))
        | inr (s, t) ↦
            rw (walk_resources, e, s)
              (found_nothing (
                no_entry w.level w.rd w.len c
                  (λ j name word k. passed' j name word (omega (arith, k, t low)))))
      ]
  walk_on fuel later w _ e (below name word count entry d c) (n, visited, low, passed) h =
      let w' : Walk = record {
        level = suc (w.level);
        rd = root + word % 2 ^ 31;
        i = 0;
        len = count;
      } in
      let (fewer, low') = rounds_below_down w.level name word d in
      elim (settle-cases w') [
        | inl (s, _) ↦
            rw (walk_resources, e, s)
              (deeper w.level w.rd w.i name word _ (w.len, (n, visited)) entry d
                (later w' (c, inr refl, low', λ j name' word' k. absurd (omega arith))
                  (omega (arith, fewer))))
        | inr (s, t) ↦
            rw (walk_resources, e, s)
              (found_nothing (
                below_entry w.level w.rd w.i name word (w.len, (n, visited)) entry d
                  (no_entry (suc (w.level)) (root + word % 2 ^ 31) count c
                    (λ j name' word' k. absurd (omega (arith, k, t low'))))))
      ]
  walk_on fuel later w _ e (last name word entry l) (n, visited, _, _) h =
      rw (walk_resources, e)
        (at_leaf (root + word) (to_leaf w.level w.rd w.i name word (w.len, (n, visited)) entry l))

  walk_resources-Arrives : (fuel : ℕ) → AllArrive fuel
  walk_resources-Arrives zero w v h = absurd (omega arith)
  walk_resources-Arrives (suc fuel) w v h =
      walk_on fuel (walk_resources-Arrives fuel) w (walk_round image root type lang w) refl
        (walk_round-RoundEnd w) v h

  -- The walk ends before its rounds are used up, and where it finds a leaf, the entries on the way
  -- lead to it.
  pub walk_resources-Arrives_root :
      (len : ℕ)
      → number_of_entries image root ≡ some len
      → Arrives 1 root (
          walk_resources
            (3 * suc (length image))
            image
            root
            type
            lang
            (record { level = 1; rd = root; i = 0; len = len }))
  unfolding rounds_below
  walk_resources-Arrives_root len c =
      walk_resources-Arrives (3 * suc (length image))
        (record { level = 1; rd = root; i = 0; len = len })
        (c, inr refl, omega arith, λ j name word k. absurd (omega arith)) (omega arith)
