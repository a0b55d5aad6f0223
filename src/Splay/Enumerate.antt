-- ===== src/Splay/Enumerate.antt =====
-- libs/ntdll/splay.c: `RtlEnumerateGenericTableWithoutSplaying` walks the chain.
use nloader.Base.{
  ℕ, zero, suc, ◌+◌, ◌≡◌, refl, Option, none, some, List, [], ◌∷◌, ◌++◌, arith, ◌≤◌, ap, sym, ◌∙◌,
  length,
}
use mathlib.Core.List.{append_assoc}
use nloader.Splay.Table.{Table, Run, done, stuck, enumerate, entry_after, ◌>>=◌}
use nloader.Splay.Valid.{times, times-append}

-- The entry at the head of a list.
abbrev pub first : List ℕ → Option ℕ
first [] = none
first (b ∷ bs) = some b

-- In a chain without repetition the entry behind `a` is the head of what stands behind it.
entry_after-append :
    (xs : List ℕ) (a : ℕ) (ys : List ℕ)
    → times a (xs ++ a ∷ ys) ≡ 1
    → entry_after a (xs ++ a ∷ ys) ≡ done (first ys)
unfolding entry_after
entry_after-append [] a [] h = ground arith
entry_after-append [] a (y ∷ ys) h = ground arith
entry_after-append (x ∷ []) a ys h = ground (arith, entry_after-append [] a ys)
entry_after-append (x ∷ x' ∷ xs) a ys h =
    ground (arith, entry_after-append (x' ∷ xs) a ys, times-append a xs (a ∷ ys))

-- A caller's loop: it enumerates from a null key until null comes back, with fuel.
unfoldable pub walk : {A : Type 0} → ℕ → Option ℕ → Table A → Run (List ℕ)
walk zero key t = stuck
walk (suc fuel) key t = enumerate key t >>= λ found. elim found [
  | none ↦ done []
  | some a ↦ walk fuel (some a) t >>= λ rest. done (a ∷ rest)
]

times-cons : (a : ℕ) (ys : List ℕ) → times a (a ∷ ys) ≡ times a ys + 1
times-cons a ys = ground arith

module _ {A : Type 0} (t : Table A) (distinct : (a : ℕ) → times a t.insert_order ≤ 1) where
  enumerate-some :
      (xs : List ℕ) (a : ℕ) (ys : List ℕ)
      → t.insert_order ≡ xs ++ a ∷ ys
      → enumerate (some a) t ≡ done (first ys)
  unfolding enumerate
  enumerate-some xs a ys e =
      let once : times a (xs ++ a ∷ ys) ≡ 1 =
        omega (arith, distinct a, ap (times a) e, times-append a xs (a ∷ ys), times-cons a ys) in
      ap (entry_after a) e ∙ entry_after-append xs a ys once

  walk-some :
      (xs : List ℕ) (a : ℕ) (ys : List ℕ)
      → t.insert_order ≡ xs ++ a ∷ ys
      → walk (suc (length ys)) (some a) t ≡ done ys
  unfolding walk
  walk-some xs a [] e = rw (enumerate-some xs a [] e)
  walk-some xs a (y ∷ ys) e =
      let later = walk-some (xs ++ a ∷ []) y ys (e ∙ sym (append_assoc xs (a ∷ []) (y ∷ ys))) in
      rw (enumerate-some xs a (y ∷ ys) e, later)

  -- An enumeration from the start visits the elements of the table in the order of their insertion,
  -- each once, and then returns null.
  pub walk-insert_order : walk (suc (length t.insert_order)) none t ≡ done t.insert_order
  walk-insert_order = go t.insert_order refl
    where
      go : (xs : List ℕ) → t.insert_order ≡ xs → walk (suc (length xs)) none t ≡ done xs
      go [] e = unfold walk enumerate in ground arith
      go (a ∷ ys) e = unfold walk enumerate in ground (arith, walk-some [] a ys e)
