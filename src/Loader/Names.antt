-- ===== src/Loader/Names.antt =====
-- loader.c: the names of the imports and the functions found for them, and an import table at the end
-- of the image.
use mathlib.Core.Path.{subst}
use nloader.Base.{
  ℕ, zero, suc, ◌+◌, ◌-◌, ◌*◌, ◌/◌, ◌%◌, ◌^◌, ◌≤◌, ◌<◌, ◌≡◌, refl, ap, List, [], ◌∷◌, ◌++◌, arith,
  length, length-append, length-replicate, replicate, All, true, false, ltb, leb, Bool-cases, inl,
  inr, Option, none, some, ◌&&◌, ==_iff,
}
use nloader.Wide.Number.{numeral_within, numeral}
use nloader.Loader.{overrun, OptionalHeader, require}
use nloader.Loader.Imports.{
  Export, same, nl_resolve, padded, ordinal_name, read32, is_contained, bind_libraries,
  bind_imports,
}

pub same-eq : (xs ys : List ℕ) → same xs ys ≡ true → xs ≡ ys
unfolding same
same-eq [] [] e = refl
same-eq [] (y ∷ ys) e = ground arith
same-eq (x ∷ xs) [] e = ground arith
same-eq (x ∷ xs) (y ∷ ys) e = ground (arith, same-eq xs ys)

pub same_refl : (xs : List ℕ) → same xs xs ≡ true
unfolding same
same_refl [] = refl
same_refl (x ∷ xs) = rw ((==_iff x x).1 refl) (same_refl xs)

-- The record is of another function.
abbrev pub Other : List ℕ → List ℕ → Export → Type 0
Other dll name e = ¬ ((e.dll ≡ dll) × (e.name ≡ name))

pub data Resolved (table : List Export) (dll name : List ℕ) (result : Option ℕ) : Type 0 where
  found :
      (before after : List Export) (e : Export)
      → table ≡ before ++ (e ∷ after)
      → All (Other dll name) before
      → e.dll ≡ dll
      → e.name ≡ name
      → result ≡ some e.func
      → Resolved table dll name result
  missing : All (Other dll name) table → result ≡ none → Resolved table dll name result

later_record :
    (e : Export) (rest : List Export) (dll name : List ℕ) (result : Option ℕ)
    → Other dll name e
    → Resolved rest dll name result
    → Resolved (e ∷ rest) dll name result
later_record e rest dll name result o (found before after e' t b d n r) =
    found (e ∷ before) after e' (ap (λ l. e ∷ l) t) (o, b) d n r
later_record e rest dll name result o (missing all r) = missing (o, all) r

not_same :
    (e : Export) (dll name : List ℕ)
    → e.dll ≡ dll
    → e.name ≡ name
    → (same e.dll dll && same e.name name) ≡ false
    → ⊥
not_same e dll name d n h =
    let a = subst (λ x. same e.dll x ≡ true) d (same_refl e.dll) in
    let b = subst (λ x. same e.name x ≡ true) n (same_refl e.name) in ground arith

-- The function found for an import is that of the first record with the name of the library and
-- that of the function, and none is found exactly if there is no such record.
pub nl_resolve-Resolved :
    (table : List Export) (dll name : List ℕ) → Resolved table dll name (nl_resolve table dll name)
unfolding nl_resolve
nl_resolve-Resolved [] dll name = missing tt refl
nl_resolve-Resolved (e ∷ rest) dll name = elim (Bool-cases (same e.dll dll && same e.name name)) [
  | inl both ↦
      let d : same e.dll dll ≡ true = ground arith in
      let n : same e.name name ≡ true = ground arith in
      found [] rest e refl tt (same-eq e.dll dll d) (same-eq e.name name n) (rw both refl)
  | inr other ↦ rw other (
      later_record e rest dll name (nl_resolve rest dll name)
        (λ (p : (e.dll ≡ dll) × (e.name ≡ name)). not_same e dll name p.0 p.1 other)
        (nl_resolve-Resolved rest dll name))
]

-- 10 to the power of `k + 1`.
abbrev tens : ℕ → ℕ
tens zero = 10
tens (suc k) = 10 * tens k

length-numeral_within : (fuel k n : ℕ) → n < tens k → length (numeral_within fuel n) ≤ k + 1
length-numeral_within zero k n h = omega arith
length-numeral_within (suc fuel) zero n h =
    let small : ltb n 10 ≡ true = ground arith in rw small (omega arith)
length-numeral_within (suc fuel) (suc k) n h =
    let later = length-numeral_within fuel k (n / 10) (omega arith) in
    let rest = numeral_within fuel (n / 10) in
    elim (Bool-cases (ltb n 10)) [
      | inl l ↦ rw l (omega arith)
      | inr l ↦ rw l (omega (arith, later, length-append rest ((48 + n % 10) ∷ [])))
    ]

-- The name of an import by its ordinal fits with its terminator into the 15 bytes that are allocated
-- for it, whatever the thunk holds.
pub length-ordinal_name : (name : ℕ) → length (ordinal_name name) + 1 ≤ 15
unfolding ordinal_name padded
length-ordinal_name name =
    let digits = numeral (name % 2 ^ 32) in
    let short : length digits ≤ 10 =
      length-numeral_within (name % 2 ^ 32) 9 (name % 2 ^ 32) (omega arith) in
    omega (
      arith,
      short,
      length-append (replicate (3 - length digits) b'0') digits,
      length-replicate {A = ℕ} (3 - length digits) b'0',
    )

-- An import descriptor is read outside the image, and not refused, where at least 8 and fewer than 16
-- of its bytes lie in the image and the size of the table is at least 20.
pub bind_imports-overrun :
    (table : List Export) (opt : OptionalHeader) (image : List ℕ)
    → opt.import_rva + 8 ≤ length image
    → length image < opt.import_rva + 16
    → 20 ≤ opt.import_size
    → bind_imports table opt image ≡ overrun
unfolding bind_imports bind_libraries is_contained read32 require
bind_imports-overrun table opt image lo hi size =
    let large : ltb opt.import_size 20 ≡ false = ground arith in
    let inside : is_contained image opt.import_rva 8 ≡ true = ground arith in
    let outside : leb (opt.import_rva + 12 + 4) (length image) ≡ false = ground arith in
    rw (large, inside, outside) refl
