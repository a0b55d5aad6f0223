-- ===== src/Base/Overwrite.antt =====
-- Lists that other elements are written into, as buffers and files are.
use Prim.Native.Nat.{ℕ, zero, suc, ◌+◌, ◌≤◌}
use mathlib.Core.Path.{◌≡◌, refl, ap, ◌∙◌}
use mathlib.Core.List.{List, [], ◌∷◌, ◌++◌}
use native.Mathlib.Omega.{arith}
use nloader.Base.Lists.{length, length-append, length-take, length-drop, take, drop, take-append}

module _ {ℓ} {A : Type ℓ} where
  pub drop-append : (xs ys : List A) (m : ℕ) → drop (length xs + m) (xs ++ ys) ≡ drop m ys
  drop-append [] ys m = let same : 0 + m ≡ m = omega arith in rw same refl
  drop-append (x ∷ xs) ys m =
      let later : suc (length xs) + m ≡ suc (length xs + m) = omega arith in
      rw later (drop-append xs ys m)

  pub drop-drop : (k m : ℕ) (xs : List A) → drop m (drop k xs) ≡ drop (k + m) xs
  drop-drop zero m xs = let same : 0 + m ≡ m = omega arith in rw same refl
  drop-drop (suc k) zero [] = let same : suc k + 0 ≡ suc k = omega arith in rw same refl
  drop-drop (suc k) (suc m) [] =
      let later : suc k + suc m ≡ suc (k + suc m) = omega arith in rw later refl
  drop-drop (suc k) m (x ∷ xs) =
      let later : suc k + m ≡ suc (k + m) = omega arith in rw later (drop-drop k m xs)

  pub length-taken : (i : ℕ) (xs : List A) → i ≤ length xs → length (take i xs) ≡ i
  length-taken i xs h = omega (arith, length-take i xs)

  -- A list with other elements from the place `i` on.
  abbrev pub written_at : ℕ → List A → List A → List A
  written_at i items list = take i list ++ (items ++ drop (i + length items) list)

  pub length-written_at :
      (i : ℕ) (items list : List A)
      → i + length items ≤ length list
      → length (written_at i items list) ≡ length list
  length-written_at i items list h = omega (
    arith,
    length-append (take i list) (items ++ drop (i + length items) list),
    length-append items (drop (i + length items) list),
    length-taken i list (omega (arith, h)),
    length-drop (i + length items) list,
    h,
  )

  -- Behind them it is as it was.
  pub drop-written_at :
      (i m : ℕ) (items list : List A)
      → i + length items ≤ length list
      → drop (i + length items + m) (written_at i items list) ≡ drop (i + length items + m) list
  drop-written_at i m items list h =
      let front = length-taken i list (omega (arith, h)) in
      let at : i + length items + m ≡ length (take i list) + (length items + m) = omega arith in
      ap (λ k. drop k (written_at i items list)) at
      ∙ drop-append (take i list) (items ++ drop (i + length items) list) (length items + m)
      ∙ drop-append items (drop (i + length items) list) m
      ∙ drop-drop (i + length items) m list

  -- What is written is read back.
  pub take-drop-written_at :
      (i : ℕ) (items list : List A)
      → i ≤ length list
      → take (length items) (drop i (written_at i items list)) ≡ items
  take-drop-written_at i items list h =
      let front = length-taken i list h in
      let at : i ≡ length (take i list) + 0 = omega arith in
      ap (λ k. take (length items) (drop k (written_at i items list))) at
      ∙ ap (take (length items))
          (drop-append (take i list) (items ++ drop (i + length items) list) 0)
      ∙ take-append items (drop (i + length items) list)
