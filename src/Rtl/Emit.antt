-- ===== src/Rtl/Emit.antt =====
-- libs/ntdll/rtl.c: what `RtlFormatMessage` does to its buffer for a unit and for a string.
use mathlib.Core.List.{append_assoc}
use nloader.Base.{
  ℕ, zero, suc, ◌+◌, ◌<◌, ◌≡◌, refl, ap, ◌∙◌, false, Option, some, List, [], ◌∷◌, ◌++◌, map, arith,
  length, length-append, take, drop,
}
use nloader.Wide.Compare.{NonZero, wcslen-length}
use nloader.Rtl.{copy_from}
use nloader.Rtl.Copy.{in_front, copy_from-in_front, copy_from-overlay, overlay, store-append}
use nloader.Rtl.Format.{done, array, Formatting, emit, emit_string}

-- A call between two units of the output: `out` is written, `d` is the rest of the buffer.
abbrev pub state : List (List ℕ) → List ℕ → List ℕ → List ℕ → Formatting
state args m out d = record {
  arguments = array args;
  msg = m;
  eos = false;
  buffer = out ++ d;
  count = length out;
}

pub emit-state :
    (args : List (List ℕ)) (m out d : List ℕ) (y c : ℕ)
    → emit c (state args m out (y ∷ d)) ≡ done (state args m (out ++ (c ∷ [])) d)
unfolding emit
emit-state args m out d y c =
    rw (store-append out y c d (length out) refl)
      (rw (append_assoc out (c ∷ []) d, length-append out (c ∷ [])) refl)

in_fronts : List ℕ → Option (List ℕ) → Option (List ℕ)
in_fronts [] o = o
in_fronts (x ∷ out) o = in_front x (in_fronts out o)

copy_from-in_fronts :
    (f : ℕ → ℕ) (n : ℕ) (src out d : List ℕ)
    → copy_from f n src (out ++ d) (length out) ≡ in_fronts out (copy_from f n src d 0)
unfolding in_fronts
copy_from-in_fronts f n src [] d = refl
copy_from-in_fronts f n src (x ∷ out) d =
    let one_more : suc (length out) ≡ length out + 1 = omega arith in
    rw one_more (
      copy_from-in_front f n src x (out ++ d) (length out)
      ∙ ap (in_front x) (copy_from-in_fronts f n src out d))

in_fronts-some : (out d : List ℕ) → in_fronts out (some d) ≡ some (out ++ d)
unfolding in_fronts
in_fronts-some [] d = refl
in_fronts-some (x ∷ out) d = rw (in_fronts-some out d) refl

map_id : (xs : List ℕ) → map (λ c. c) xs ≡ xs
map_id [] = refl
map_id (x ∷ xs) = ap (λ l. x ∷ l) (map_id xs)

take_all : (n : ℕ) (xs : List ℕ) → length xs ≡ n → take n xs ≡ xs
take_all zero [] e = refl
take_all zero (x ∷ xs) e = absurd (omega arith)
take_all (suc n) [] e = refl
take_all (suc n) (x ∷ xs) e = ap (λ l. x ∷ l) (take_all n xs (omega arith))

pub emit_string-state :
    (args : List (List ℕ)) (m out d t : List ℕ)
    → NonZero t
    → length t < length d
    → emit_string (t ++ 0 ∷ []) (state args m out d)
      ≡ done (state args m (out ++ t) (0 ∷ drop (length t + 1) d))
unfolding emit_string
emit_string-state args m out d t z room =
    let n = length t + 1 in
    let size : length (t ++ 0 ∷ []) ≡ n = length-append t (0 ∷ []) in
    let arg = t ++ 0 ∷ [] in
    let over : overlay (λ c. c) n arg d ≡ t ++ (0 ∷ drop n d) =
      ap (λ l. l ++ drop n d) (map_id (take n arg) ∙ take_all n arg size)
      ∙ append_assoc t (0 ∷ []) (drop n d) in
    let copied : copy_from (λ c. c) n arg (out ++ d) (length out)
        ≡ some (out ++ (t ++ (0 ∷ drop n d))) =
      copy_from-in_fronts (λ c. c) n arg out d
      ∙ ap (in_fronts out)
          (copy_from-overlay (λ c. c) n arg d (omega (arith, size)) (omega arith) ∙ ap some over)
      ∙ in_fronts-some out (t ++ (0 ∷ drop n d)) in
    rw (wcslen-length t [] z)
      (rw copied (rw (append_assoc out t (0 ∷ drop n d), length-append out t) refl))
