-- ===== src/Rtl/Logs.antt =====
-- libs/ntdll/rtl.c and ntdll.h: the conversion of a string for the log, in an array of 1024 bytes.
use nloader.Base.{
  ℕ, suc, ◌*◌, ◌/◌, ◌≤◌, ◌<◌, ◌≡◌, refl, ap, ◌∙◌, true, false, Option, some, List, [], ◌∷◌, ◌++◌,
  arith, length, length-append, map, drop, take, ltb, ◌==◌, ◌||◌, if◌then◌else◌, Bool-cases, inl,
  inr, ==_iff,
}
use mathlib.Core.List.{append_assoc}
use nloader.Wide.{wcslen}
use nloader.Wide.Compare.{NonZero, wcslen-length}
use nloader.Rtl.{◌>>=◌, unicode_to_oem_n, widetoa}
use nloader.Rtl.Copy.{copy_from-overlay}
use nloader.Rtl.Resources.{munge, fresh_message, conversion_size}
use nloader.Rtl.Equal.{take-suc-length, map-snoc}

-- `WSTR2STR(Buffer)` and `munge(BufferA)`.
unfoldable pub log_output : List ℕ → Option (List ℕ)
unfolding wcslen unicode_to_oem_n munge
log_output buffer = do
  n ← wcslen (some buffer)
  r ← unicode_to_oem_n fresh_message conversion_size (some buffer) (2 * n)
  munge (r.1.0)

munge-some : (xs rest : List ℕ) → (m : List ℕ) × (munge (xs ++ (0 ∷ rest)) ≡ some m)
unfolding munge
munge-some [] rest = (0 ∷ rest, refl)
munge-some (c ∷ xs) rest =
    let (m, e) = munge-some xs rest in
    elim (Bool-cases (c == 0)) [
      | inl q ↦ (c ∷ (xs ++ (0 ∷ rest)), rw q refl)
      | inr q ↦ ((if c == 13 || c == 10 then 46 else c) ∷ m, rw (q, e) refl)
    ]

-- A buffer up to its first zero.
record FirstZero (n : ℕ) (buffer : List ℕ) : Type 0 where
  front : List ℕ
  behind : List ℕ
  parts : buffer ≡ front ++ (0 ∷ behind)
  no_zero : NonZero front
  not_longer : length front ≤ n

first_zero : (out d : List ℕ) → FirstZero (length out) (out ++ (0 ∷ d))
first_zero [] d = record {
  front = [];
  behind = d;
  parts = refl;
  no_zero = tt;
  not_longer = omega arith;
}
first_zero (c ∷ out) d =
    let z = first_zero out d in
    elim (Bool-cases (c == 0)) [
      | inl q ↦ record {
        front = [];
        behind = out ++ (0 ∷ d);
        parts = ap (λ u. u ∷ (out ++ (0 ∷ d))) ((==_iff c 0).0 q);
        no_zero = tt;
        not_longer = omega arith;
      }
      | inr q ↦ record {
        front = c ∷ z.front;
        behind = z.behind;
        parts = ap (λ l. c ∷ l) (z.parts);
        no_zero = (ground (arith, q), z.no_zero);
        not_longer = omega (arith, z.not_longer);
      }
    ]

log_output-front :
    (s r : List ℕ)
    → NonZero s
    → length s < 1024
    → (m : List ℕ) × (log_output (s ++ (0 ∷ r)) ≡ some m)
unfolding log_output unicode_to_oem_n munge wcslen widetoa
log_output-front [] r z h = (_, refl)
log_output-front (c ∷ s) r z h =
    let all = c ∷ s in
    let n = length all in
    let size = wcslen-length all r z in
    let half : 2 * length (c ∷ s) / 2 ≡ length (c ∷ s) = omega arith in
    let fits : ltb (length (c ∷ s)) conversion_size ≡ true = ground (arith, h) in
    let units : (length (c ∷ s) == 0) ≡ false = ground arith in
    let total : suc (length all) ≤ length (all ++ (0 ∷ r)) =
      omega (arith, length-append all (0 ∷ r)) in
    let copy =
      copy_from-overlay widetoa (suc n) (all ++ (0 ∷ r)) fresh_message total (omega (arith, h)) in
    let rest = drop (suc n) fresh_message in
    let bytes : map widetoa (take (suc n) (all ++ (0 ∷ r))) ++ rest
        ≡ map widetoa all ++ (0 ∷ rest) =
      ap (λ l. map widetoa l ++ rest) (take-suc-length all 0 r)
      ∙ ap (λ l. l ++ rest) (map-snoc all 0)
      ∙ append_assoc (map widetoa all) (0 ∷ []) rest in
    let (m, e) = munge-some (map widetoa all) rest in
    (m, rw (log_output, size, half, fits, units, copy) (ap munge bytes ∙ e))

-- An output of less than 1024 units is converted within the array.
pub log_output-some :
    (out d : List ℕ) → length out < 1024 → (m : List ℕ) × (log_output (out ++ (0 ∷ d)) ≡ some m)
log_output-some out d h =
    let z = first_zero out d in
    let (m, e) = log_output-front z.front z.behind z.no_zero (omega (arith, h, z.not_longer)) in
    (m, ap log_output z.parts ∙ e)
