-- ===== src/Crc64/Streams.antt =====
-- libs/ntdll/crc64.c: a CRC of a buffer taken in parts, and the polynomial behind the table.
use Prim.Native.Nat.{digits, differ, bit_xor-bitwise}
use mathlib.Core.Path.{subst}
use nloader.Base.{
  ℕ, ◌<◌, ◌≤◌, ◌+◌, ◌*◌, ◌/◌, ◌%◌, ◌^◌, bit_xor, bit_and, List, [], ◌∷◌, ◌++◌, ◌≡◌, refl, sym, ap,
  ◌∙◌, arith, ◌==◌, if◌then◌else◌, zero, suc, All, get_or,
}
use nloader.Crc64.{crc_table, complement, crc_step, crc_loop, crc64}

crc_loop-append :
    (xs ys : List ℕ) (crc : ℕ) → crc_loop (xs ++ ys) crc ≡ crc_loop ys (crc_loop xs crc)
unfolding crc_loop
crc_loop-append [] ys crc = refl
crc_loop-append (x ∷ xs) ys crc = crc_loop-append xs ys (crc_step x crc)

pow_step : (k : ℕ) → 2 ^ suc k ≡ 2 * 2 ^ k
pow_step k = omega arith

differ-le : (x y : ℕ) → x ≤ 1 → y ≤ 1 → differ x y ≤ 1
differ-le zero y h k = k
differ-le (suc x) zero h k = h
differ-le (suc x) (suc y) h k = differ-le x y (omega arith) (omega arith)

digits-lt : (k n a b : ℕ) → a < 2 ^ k → b < 2 ^ k → digits (λ x. x) differ n a b < 2 ^ k
digits-lt k zero a b h p = p
digits-lt k (suc n) zero b h p = p
digits-lt zero (suc n) (suc a) b h p = absurd (omega arith)
digits-lt (suc k) (suc n) (suc a) b h p =
    let half =
      digits-lt k n (suc a / 2) (b / 2) (omega (arith, pow_step k)) (omega (arith, pow_step k)) in
    let low = differ-le (suc a % 2) (b % 2) (omega arith) (omega arith) in omega (arith, pow_step k)

bit_xor-lt : (k a b : ℕ) → a < 2 ^ k → b < 2 ^ k → bit_xor a b < 2 ^ k
bit_xor-lt k a b h p = subst (λ n. n < 2 ^ k) (sym (bit_xor-bitwise a b)) (digits-lt k a a b h p)

get_or-lt : (n i : ℕ) (xs : List ℕ) → 0 < n → All (λ x. x < n) xs → get_or xs i 0 < n
get_or-lt n i [] h a = h
get_or-lt n zero (x ∷ xs) h a = a.0
get_or-lt n (suc i) (x ∷ xs) h a = get_or-lt n i xs h a.1

crc_table-lt : All (λ x. x < 2 ^ 64) crc_table
crc_table-lt = ground arith

crc_step-lt : (b crc : ℕ) → crc_step b crc < 2 ^ 64
unfolding crc_step
crc_step-lt b crc =
    bit_xor-lt 64 _ (crc * 2 ^ 8 % 2 ^ 64)
      (get_or-lt (2 ^ 64) (bit_and (bit_xor (crc / 2 ^ 56) b) 0xff) crc_table (omega arith)
        crc_table-lt)
      (omega arith)

-- Division by the polynomial 0x42F0E1EBA9EA3693, the first bit the highest: `n` bits are shifted out.
unfoldable pub shift_bits : ℕ → ℕ → ℕ
shift_bits zero crc = crc
shift_bits (suc n) crc = shift_bits n (
    if crc / 2 ^ 63 == 1
    then bit_xor ((crc * 2) % 2 ^ 64) 0x42F0E1EBA9EA3693
    else (crc * 2) % 2 ^ 64)

abbrev pub table_from : ℕ → ℕ → List ℕ
table_from zero i = []
table_from (suc n) i = shift_bits 8 (i * 2 ^ 56) ∷ table_from n (i + 1)

-- Every entry of the table is what eight bitwise steps of the polynomial division make of the
-- index, set in the highest byte.
pub crc_table-shift_bits : crc_table ≡ table_from 256 0
unfolding shift_bits
crc_table-shift_bits = refl

crc_loop-lt : (xs : List ℕ) (crc : ℕ) → crc < 2 ^ 64 → crc_loop xs crc < 2 ^ 64
unfolding crc_loop
crc_loop-lt [] crc h = h
crc_loop-lt (x ∷ xs) crc h = crc_loop-lt xs (crc_step x crc) (crc_step-lt x crc)

complement_twice : (x : ℕ) → x < 2 ^ 64 → complement (complement x) ≡ x
unfolding complement
complement_twice x h = omega arith

complement-lt : (x : ℕ) → complement x < 2 ^ 64
unfolding complement
complement-lt x = omega arith

-- The CRC of a buffer can be taken in parts: the result for the first is the initial value for the
-- second.
pub crc64-append :
    (first second : List ℕ) (initial_crc : ℕ)
    → crc64 (first ++ second) initial_crc ≡ crc64 second (crc64 first initial_crc)
unfolding crc64
crc64-append first second initial_crc =
    let c = complement initial_crc in
    ap complement (
      crc_loop-append first second c
      ∙ ap (crc_loop second) (
          sym (
            complement_twice (crc_loop first c) (crc_loop-lt first c (complement-lt initial_crc)))))
