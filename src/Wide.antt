-- ===== src/Wide.antt =====
-- libs/ntdll/crt.c: the functions on strings of 16-bit units.
-- Memory is the list of the units from the pointer to the end of the object that holds them; a
-- string ends at the first 0 in it. `none` is a read or a write behind the end of the object.
pub mod Compare
pub mod Copy
pub mod Number
pub mod Search
use nloader.Base.{
  ℕ, zero, suc, ◌+◌, ◌-◌, ◌*◌, ◌%◌, ◌^◌, Bool, true, false, ◌&&◌, ◌||◌, not, Option, none, some,
  List, [], ◌∷◌, ltb, leb, ◌==◌, if◌then◌else◌, set,
}

-- The results of a comparison, -1, 0 and 1.
pub data Sign : Type 0 where
  negative : Sign
  equal : Sign
  positive : Sign

-- `(*s1 < *s2) ? -1 : 1`
unfoldable pub order_of : ℕ → ℕ → Sign
order_of a b = if ltb a b then negative else positive

-- `rpl_wcslen`; the null pointer has length 0.
unfoldable pub wcslen_from : List ℕ → ℕ → Option ℕ
wcslen_from [] n = none
wcslen_from (c ∷ s) n = let later = wcslen_from s (n + 1) in if c == 0 then some n else later

unfoldable pub wcslen : Option (List ℕ) → Option ℕ
unfolding wcslen_from
wcslen none = some 0
wcslen (some s) = wcslen_from s 0

-- `rpl_wcscmp`
unfoldable pub wcscmp : List ℕ → List ℕ → Option Sign
unfolding order_of
wcscmp [] t = none
wcscmp (a ∷ s) [] = none
wcscmp (a ∷ s) (b ∷ t) =
    let later = wcscmp s t in
    if a == b then (if a == 0 then some equal else later) else some (order_of a b)

-- The units that `s1` and `s2` point to at the end of the loop of `rpl_wcsncmp`: both were
-- incremented after they were compared.
unfoldable pub order_behind : List ℕ → List ℕ → Option Sign
unfolding order_of
order_behind [] t = none
order_behind (a ∷ s) [] = none
order_behind (a ∷ s) (b ∷ t) = some (order_of a b)

-- `rpl_wcsncmp`; `s2` is not read where the loop ends at a 0 of `s1`.
unfoldable pub wcsncmp : ℕ → List ℕ → List ℕ → Option Sign
unfolding order_behind
wcsncmp zero s t = some equal
wcsncmp (suc n) [] t = none
wcsncmp (suc n) (a ∷ s) [] = if a == 0 then some equal else none
wcsncmp (suc n) (a ∷ s) (b ∷ t) =
    let later = wcsncmp n s t in
    if a == 0 then some equal else if a == b then later else order_behind s t

-- `widetol`: `tolower` of the low byte, in the C locale.
unfoldable pub widetol : ℕ → ℕ
widetol x = let c = x % 256 in if leb b'A' c && leb c b'Z' then c + 32 else c

unfoldable pub widetou : ℕ → ℕ
widetou x = let c = x % 256 in if leb b'a' c && leb c b'z' then c - 32 else c

-- `rpl__wcsicmp`; the units are equal if their low bytes are, less case, but the end of the string is
-- a unit 0.
unfoldable pub wcsicmp : List ℕ → List ℕ → Option Sign
unfolding order_of widetol
wcsicmp [] t = none
wcsicmp (a ∷ s) [] = none
wcsicmp (a ∷ s) (b ∷ t) =
    let later = wcsicmp s t in
    if widetol a == widetol b
    then (if a == 0 then some equal else later)
    else some (order_of (widetol a) (widetol b))

-- `rpl__wcsnicmp`; `n` is decremented before it is tested, so that 0 wraps around.
unfoldable pub wcsnicmp : ℕ → List ℕ → List ℕ → Option Sign
unfolding order_of widetol
wcsnicmp n [] t = none
wcsnicmp n (a ∷ s) [] = none
wcsnicmp n (a ∷ s) (b ∷ t) =
    let m = (n + 2 ^ 64 - 1) % 2 ^ 64 in
    let later = wcsnicmp m s t in
    if widetol a == widetol b
    then (if m == 0 || a == 0 then some equal else later)
    else some (order_of (widetol a) (widetol b))

-- `rpl_wcsrchr`: the index of the last unit `c`, the terminator included; `p` is that of the last
-- one before `i`.
unfoldable pub wcsrchr_from : ℕ → List ℕ → ℕ → Option ℕ → Option (Option ℕ)
wcsrchr_from c [] i p = none
wcsrchr_from c (a ∷ s) i p =
    let later = wcsrchr_from c s (i + 1) (if a == c then some i else p) in
    if a == 0 then some (if a == c then some i else p) else later

unfoldable pub wcsrchr : ℕ → List ℕ → Option (Option ℕ)
unfolding wcsrchr_from
wcsrchr c s = wcsrchr_from c s 0 none

-- `rpl_wcschr`: the index of the first unit `c` before the terminator.
unfoldable pub wcschr_from : ℕ → List ℕ → ℕ → Option (Option ℕ)
wcschr_from c [] i = none
wcschr_from c (a ∷ s) i =
    let later = wcschr_from c s (i + 1) in
    if a == 0 then some none else if a == c then some (some i) else later

unfoldable pub wcschr : ℕ → List ℕ → Option (Option ℕ)
unfolding wcschr_from
wcschr c s = wcschr_from c s 0

-- `rpl__wcsupr` and `rpl__wcslwr`
unfoldable pub wcsupr : List ℕ → Option (List ℕ)
unfolding widetou
wcsupr [] = none
wcsupr (a ∷ s) = elim (wcsupr s) [
  | none ↦ if a == 0 then some (a ∷ s) else none
  | some rest ↦ if a == 0 then some (a ∷ s) else some (widetou a ∷ rest)
]

unfoldable pub wcslwr : List ℕ → Option (List ℕ)
unfolding widetol
wcslwr [] = none
wcslwr (a ∷ s) = elim (wcslwr s) [
  | none ↦ if a == 0 then some (a ∷ s) else none
  | some rest ↦ if a == 0 then some (a ∷ s) else some (widetol a ∷ rest)
]

-- The results of the checked copies.
pub data Errno : Type 0 where
  no_error : Errno
  invalid : Errno
  out_of_range : Errno

unfoldable pub store : List ℕ → ℕ → ℕ → Option (List ℕ)
store [] i v = none
store (x ∷ xs) zero v = some (v ∷ xs)
store (x ∷ xs) (suc i) v = elim (store xs i v) [ none ↦ none | some ys ↦ some (x ∷ ys) ]

-- The loop that copies: `remaining` units at most, to the index `i`, and whether the terminator was
-- among them.
unfoldable pub copy_units : ℕ → List ℕ → List ℕ → ℕ → Option (List ℕ × Bool)
unfolding store
copy_units zero src dest i = some (dest, false)
copy_units (suc remaining) [] dest i = none
copy_units (suc remaining) (c ∷ src) dest i = elim (store dest i c) [
  | none ↦ none
  | some dest' ↦
      let later = copy_units remaining src dest' (i + 1) in
      if c == 0 then some (dest', true) else later
]

-- `*dest = L'\0'`, and the error.
unfoldable pub reject : Errno → List ℕ → Option (List ℕ × Errno)
reject e [] = none
reject e (x ∷ rest) = some (0 ∷ rest, e)

unfoldable pub copied : Option (List ℕ × Bool) → Option (List ℕ × Errno)
unfolding reject
copied none = none
copied (some (dest, true)) = some (dest, no_error)
copied (some (dest, false)) = reject out_of_range dest

-- `rpl_wcscpy_s` with a `dest` that is not null.
unfoldable pub wcscpy_s : List ℕ → ℕ → Option (List ℕ) → Option (List ℕ × Errno)
unfolding copied copy_units
wcscpy_s dest zero src = some (dest, invalid)
wcscpy_s dest (suc n) none = reject invalid dest
wcscpy_s dest (suc n) (some src) = copied (copy_units (suc n) src dest 0)

-- The first loop of `rpl_wcscat_s`: the index of the terminator and the units that remain, or no
-- terminator among them.
unfoldable pub find_end : List ℕ → ℕ → ℕ → Option (Option (ℕ × ℕ))
find_end [] i remaining = none
find_end (c ∷ rest) i remaining =
    let later = find_end rest (i + 1) (remaining - 1) in
    if c == 0 then some (some (i, remaining)) else if remaining == 1 then some none else later

-- `rpl_wcscat_s` with a `dest` that is not null.
unfoldable pub wcscat_s : List ℕ → ℕ → Option (List ℕ) → Option (List ℕ × Errno)
unfolding copied copy_units find_end
wcscat_s dest zero src = some (dest, invalid)
wcscat_s dest (suc n) none = reject invalid dest
wcscat_s dest (suc n) (some src) = elim (find_end dest 0 (suc n)) [
  | none ↦ none
  | some none ↦ reject invalid dest
  | some (some (i, remaining)) ↦ copied (copy_units remaining src dest i)
]

-- `rpl_isspace`: the units of `" \f\n\r\t"`.
unfoldable pub isspace : ℕ → Bool
isspace c = c == 32 || c == 12 || c == 10 || c == 13 || c == 9

-- The digits of `rpl__wtoi64`: the value so far is a 64-bit number.
unfoldable pub digits_value : List ℕ → ℕ → Option ℕ
digits_value [] value = none
digits_value (c ∷ s) value =
    let later = digits_value s ((value * 10 + c % 256 - b'0') % 2 ^ 64) in
    if leb b'0' (c % 256) && leb (c % 256) b'9' then later else some value

unfoldable pub negated : Option ℕ → Option ℕ
negated none = none
negated (some value) = some ((2 ^ 64 - value) % 2 ^ 64)

unfoldable pub signed : List ℕ → Option ℕ
unfolding digits_value negated
signed [] = none
signed (c ∷ s) =
    if c == b'+'
    then digits_value s 0
    else if c == b'-'
    then negated (digits_value s 0)
    else digits_value (c ∷ s) 0

-- `rpl__wtoi64`: the 64 bits of the result.
unfoldable pub wtoi64 : List ℕ → Option ℕ
unfolding isspace signed
wtoi64 [] = none
wtoi64 (c ∷ s) = let later = wtoi64 s in if isspace (c % 256) then later else signed (c ∷ s)

-- `rpl__wtol`: the low 32 bits.
unfoldable pub wtol : List ℕ → Option ℕ
unfolding wtoi64
wtol s = elim (wtoi64 s) [ none ↦ none | some value ↦ some (value % 2 ^ 32) ]
