-- ===== src/Rtl.antt =====
-- libs/ntdll/rtl.c: counted strings and their conversions.
-- A buffer is the list of the units or bytes from the pointer to the end of the object; `none` is an
-- access behind the end. `allocate` is `RtlAllocateHeap` for so many units or bytes.
pub mod Copy
pub mod Convert
pub mod Strings
pub mod Format
pub mod Emit
pub mod Pieces
pub mod Messages
pub mod Resources
pub mod Equal
pub mod Logs
use nloader.Base.{
  ℕ, zero, suc, ◌+◌, ◌-◌, ◌*◌, ◌/◌, ◌%◌, ◌^◌, Bool, true, false, ◌&&◌, Option, none, some, List, [],
  ◌∷◌, ◌++◌, ltb, leb, ◌==◌, if◌then◌else◌, take, drop, length,
}
use nloader.Wide.{store, widetol, wcslen}

-- `UNICODE_STRING` and `ANSI_STRING`: lengths in bytes, and what the pointer points to.
pub record CountedString : Type 0 where
  pub size : ℕ
  pub maximum_size : ℕ
  pub buffer : List ℕ

infixl 5 ◌>>=◌
abbrev pub ◌>>=◌ :
    {From : Type 0} {Into : Type 0} → Option From → (From → Option Into) → Option Into
none >>= next = none
some x >>= next = next x

unfoldable pub widetoa : ℕ → ℕ
widetoa x = x % 256

-- A `char`, which is signed, as a unit.
unfoldable pub from_char : ℕ → ℕ
from_char c = if ltb c 128 then c else c + 0xff00

-- `for (...; i < ...; i++) Buffer[i] = f(Source[i])`, from the index `i` on.
unfoldable pub copy_from : (ℕ → ℕ) → ℕ → List ℕ → List ℕ → ℕ → Option (List ℕ)
unfolding store
copy_from f zero src dest i = some dest
copy_from f (suc n) [] dest i = none
copy_from f (suc n) (c ∷ src) dest i =
    let rest = λ (dest' : List ℕ). copy_from f n src dest' (i + 1) in store dest i (f c) >>= rest

-- With the terminator that is stored behind it.
unfoldable pub copy_terminated : (ℕ → ℕ) → ℕ → List ℕ → List ℕ → Option (List ℕ)
unfolding copy_from store
copy_terminated f n src dest = copy_from f n src dest 0 >>= λ dest'. store dest' n 0

module _ (allocate : ℕ → Option (List ℕ)) where
  unfoldable pub destination : Bool → ℕ → CountedString → Option (List ℕ)
  destination true n dest = allocate n
  destination false n dest = some dest.buffer

  unfoldable pub unicode_string_to_ansi_string :
      CountedString → CountedString → Bool → Option CountedString
  unfolding destination copy_terminated widetoa
  unicode_string_to_ansi_string dest src allocating = do
    let len = src.size / 2
    let alloc = src.maximum_size / 2
    buffer ← destination allocating alloc dest
    copied ← copy_terminated widetoa len src.buffer buffer
    some (record { size = len; maximum_size = alloc; buffer = copied })

  unfoldable pub ansi_string_to_unicode_string :
      CountedString → CountedString → Bool → Option CountedString
  unfolding destination copy_terminated from_char
  ansi_string_to_unicode_string dest src allocating = do
    let len = src.size
    let alloc = (src.maximum_size * 2) % 2 ^ 16
    buffer ← destination allocating (alloc / 2) dest
    copied ← copy_terminated from_char len src.buffer buffer
    some (record { size = (len * 2) % 2 ^ 16; maximum_size = alloc; buffer = copied })

pub data Status : Type 0 where
  success : Status
  no_memory : Status
  buffer_overflow : Status
  access_violation : Status
  name_too_long : Status
  invalid_parameter : Status
  name_not_found : Status

-- `toupper` is `toupperW`, which reads a generated table. The new string is that which the status
-- leaves behind.
module _ (allocate : ℕ → Option (List ℕ)) (toupper : ℕ → ℕ) where
  unfoldable pub upcase_into : CountedString → CountedString → ℕ → Option (Status × CountedString)
  unfolding copy_from
  upcase_into dest src len = do
    copied ← copy_from toupper (len / 2) src.buffer dest.buffer 0
    some (success, record dest { size = len; buffer = copied })

  unfoldable pub upcase_unicode_string :
      CountedString → CountedString → Bool → Option (Status × CountedString)
  unfolding upcase_into
  upcase_unicode_string dest src true = elim (allocate (src.size / 2)) [
    | none ↦ some (no_memory, record dest { maximum_size = src.size; buffer = [] })
    | some fresh ↦
        upcase_into (record dest { maximum_size = src.size; buffer = fresh }) src src.size
  ]
  upcase_unicode_string dest src false =
      let copied = upcase_into dest src src.size in
      if ltb dest.maximum_size src.size then some (buffer_overflow, dest) else copied

-- `RtlMultiByteToUnicodeN`: the buffer, and the value of `*BytesInUnicodeString` if it is set.
unfoldable pub multi_byte_to_unicode_n : List ℕ → ℕ → List ℕ → ℕ → Option (List ℕ × Option ℕ)
unfolding copy_from from_char store
multi_byte_to_unicode_n dest max_bytes src bytes =
    let end = if ltb (max_bytes / 2) bytes then max_bytes / 2 else bytes in
    let emptied = store dest 0 0 >>= λ dest'. some (dest', none) in
    let copied = copy_from from_char end src dest 0 >>= λ dest'. some (dest', some (end * 2)) in
    if end == 0 then emptied else copied

-- `RtlUnicodeToOemN` with its status; the loop runs while `i <= end`.
unfoldable pub unicode_to_oem_n :
    List ℕ → ℕ → Option (List ℕ) → ℕ → Option (Status × (List ℕ × Option ℕ))
unfolding copy_from widetoa store
unicode_to_oem_n dest max_bytes none bytes = some (access_violation, (dest, none))
unicode_to_oem_n dest max_bytes (some src) bytes =
    let end = if ltb (bytes / 2) max_bytes then bytes / 2 else max_bytes in
    let emptied = store dest 0 0 >>= λ dest'. some (success, (dest', none)) in
    let copied =
      copy_from widetoa (suc end) src dest 0 >>= λ dest'. some (success, (dest', some (end + 1))) in
    if end == 0 then emptied else copied

-- `RtlInitUnicodeString`: the lengths wrap at 16 bits.
unfoldable pub init_unicode_string : Option (List ℕ) → Option CountedString
unfolding wcslen
init_unicode_string none = some (record { size = 0; maximum_size = 0; buffer = [] })
init_unicode_string (some s) = wcslen (some s) >>= λ n.
    let size = (n * 2) % 2 ^ 16 in
    some (record { size = size; maximum_size = (size + 2) % 2 ^ 16; buffer = s })

-- `RtlInitAnsiStringEx` for a string of `n` characters.
unfoldable pub init_ansi_string_ex : CountedString → ℕ → List ℕ → Status × CountedString
init_ansi_string_ex dest n s =
    if ltb 0xffff (n + 1)
    then (name_too_long, dest)
    else (success, record { size = n; maximum_size = n + 1; buffer = s })

-- `wcmp`
unfoldable pub wcmp : ℕ → ℕ → Bool → Bool
unfolding widetol
wcmp a b ignoring_case = if ignoring_case then widetol a == widetol b else a == b

-- The loop of `RtlPrefixUnicodeString` over the units left.
unfoldable pub same_units : ℕ → List ℕ → List ℕ → Bool → Option Bool
unfolding wcmp
same_units zero s t ignoring_case = some true
same_units (suc n) [] t ignoring_case = none
same_units (suc n) (a ∷ s) [] ignoring_case = none
same_units (suc n) (a ∷ s) (b ∷ t) ignoring_case =
    let later = same_units n s t ignoring_case in
    if wcmp a b ignoring_case then later else some false

unfoldable pub prefix_unicode_string : CountedString → CountedString → Bool → Option Bool
unfolding same_units
prefix_unicode_string s t ignoring_case =
    let compared = same_units (s.size / 2) s.buffer t.buffer ignoring_case in
    if leb s.size t.size then compared else some false

-- `RtlDosPathNameToNtPathName_U`: `Buffer[dplen_inb - 1]` has the size in bytes as an index of units.
unfoldable pub dos_path_name_to_nt_path_name : (ℕ → Option (List ℕ)) → List ℕ → Option CountedString
unfolding wcslen copy_from store
dos_path_name_to_nt_path_name allocate dos_path = do
  n ← wcslen (some dos_path)
  let size = n * 2
  fresh ← allocate (n + 1)
  copied ← copy_from (λ c. c) (n + 1) dos_path fresh 0
  marked ← store copied 1 b'?'
  ended ← store marked ((size + (2 ^ 64 - 1)) % 2 ^ 64) 0
  some (record { size = size % 2 ^ 16; maximum_size = (size + 2) % 2 ^ 16; buffer = ended })

-- `RtlGetPersistedStateLocation`: the status, the target and `*BufferLengthOut`. The target is null
-- or a buffer.
unfoldable pub get_persisted_state_location :
    Option (List ℕ) → ℕ → Option (List ℕ) → ℕ → Option (Status × (Option (List ℕ) × Option ℕ))
unfolding wcslen copy_from
get_persisted_state_location path location target room =
    if ltb 1 location then some (invalid_parameter, (target, none)) else elim path [
      | none ↦ some (name_not_found, (target, none))
      | some s ↦ wcslen (some s) >>= λ n.
          let needed = ((n + 1) * 2) % 2 ^ 32 in
          elim target [
            | none ↦ some (buffer_overflow, (none, some needed))
            | some dest ↦
                let copied = copy_from (λ c. c) (needed / 2) s dest 0 >>= λ dest'.
                some (success, (some dest', some needed)) in
                if ltb room needed then some (buffer_overflow, (some dest, some needed)) else copied
          ]
    ]

-- `RtlFillMemoryUlong` on a buffer of 32-bit words, from the index `i` on.
unfoldable pub fill_words : ℕ → List ℕ → ℕ → ℕ → Option (List ℕ)
unfolding store
fill_words zero dest i fill = some dest
fill_words (suc n) dest i fill = store dest i fill >>= λ dest'. fill_words n dest' (i + 1) fill

unfoldable pub fill_memory_ulong : List ℕ → ℕ → ℕ → Option (List ℕ)
unfolding fill_words
fill_memory_ulong dest bytes fill = fill_words (bytes / 4) dest 0 fill

-- `RtlSecondsSince1970ToTime`: the low and the high part.
unfoldable pub seconds_since_1970_to_time : ℕ → ℕ × ℕ
seconds_since_1970_to_time seconds =
    let ticks = (seconds * 10000000 + 116444736000000000) % 2 ^ 64 in
    (ticks % 2 ^ 32, ticks / 2 ^ 32)
