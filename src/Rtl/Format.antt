-- ===== src/Rtl/Format.antt =====
-- libs/ntdll/rtl.c: `RtlFormatMessage`, neither `Ansi` nor `IgnoreInserts`, and `get_arg`. The size
-- of the buffer is not a part of the state, since the code does not look at it: `fault` is an
-- access behind the end of the message, of an argument or of the buffer.
use nloader.Base.{
  ℕ, zero, suc, ◌+◌, ◌-◌, ◌*◌, ◌%◌, Bool, true, false, ◌&&◌, ◌||◌, Option, none, some, List, [],
  ◌∷◌, leb, ◌==◌, if◌then◌else◌, get_elem?, length,
}
use nloader.Wide.{store, wcslen}
use nloader.Rtl.{copy_from}
use nloader.Rtl.Logs.{log_output}

pub data Outcome (A : Type 0) : Type 0 where
  done : A → Outcome A
  fault : Outcome A
  stuck : Outcome A

infixl 5 ◌>>=◌
abbrev pub ◌>>=◌ :
    {From : Type 0} {Into : Type 0} → Outcome From → (From → Outcome Into) → Outcome Into
done x >>= next = next x
fault >>= next = fault
stuck >>= next = stuck

abbrev pub or_fault : {A : Type 0} → Option A → Outcome A
or_fault none = fault
or_fault (some a) = done a

-- An array of strings, or the strings that `ms_va_arg` yields one after the other.
pub data Arguments : Type 0 where
  array : List (List ℕ) → Arguments
  successive : List (List ℕ) → Arguments

-- The loop of `get_arg`: one string is taken, and another while the number is positive.
unfoldable pub take_arg : ℕ → List (List ℕ) → Option (List ℕ × Arguments)
take_arg n [] = none
take_arg zero (a ∷ rest) = some (a, successive rest)
take_arg (suc zero) (a ∷ rest) = some (a, successive rest)
take_arg (suc (suc n)) (a ∷ rest) = take_arg (suc n) rest

unfoldable pub get_arg : ℕ → Arguments → Option (List ℕ × Arguments)
unfolding take_arg
get_arg n (array args) = elim (get_elem? args n) [ none ↦ none | some a ↦ some (a, array args) ]
get_arg n (successive args) = take_arg n args

-- What `msg`, `eos`, `Arguments`, `Buffer` and `count` stand for.
pub record Formatting : Type 0 where
  pub arguments : Arguments
  pub msg : List ℕ
  pub eos : Bool
  pub buffer : List ℕ
  pub count : ℕ

-- `Buffer[count++] = c`
unfoldable pub emit : ℕ → Formatting → Outcome Formatting
unfolding store
emit c s =
    or_fault (store s.buffer s.count c) >>= λ b. done (record s { buffer = b; count = s.count + 1 })

unfoldable pub is_digit : ℕ → Bool
is_digit c = leb b'0' c && leb c b'9'

-- The number of an insert with what follows it, from its first digit on.
unfoldable pub insert_number : ℕ → List ℕ → Outcome (ℕ × List ℕ)
unfolding is_digit
insert_number first [] = fault
insert_number first (c ∷ msg) =
    if is_digit c then done (first * 10 + (c % 256 - 48), msg) else done (first, c ∷ msg)

-- The loop up to the second `!`, which is skipped, or the end of the message.
unfoldable pub skip_until_mark : List ℕ → Outcome (List ℕ)
skip_until_mark [] = fault
skip_until_mark (c ∷ msg) =
    let later = skip_until_mark msg in
    if c == 0 then done (c ∷ msg) else if c == b'!' then done msg else later

unfoldable pub skip_specifier : List ℕ → Outcome (List ℕ)
unfolding skip_until_mark
skip_specifier [] = fault
skip_specifier (c ∷ msg) = if c == b'!' then skip_until_mark msg else done (c ∷ msg)

-- `rpl_wcscpy(&Buffer[count], arg); count += rpl_wcslen(arg);`
unfoldable pub emit_string : List ℕ → Formatting → Outcome Formatting
unfolding wcslen copy_from
emit_string arg s = or_fault (wcslen (some arg)) >>= λ n.
    (or_fault (copy_from (λ c. c) (n + 1) arg s.buffer s.count) >>= λ b.
    done (record s { buffer = b; count = s.count + n }))

unfoldable pub insert : ℕ → Formatting → Outcome Formatting
unfolding insert_number get_arg emit_string skip_specifier
insert first s = insert_number first s.msg >>= λ numbered.
    (or_fault (get_arg (numbered.0 - 1) s.arguments) >>= λ found.
    (emit_string found.0 (record s { arguments = found.1 }) >>= λ s'.
    (skip_specifier numbered.1 >>= λ msg. done (record s' { msg = msg }))))

-- The unit of a letter that stands for one.
unfoldable pub control_unit : ℕ → Option ℕ
control_unit c =
    if c == b'r'
    then some 13
    else if c == b'n'
    then some 10
    else if c == b't'
    then some 9
    else if c == b'b'
    then some b' '
    else if c == b'%'
    then some b'%'
    else none

-- The `switch` on the unit behind a `%`.
unfoldable pub escape : ℕ → Formatting → Outcome Formatting
unfolding emit insert control_unit
escape c s = if c == b'0' then done (record s { eos = true }) else elim (control_unit c) [
  | some u ↦ emit u s
  | none ↦ if leb b'1' c && leb c b'9' then insert (c - 48) s else done s
]

-- `c = *msg++`
unfoldable pub next_unit : Formatting → Outcome (ℕ × Formatting)
next_unit s = elim (s.msg) [ [] ↦ fault | c ∷ rest ↦ done (c, record s { msg = rest }) ]

-- A round of the loop with the unit `c`.
unfoldable pub format_unit : ℕ → Formatting → Outcome Formatting
unfolding emit escape next_unit
format_unit c s =
    let escaped = next_unit s >>= λ next. escape next.0 next.1 in
    if c == b'%' then escaped else emit c s

-- `Buffer[count] = 0`, and the count.
unfoldable pub finish : Formatting → Outcome (List ℕ × ℕ)
unfolding store
finish s = or_fault (store s.buffer s.count 0) >>= λ b. done (b, s.count)

unfoldable pub format_loop : ℕ → Formatting → Outcome (List ℕ × ℕ)
unfolding next_unit finish format_unit
format_loop zero s = stuck
format_loop (suc fuel) s = next_unit s >>= λ next.
    (let more = format_unit next.0 next.1 >>= format_loop fuel in
      if next.0 == 0 || next.1.eos then finish next.1 else more)

-- `RtlFormatMessage`: each round takes a unit of the message at least. The output is converted for
-- the log in the end, whether there is a log or not.
unfoldable pub format_message : List ℕ → Arguments → List ℕ → Outcome (List ℕ × ℕ)
unfolding format_loop log_output
format_message message arguments buffer =
    format_loop (suc (length message))
      (record { arguments = arguments; msg = message; eos = false; buffer = buffer; count = 0 })
    >>= λ r. (or_fault (log_output r.0) >>= λ _. done r)
