-- ===== src/Format/Debug.antt =====
-- libs/ntdll/format.c: `__dbg_print`, which DbgPrint and DbgPrintEx call.
-- A format is the list of its bytes up to the terminator, so that `*fmt` at its end is zero; a string
-- that is passed is the list up to the end of its object. `render` is `snprintf` for a format and a
-- number, of which 63 bytes fit into `buf`. `fault` is an access behind the end of an argument, an
-- argument of another type, or one that is not passed.
pub mod Specs
pub mod Ends
pub mod Prints
use nloader.Base.{
  ℕ, zero, suc, ◌+◌, ◌%◌, ◌^◌, Bool, true, false, ◌&&◌, ◌||◌, Option, none, some, List, [], ◌∷◌,
  ◌++◌, ltb, leb, ◌==◌, if◌then◌else◌, length, take, drop, map,
}
use nloader.Format.{Outcome, done, fault, stuck, ◌>>=◌, Argument, wide, narrow, number}

-- `spec` up to `n`, and `fmt`.
pub record Spec : Type 0 where
  pub text : List ℕ
  pub rest : List ℕ

-- `n < (int) sizeof(spec) - 8`
unfoldable pub has_room : List ℕ → Bool
has_room text = ltb (length text) 56

-- A loop that copies bytes of a kind.
unfoldable pub copy_while : (ℕ → Bool) → List ℕ → List ℕ → Spec
unfolding has_room
copy_while kind text [] = record { text = text; rest = [] }
copy_while kind text (c ∷ fmt) =
    let later = copy_while kind (text ++ (c ∷ [])) fmt in
    if kind c && has_room text then later else record { text = text; rest = c ∷ fmt }

abbrev pub is_flag : ℕ → Bool
is_flag c = c == b'-' || (c == b'+' || (c == b' ' || (c == b'#' || c == b'0')))

abbrev pub is_digit : ℕ → Bool
is_digit c = leb b'0' c && leb c b'9'

unfoldable pub star_or_digits : List ℕ → List ℕ → Spec
unfolding copy_while has_room
star_or_digits text [] = record { text = text; rest = [] }
star_or_digits text (c ∷ fmt) =
    if c == b'*' && has_room text
    then record { text = text ++ (c ∷ []); rest = fmt }
    else copy_while is_digit text (c ∷ fmt)

unfoldable pub precision : List ℕ → List ℕ → Spec
unfolding star_or_digits has_room
precision text [] = record { text = text; rest = [] }
precision text (c ∷ fmt) =
    if c == b'.' && has_room text
    then star_or_digits (text ++ (c ∷ [])) fmt
    else record { text = text; rest = c ∷ fmt }

-- With `wide_arg` and `long64`.
pub record Modified : Type 0 where
  pub text : List ℕ
  pub rest : List ℕ
  pub is_wide : Bool
  pub is_long64 : Bool

-- `*fmt`
abbrev pub first : List ℕ → ℕ
first [] = 0
first (c ∷ fmt) = c

unfoldable pub modified : List ℕ → List ℕ → Bool → Bool → Modified
modified text rest is_wide is_long64 = record {
  text = text;
  rest = rest;
  is_wide = is_wide;
  is_long64 = is_long64;
}

unfoldable pub after_l : List ℕ → List ℕ → Modified
unfolding modified
after_l text fmt =
    if first fmt == b'l'
    then modified (text ++ (b'l' ∷ b'l' ∷ [])) (drop 1 fmt) false true
    else modified text fmt true false

unfoldable pub after_h : List ℕ → List ℕ → Modified
unfolding modified
after_h text fmt =
    if first fmt == b'h'
    then modified (text ++ (b'h' ∷ b'h' ∷ [])) (drop 1 fmt) false false
    else modified (text ++ (b'h' ∷ [])) fmt false false

unfoldable pub after_i : List ℕ → List ℕ → Modified
unfolding modified
after_i text fmt =
    if first fmt == b'6' && first (drop 1 fmt) == b'4'
    then modified (text ++ (b'l' ∷ b'l' ∷ [])) (drop 2 fmt) false true
    else (if first fmt == b'3' && first (drop 1 fmt) == b'2'
        then modified text (drop 2 fmt) false false
        else modified (text ++ (b'l' ∷ b'l' ∷ [])) fmt false true)

-- The length modifier.
unfoldable pub modify : List ℕ → List ℕ → Modified
unfolding modified after_l after_h after_i
modify text [] = modified text [] false false
modify text (c ∷ fmt) =
    if c == b'l'
    then after_l text fmt
    else if c == b'h'
    then after_h text fmt
    else if c == b'I'
    then after_i text fmt
    else if c == b'w'
    then modified text fmt true false
    else modified text (c ∷ fmt) false false

-- The part of a directive between its `%` and its conversion.
unfoldable pub read_directive : List ℕ → Modified
unfolding copy_while star_or_digits precision modify
read_directive fmt =
    let flags = copy_while is_flag (b'%' ∷ []) fmt in
    let width = star_or_digits flags.text flags.rest in
    let precise = precision width.text width.rest in modify precise.text precise.rest

-- What is left of the arguments, what `out` received, and `total`, an int in the source, which both
-- callers discard.
pub record Printing : Type 0 where
  pub arguments : List Argument
  pub out : List ℕ
  pub total : ℕ

unfoldable pub put : List ℕ → List Argument → Printing → Outcome Printing
put bytes args s = done (record s { arguments = args; out = s.out ++ bytes })

unfoldable pub until_zero : List ℕ → Outcome (List ℕ)
until_zero [] = fault
until_zero (c ∷ str) =
    let later = until_zero str >>= λ rest. done (c ∷ rest) in if c == 0 then done [] else later

-- A unit outside ASCII is replaced.
unfoldable pub to_ascii : ℕ → ℕ
to_ascii c = if ltb c 128 then c else b'?'

abbrev pub null_text : List ℕ
null_text = b'(' ∷ b'n' ∷ b'u' ∷ b'l' ∷ b'l' ∷ b')' ∷ []

-- `__dbg_emit_wstr` of the next argument.
unfoldable pub put_wide : Printing → Outcome Printing
unfolding put until_zero to_ascii
put_wide s = elim (s.arguments) [
  | wide none ∷ args ↦ put null_text args s
  | wide (some str) ∷ args ↦ until_zero str >>= λ units. put (map to_ascii units) args s
  | _ ↦ fault
]

unfoldable pub put_narrow : Printing → Outcome Printing
unfolding put until_zero
put_narrow s = elim (s.arguments) [
  | narrow none ∷ args ↦ put null_text args s
  | narrow (some str) ∷ args ↦ until_zero str >>= λ bytes. put bytes args s
  | _ ↦ fault
]

unfoldable pub put_wide_char : Printing → Outcome Printing
unfolding put to_ascii
put_wide_char s = elim (s.arguments) [
  | number n ∷ args ↦ put (to_ascii (n % 2 ^ 16) ∷ []) args s
  | _ ↦ fault
]

unfoldable pub put_char : Printing → Outcome Printing
unfolding put
put_char s = elim (s.arguments) [ number n ∷ args ↦ put (n % 256 ∷ []) args s | _ ↦ fault ]

unfoldable pub has_star : List ℕ → Bool
has_star [] = false
has_star (c ∷ text) = c == b'*' || has_star text

abbrev pub is_integer : ℕ → Bool
is_integer c = (c == b'd' || (c == b'i' || c == b'u')) || (c == b'o' || (c == b'x' || c == b'X'))

abbrev pub is_float : ℕ → Bool
is_float c =
    (c == b'f' || (c == b'e' || (c == b'E' || c == b'g')))
    || (c == b'G' || (c == b'a' || c == b'A'))

module _ (render : List ℕ → ℕ → List ℕ) where
  -- `snprintf` with the next argument, of so many bits. For a `*` it takes an argument more than it
  -- is passed.
  unfoldable pub put_number : ℕ → List ℕ → Printing → Outcome Printing
  unfolding put has_star
  put_number bits spec s = if has_star spec then fault else elim (s.arguments) [
    | number n ∷ args ↦ put (take 63 (render spec (n % 2 ^ bits))) args s
    | _ ↦ fault
  ]

  -- The `switch` on the conversion.
  unfoldable pub convert : ℕ → Modified → Printing → Outcome Printing
  unfolding put put_wide put_narrow put_wide_char put_char put_number
  convert c m s =
      let spec = m.text ++ (c ∷ []) in
      let percent : Printing = record s { out = s.out ++ (b'%' ∷ []); total = s.total + 1 } in
      if c == b'%'
      then done percent
      else if c == b's'
      then (if m.is_wide then put_wide s else put_narrow s)
      else if c == b'S'
      then put_wide s
      else if c == b'c'
      then (if m.is_wide then put_wide_char s else put_char s)
      else if c == b'C'
      then put_wide_char s
      else if is_integer c
      then (if m.is_long64 then put_number 64 spec s else put_number 32 spec s)
      else if c == b'p' || is_float c
      then put_number 64 spec s
      else put (b'%' ∷ c ∷ []) s.arguments s

  -- The loop of `__dbg_print`.
  unfoldable pub print_loop : ℕ → List ℕ → Printing → Outcome Printing
  unfolding read_directive convert
  print_loop zero fmt s = stuck
  print_loop (suc fuel) [] s = done s
  print_loop (suc fuel) (c ∷ fmt) s = elim (c == b'%') [
    | false ↦ print_loop fuel fmt (record s { out = s.out ++ (c ∷ []); total = s.total + 1 })
    | true ↦ elim ((read_directive fmt).rest) [
      | [] ↦ done s
      | conv ∷ later ↦ convert conv (read_directive fmt) s >>= λ s'. print_loop fuel later s'
    ]
  ]

  -- `DbgPrint`: what is written.
  unfoldable pub dbg_print : List ℕ → List Argument → Outcome Printing
  unfolding print_loop
  dbg_print fmt args =
      print_loop (suc (length fmt)) fmt (record { arguments = args; out = []; total = 0 })
