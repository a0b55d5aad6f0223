-- ===== src/Format.antt =====
-- libs/ntdll/format.c: `__format` and what it emits, which the printf functions of the guest call.
-- `render` is `snprintf` for a format and a number. `fault` is an access behind the end of a
-- format, of an argument or of the buffer, or an argument of another type; `aborted` is the end of
-- the program.
pub mod Emit
pub mod Pieces
pub mod Output
pub mod Debug
use nloader.Base.{
  ℕ, zero, suc, ◌+◌, ◌-◌, ◌*◌, ◌%◌, ◌^◌, Bool, true, false, ◌&&◌, ◌||◌, Option, none, some, List,
  [], ◌∷◌, ◌++◌, leb, ltb, ◌==◌, if◌then◌else◌, length, take,
}
use nloader.Wide.{store}
use nloader.Rtl.{from_char}

pub data Outcome (A : Type 0) : Type 0 where
  done : A → Outcome A
  fault : Outcome A
  aborted : Outcome A
  stuck : Outcome A

infixl 5 ◌>>=◌
abbrev pub ◌>>=◌ :
    {From : Type 0} {Into : Type 0} → Outcome From → (From → Outcome Into) → Outcome Into
done a >>= next = next a
fault >>= next = fault
aborted >>= next = aborted
stuck >>= next = stuck

-- `__format_target_t` with a buffer.
pub record Target : Type 0 where
  pub buffer : List ℕ
  pub count : ℕ

unfoldable pub emit_wchar : ℕ → Target → Outcome Target
unfolding store
emit_wchar c t = elim (store t.buffer t.count c) [
  | none ↦ fault
  | some b ↦ done (record { buffer = b; count = t.count + 1 })
]

-- The loop of `__emit_wstring` and `__emit_string`: the characters that were emitted.
unfoldable pub emit_text : (ℕ → ℕ) → List ℕ → Target → ℕ → Outcome (ℕ × Target)
unfolding emit_wchar
emit_text f [] t chars = fault
emit_text f (c ∷ str) t chars =
    let rest = emit_wchar (f c) t >>= λ t'. emit_text f str t' (chars + 1) in
    if c == 0 then done (chars, t) else rest

unfoldable pub emit_wstring : Option (List ℕ) → Target → Outcome (ℕ × Target)
unfolding emit_text
emit_wstring none t = emit_text (λ c. c) (b'(' ∷ b'n' ∷ b'i' ∷ b'l' ∷ b')' ∷ 0 ∷ []) t 0
emit_wstring (some str) t = emit_text (λ c. c) str t 0

unfoldable pub emit_string : Option (List ℕ) → Target → Outcome (ℕ × Target)
unfolding emit_text from_char
emit_string none t = emit_text from_char (b'(' ∷ b'n' ∷ b'u' ∷ b'l' ∷ b'l' ∷ b')' ∷ 0 ∷ []) t 0
emit_string (some str) t = emit_text from_char str t 0

-- What `ms_va_arg` yields.
pub data Argument : Type 0 where
  wide : Option (List ℕ) → Argument
  narrow : Option (List ℕ) → Argument
  number : ℕ → Argument

pub record Formatting : Type 0 where
  pub fmt : List ℕ
  pub arguments : List Argument
  pub room : ℕ
  pub target : Target

-- `count -= ...` on `size_t`.
unfoldable pub less : ℕ → ℕ → ℕ
less room chars = (room + 2 ^ 64 - chars) % 2 ^ 64

unfoldable pub emitted : Formatting → List ℕ → List Argument → ℕ × Target → Outcome Formatting
unfolding less
emitted s fmt arguments e =
    done (record { fmt = fmt; arguments = arguments; room = less s.room e.0; target = e.1 })

module _ (render : List ℕ → ℕ → List ℕ) where
  -- `__emit_int32` and `__emit_int64`: `snprintf` cuts the text to its buffer, not the length that it
  -- returns.
  unfoldable pub emit_number : ℕ → List ℕ → ℕ → Target → Outcome (ℕ × Target)
  unfolding emit_string
  emit_number size nfmt n t =
      let text = render nfmt n in
      emit_string (some (take (size - 1) text ++ (0 ∷ []))) t >>= λ e. done (length text, e.1)

  unfoldable pub emit_char_argument : List ℕ → Formatting → Outcome Formatting
  unfolding emit_wchar emitted
  emit_char_argument fmt s = elim (s.arguments) [
    | number n ∷ rest ↦ emit_wchar (n % 2 ^ 16) s.target >>= λ t. emitted s fmt rest (1, t)
    | _ ↦ fault
  ]

  unfoldable pub emit_wide_argument : List ℕ → Formatting → Outcome Formatting
  unfolding emit_wstring emitted
  emit_wide_argument fmt s = elim (s.arguments) [
    | wide str ∷ rest ↦ emit_wstring str s.target >>= emitted s fmt rest
    | _ ↦ fault
  ]

  unfoldable pub emit_narrow_argument : List ℕ → Formatting → Outcome Formatting
  unfolding emit_string emitted
  emit_narrow_argument fmt s = elim (s.arguments) [
    | narrow str ∷ rest ↦ emit_string str s.target >>= emitted s fmt rest
    | _ ↦ fault
  ]

  unfoldable pub emit_number_argument : ℕ → ℕ → List ℕ → List ℕ → Formatting → Outcome Formatting
  unfolding emit_number emitted
  emit_number_argument size bits nfmt fmt s = elim (s.arguments) [
    | number n ∷ rest ↦ emit_number size nfmt (n % 2 ^ bits) s.target >>= emitted s fmt rest
    | _ ↦ fault
  ]

  -- `%ws` and `%hs`: another letter behind the first is passed over.
  unfoldable pub if_string :
      List ℕ → Formatting → (List ℕ → Formatting → Outcome Formatting) → Outcome Formatting
  if_string [] s emit = fault
  if_string (c ∷ fmt) s emit =
      let text = emit fmt s in if c == b's' then text else done (record s { fmt = fmt })

  -- `%I64d`, behind the `64`.
  unfoldable pub emit_long : List ℕ → List ℕ → Formatting → Outcome Formatting
  unfolding emit_number_argument
  emit_long nfmt [] s = fault
  emit_long nfmt (c ∷ fmt) s =
      if c == b'd' || (c == b'u' || c == b'x')
      then emit_number_argument 64 64 (nfmt ++ (b'l' ∷ b'l' ∷ c ∷ [])) fmt s
      else emit_number_argument 64 64 (nfmt ++ (b'l' ∷ b'l' ∷ b'u' ∷ [])) (c ∷ fmt) s

  unfoldable pub long_number : List ℕ → List ℕ → Formatting → Outcome Formatting
  unfolding emit_long
  long_number nfmt [] s = fault
  long_number nfmt (a ∷ []) s = if a == b'6' then fault else done (record s { fmt = [] })
  long_number nfmt (a ∷ b ∷ fmt) s =
      if a == b'6'
      then if b == b'4' then emit_long nfmt fmt s else done (record s { fmt = fmt })
      else done (record s { fmt = b ∷ fmt })

  -- The `switch` on the letter behind a `%`, again for each digit of a width: `nfmt` is what is
  -- copied for `snprintf`.
  unfoldable pub directive : List ℕ → List ℕ → Formatting → Outcome Formatting
  unfolding emit_char_argument emit_wide_argument emit_narrow_argument emit_number_argument
      if_string long_number
  directive nfmt [] s = fault
  directive nfmt (c ∷ fmt) s =
      let more = directive (nfmt ++ (c ∷ [])) fmt s in
      if c == b'c'
      then emit_char_argument fmt s
      else if c == b's'
      then emit_wide_argument fmt s
      else if c == b'w' || c == b'W'
      then if_string fmt s emit_wide_argument
      else if c == b'h' || c == b'H'
      then if_string fmt s emit_narrow_argument
      else if c == b'I' || c == b'i'
      then long_number nfmt fmt s
      else if (c == b'd' || c == b'u') || (c == b'x' || c == b'X')
      then emit_number_argument 32 32 (nfmt ++ (c ∷ [])) fmt s
      else if leb b'0' c && leb c b'9'
      then (if leb 26 (length nfmt) then aborted else more)
      else aborted

  unfoldable pub format_unit : ℕ → List ℕ → Formatting → Outcome Formatting
  unfolding emit_wchar emitted directive
  format_unit c fmt s =
      if c == b'%'
      then directive (b'%' ∷ []) fmt s
      else (emit_wchar c s.target >>= λ t. emitted s fmt s.arguments (1, t))

  -- The terminator, and `size - count` on `size_t`. `stream->count` is an int that has been
  -- incremented for each unit, and is once more.
  unfoldable pub finish : ℕ → Formatting → Outcome (List ℕ × ℕ)
  unfolding emit_wchar less
  finish size s =
      if ltb s.target.count (2 ^ 31 - 1)
      then (emit_wchar 0 s.target >>= λ t. done (t.buffer, less size s.room))
      else fault

  unfoldable pub format_loop : ℕ → ℕ → Formatting → Outcome (List ℕ × ℕ)
  unfolding finish format_unit
  format_loop zero size s = stuck
  format_loop (suc fuel) size s = elim (s.room) [
    | zero ↦ finish size s
    | suc room ↦ elim (s.fmt) [
      | [] ↦ fault
      | c ∷ fmt ↦
          let more = format_unit c fmt s >>= format_loop fuel size in
          if c == 0 then finish size s else more
    ]
  ]

  -- `__format` on a new target, as `rpl__vsnwprintf` calls it; each round takes a unit of the format.
  unfoldable pub vsnwprintf : List ℕ → ℕ → List ℕ → List Argument → Outcome (List ℕ × ℕ)
  unfolding format_loop
  vsnwprintf buffer size format arguments = format_loop (suc (length format)) size (record {
    fmt = format;
    arguments = arguments;
    room = size;
    target = record { buffer = buffer; count = 0 };
  })

  -- `rpl_swprintf` has no size.
  unfoldable pub swprintf : List ℕ → List ℕ → List Argument → Outcome (List ℕ × ℕ)
  unfolding vsnwprintf
  swprintf buffer format arguments = vsnwprintf buffer (2 ^ 64 - 1) format arguments
