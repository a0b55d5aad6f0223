-- ===== src/Format/Pieces.antt =====
-- libs/ntdll/format.c: the rounds of `__format` for units, strings and numbers.
use nloader.Base.{
  take_enough, ℕ, zero, suc, ◌+◌, ◌-◌, ◌%◌, ◌^◌, ◌≤◌, ◌<◌, ◌≡◌, ◌≢◌, ◌⊎◌, inl, inr, refl, ap, false,
  some, List, [], ◌∷◌, ◌++◌, map, arith, length, length-map, take, drop, ◌==◌,
}
use nloader.Wide.Compare.{NonZero}
use nloader.Rtl.{from_char}
use nloader.Format.{
  Outcome, done, ◌>>=◌, Target, emit_wstring, emit_string, Argument, wide, number, Formatting,
  emitted, emit_number, emit_wide_argument, emit_number_argument, directive, format_unit,
  format_loop,
}
use nloader.Format.Emit.{filled, emit-filled, emit_text-filled, less_lem, map_id}

-- A unit of the format, a string for `%s`, a number for `%d`, `%u`, `%x` or `%X`.
pub data Piece : Type 0 where
  plain : ℕ → Piece
  text : List ℕ → Piece
  numeric : ℕ → ℕ → Piece

abbrev pub printed : Piece → List ℕ → List ℕ
printed (plain c) m = c ∷ m
printed (text t) m = b'%' ∷ b's' ∷ m
printed (numeric c n) m = b'%' ∷ c ∷ m

abbrev pub passed : Piece → List Argument → List Argument
passed (plain c) args = args
passed (text t) args = wide (some (t ++ 0 ∷ [])) ∷ args
passed (numeric c n) args = number n ∷ args

abbrev pub IsNumeric : ℕ → Type 0
IsNumeric c = ((c ≡ b'd') ⊎ (c ≡ b'u')) ⊎ ((c ≡ b'x') ⊎ (c ≡ b'X'))

module _ (render : List ℕ → ℕ → List ℕ) where
  -- What `snprintf` makes of a number of 32 bits.
  abbrev pub numeral : ℕ → ℕ → List ℕ
  numeral c n = render (b'%' ∷ c ∷ []) (n % 2 ^ 32)

  abbrev pub rendered : Piece → List ℕ
  rendered (plain c) = c ∷ []
  rendered (text t) = t
  rendered (numeric c n) = map from_char (numeral c n)

  abbrev pub IsPiece : Piece → Type 0
  IsPiece (plain c) = (0 < c) × (c ≢ b'%')
  IsPiece (text t) = NonZero t
  IsPiece (numeric c n) = IsNumeric c × NonZero (numeral c n) × (length (numeral c n) ≤ 31)

  abbrev pub state : List ℕ → List Argument → ℕ → List ℕ → List ℕ → Formatting
  state m args room out d = record { fmt = m; arguments = args; room = room; target = filled out d }

  -- What is emitted for a piece leaves less room.
  abbrev Emits : Piece → List ℕ → List Argument → ℕ → List ℕ → List ℕ → Outcome Formatting → Type 0
  Emits p m args room out d result =
      result
      ≡ done (
          state m args (room - length (rendered p)) (out ++ rendered p)
            (drop (length (rendered p)) d))

  emit_number-filled :
      (c n : ℕ) (out d : List ℕ)
      → IsPiece (numeric c n)
      → length (rendered (numeric c n)) ≤ length d
      → emit_number render 32 (b'%' ∷ c ∷ []) (n % 2 ^ 32) (filled out d)
        ≡ done (
          length (rendered (numeric c n)),
          filled (out ++ rendered (numeric c n)) (drop (length (rendered (numeric c n))) d),
        )
  unfolding emit_number emit_string
  emit_number-filled c n out d h room =
      let t = numeral c n in
      let size : length (map from_char t) ≡ length t = length-map t from_char in
      let cut : take 31 t ≡ t = take_enough 31 t h.2 in
      rw cut (
        rw (emit_text-filled from_char t [] out d 0 h.1 (omega (arith, size, room))) (rw size refl))

  directive-numeric :
      (c : ℕ) (m : List ℕ) (s : Formatting)
      → IsNumeric c
      → directive render (b'%' ∷ []) (c ∷ m) s
        ≡ emit_number_argument render 32 32 (b'%' ∷ c ∷ []) m s
  unfolding directive
  directive-numeric c m s (inl (inl e)) = rw e refl
  directive-numeric c m s (inl (inr e)) = rw e refl
  directive-numeric c m s (inr (inl e)) = rw e refl
  directive-numeric c m s (inr (inr e)) = rw e refl

  emitted-less :
      (m : List ℕ) (args args' : List Argument) (room k : ℕ) (out d : List ℕ) (t : Target)
      (m' : List ℕ)
      → k ≤ room
      → room < 2 ^ 64
      → emitted (state m' args' room out d) m args (k, t)
        ≡ done (record { fmt = m; arguments = args; room = room - k; target = t })
  unfolding emitted
  emitted-less m args args' room k out d t m' h wraps = rw (less_lem room k h wraps) refl

  pub format_unit-plain :
      (c : ℕ) (m : List ℕ) (args : List Argument) (room : ℕ) (out d : List ℕ)
      → IsPiece (plain c)
      → 1 ≤ room
      → room < 2 ^ 64
      → 1 ≤ length d
      → Emits (plain c) m args room out d (format_unit render c m (state (c ∷ m) args room out d))
  unfolding format_unit
  format_unit-plain c m args room out [] h fits wraps there = absurd (omega arith)
  format_unit-plain c m args room out (y ∷ d) h fits wraps there =
      let ne : (c == b'%') ≡ false = ground (arith, h.1) in
      rw ne (
        rw (emit-filled out d y c) (
          emitted-less m args args room 1 out (y ∷ d) (filled (out ++ (c ∷ [])) d) (c ∷ m) fits
            wraps))

  format_unit-text :
      (t m : List ℕ) (args : List Argument) (room : ℕ) (out d : List ℕ)
      → IsPiece (text t)
      → length t ≤ room
      → room < 2 ^ 64
      → length t ≤ length d
      → Emits (text t) m args room out d (
          format_unit render b'%'
            (b's' ∷ m)
            (state (b'%' ∷ b's' ∷ m) (passed (text t) args) room out d))
  unfolding format_unit directive emit_wide_argument emit_wstring
  format_unit-text t m args room out d h fits wraps there =
      let zero_more : 0 + length t ≡ length t = omega arith in
      rw (emit_text-filled (λ c. c) t [] out d 0 h there)
        (rw (zero_more, less_lem room (length t) fits wraps, map_id t) refl)

  format_unit-numeric :
      (c n : ℕ) (m : List ℕ) (args : List Argument) (room : ℕ) (out d : List ℕ)
      → IsPiece (numeric c n)
      → length (rendered (numeric c n)) ≤ room
      → room < 2 ^ 64
      → length (rendered (numeric c n)) ≤ length d
      → Emits (numeric c n) m args room out d (
          format_unit render b'%'
            (c ∷ m)
            (state (b'%' ∷ c ∷ m) (passed (numeric c n) args) room out d))
  unfolding format_unit emit_number_argument
  format_unit-numeric c n m args room out d h fits wraps there = rw (directive-numeric c m _ h.0) (
      rw (emit_number-filled c n out d h there) (
        emitted-less m args (number n ∷ args) room (length (rendered (numeric c n))) out d
          (filled (out ++ rendered (numeric c n)) (drop (length (rendered (numeric c n))) d))
          (b'%' ∷ c ∷ m) fits wraps))

  -- The round of the loop for a piece.
  pub round :
      (p : Piece) (m : List ℕ) (args : List Argument) (fuel size room : ℕ) (out d : List ℕ)
      → IsPiece p
      → length (rendered p) < room
      → room < 2 ^ 64
      → length (rendered p) ≤ length d
      → format_loop render (suc fuel) size (state (printed p m) (passed p args) room out d)
        ≡ format_loop render fuel size (
            state m args
              (room - length (rendered p))
              (out ++ rendered p)
              (drop (length (rendered p)) d))
  unfolding format_loop
  round p m args fuel size zero out d h fits wraps there = absurd (omega arith)
  round (plain c) m args fuel size (suc room) out d h fits wraps there =
      let pos : (c == 0) ≡ false = ground (arith, h.0) in
      rw pos (
        ap (λ o. o >>= format_loop render fuel size)
          (format_unit-plain c m args (suc room) out d h (omega arith) wraps there))
  round (text t) m args fuel size (suc room) out d h fits wraps there =
      ap (λ o. o >>= format_loop render fuel size)
        (format_unit-text t m args (suc room) out d h (omega arith) wraps there)
  round (numeric c n) m args fuel size (suc room) out d h fits wraps there =
      ap (λ o. o >>= format_loop render fuel size)
        (format_unit-numeric c n m args (suc room) out d h (omega arith) wraps there)
