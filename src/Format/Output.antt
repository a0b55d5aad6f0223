-- ===== src/Format/Output.antt =====
-- libs/ntdll/format.c: what `__format` makes of a format of units, strings and numbers.
use mathlib.Core.List.{append_assoc, append-nil}
use nloader.Base.{
  ℕ, zero, suc, ◌+◌, ◌-◌, ◌^◌, ◌<◌, ◌≡◌, ◌≢◌, refl, ap, sym, ◌∙◌, ltb, Bool, true, if◌then◌else◌,
  false, List, [], ◌∷◌, ◌++◌, arith, length, length-append, drop, length-drop, All, ◌==◌,
}
use nloader.Rtl.Copy.{store-append, store-none}
use nloader.Format.{
  Outcome, done, fault, ◌>>=◌, emit_wchar, Argument, less, finish, format_loop, format_unit,
  vsnwprintf,
}
use nloader.Format.Emit.{less_lem}
use nloader.Format.Pieces.{
  Piece, plain, text, numeric, printed, passed, rendered, IsPiece, state, format_unit-plain, round,
}

-- A format of pieces with its terminator, its arguments, and what comes out.
abbrev pub format : List Piece → List ℕ → List ℕ
format [] rest = 0 ∷ rest
format (p ∷ ps) rest = printed p (format ps rest)

abbrev pub arguments_of : List Piece → List Argument → List Argument
arguments_of [] more = more
arguments_of (p ∷ ps) more = passed p (arguments_of ps more)

length-format : (ps : List Piece) (rest : List ℕ) → length ps < length (format ps rest)
length-format [] rest = omega arith
length-format (plain c ∷ ps) rest = omega (arith, length-format ps rest)
length-format (text t ∷ ps) rest = omega (arith, length-format ps rest)
length-format (numeric c n ∷ ps) rest = omega (arith, length-format ps rest)

module _ (render : List ℕ → ℕ → List ℕ) where
  abbrev pub output : List Piece → List ℕ
  output [] = []
  output (p ∷ ps) = rendered render p ++ output ps

  finish-filled :
      (size room : ℕ) (m : List ℕ) (args : List Argument) (out d : List ℕ) (y : ℕ)
      → size ≡ room + length out
      → size < 2 ^ 64
      → length out < 2 ^ 31 - 1
      → finish render size (state render m args room out (y ∷ d))
        ≡ done (out ++ (0 ∷ d), length out)
  unfolding finish emit_wchar
  finish-filled size room m args out d y e wraps counts =
      let count : ltb (length out) (2 ^ 31 - 1) ≡ true = ground (arith, counts) in
      let left : less size room ≡ length out =
        less_lem size room (omega arith) wraps ∙ omega arith in
      rw (count, emit_wchar, store-append out y 0 d (length out) refl) (rw left refl)

  loop-output :
      (ps : List Piece) (rest : List ℕ) (more : List Argument) (fuel size room : ℕ) (out d : List ℕ)
      → All (IsPiece render) ps
      → size ≡ room + length out
      → size < 2 ^ 64
      → length (output ps) < room
      → length (output ps) < length d
      → length ps < fuel
      → length out + length (output ps) < 2 ^ 31 - 1
      → (d' : List ℕ) × (format_loop render fuel size
            (state render (format ps rest) (arguments_of ps more) room out d)
          ≡ done ((out ++ output ps) ++ (0 ∷ d'), length (out ++ output ps)))
  unfolding format_loop
  loop-output ps rest more zero size room out d h e wraps fits there enough counts =
      absurd (omega arith)
  loop-output [] rest more (suc fuel) size zero out d h e wraps fits there enough counts =
      absurd (omega arith)
  loop-output [] rest more (suc fuel) size (suc room) out [] h e wraps fits there enough counts =
      absurd (omega arith)
  loop-output [] rest more (suc fuel) size (suc room) out (y ∷ d) h e wraps fits there enough
        counts =
      (
        d,
        finish-filled size (suc room) rest more out d y e wraps (omega (arith, counts))
            ∙ ap (λ o. done (o ++ (0 ∷ d), length o)) (sym (append-nil out)),
      )
  loop-output (p ∷ ps) rest more (suc fuel) size room out d h e wraps fits there enough counts =
      let w = rendered render p in
      let both = length-append w (output ps) in
      let left = length-append out w in
      let (d', f) =
        loop-output ps rest more fuel size (room - length w) (out ++ w) (drop (length w) d) h.1
          (omega (arith, e, left, both, fits)) wraps (omega (arith, both, fits))
          (omega (arith, both, there, length-drop (length w) d)) (omega arith)
          (omega (arith, left, both, counts)) in
      (
        d',
        round render p (format ps rest) (arguments_of ps more) fuel size room out d h.0
              (omega (arith, both, fits)) (omega (arith, e, wraps)) (omega (arith, both, there))
            ∙ f
            ∙ ap (λ o. done (o ++ (0 ∷ d'), length o)) (append_assoc out w (output ps)),
      )

  -- A format of units, strings and numbers is written out with a terminator, and its length is
  -- returned, if the size that is given, which is less than 2 to the 64, and the buffer both have
  -- room for one more unit, and the length and the terminator fit into an int: where `snprintf`
  -- gives at most 31 characters and no 0 for each number.
  pub vsnwprintf-output :
      (ps : List Piece) (rest buffer : List ℕ) (more : List Argument) (size : ℕ)
      → All (IsPiece render) ps
      → size < 2 ^ 64
      → length (output ps) < size
      → length (output ps) < length buffer
      → length (output ps) < 2 ^ 31 - 1
      → (d : List ℕ) × (vsnwprintf render buffer size (format ps rest) (arguments_of ps more)
          ≡ done (output ps ++ (0 ∷ d), length (output ps)))
  unfolding vsnwprintf
  vsnwprintf-output ps rest buffer more size h wraps fits there counts =
      loop-output ps rest more (suc (length (format ps rest))) size size [] buffer h (omega arith)
        wraps fits there (omega (arith, length-format ps rest)) (omega (arith, counts))

  either_fault : (b : Bool) → ◌≡◌ {A = Outcome (List ℕ × ℕ)} (if b then fault else fault) fault
  either_fault true = refl
  either_fault false = refl

  loop-full :
      (t rest : List ℕ) (more : List Argument) (fuel size : ℕ) (out d : List ℕ)
      → All (λ c. (0 < c) × (c ≢ b'%')) t
      → length t ≡ length d
      → length d < 2 ^ 64
      → length t < fuel
      → format_loop render fuel size (state render (t ++ 0 ∷ rest) more (length d) out d) ≡ fault
  unfolding format_loop finish emit_wchar
  loop-full t rest more zero size out d h e wraps enough = absurd (omega arith)
  loop-full [] rest more (suc fuel) size out [] h e wraps enough =
      rw (emit_wchar, store-none (out ++ []) (length out) 0 (omega (arith, length-append out [])))
        (either_fault (ltb (length out) (2 ^ 31 - 1)))
  loop-full [] rest more (suc fuel) size out (y ∷ d) h e wraps enough = absurd (omega (arith, e))
  loop-full (c ∷ t) rest more (suc fuel) size out [] h e wraps enough = absurd (omega (arith, e))
  loop-full (c ∷ t) rest more (suc fuel) size out (y ∷ d) h e wraps enough =
      let pos : (c == 0) ≡ false = ground (arith, h.0.0) in
      let next = state render (t ++ 0 ∷ rest) more (length d) (out ++ (c ∷ [])) d in
      let left : suc (length d) - 1 ≡ length d = omega arith in
      let emits : format_unit render c (t ++ 0 ∷ rest)
            (state render (c ∷ t ++ 0 ∷ rest) more (suc (length d)) out (y ∷ d))
          ≡ done next =
        format_unit-plain render c (t ++ 0 ∷ rest) more (suc (length d)) out (y ∷ d) h.0
          (omega arith) wraps (omega arith)
        ∙ ap (λ r. done (state render (t ++ 0 ∷ rest) more r (out ++ (c ∷ [])) d)) left in
      rw pos (
        ap (λ o. o >>= format_loop render fuel size) emits
        ∙ loop-full t rest more fuel size (out ++ (c ∷ [])) d h.1 (omega (arith, e))
            (omega (arith, wraps)) (omega arith))

  -- A format that is a string of units, none of them a percent sign, is terminated behind the
  -- buffer if it has as many units as the buffer, and the size that is given is that of the buffer,
  -- less than 2 to the 64.
  pub vsnwprintf-full :
      (t rest buffer : List ℕ) (more : List Argument)
      → All (λ c. (0 < c) × (c ≢ b'%')) t
      → length t ≡ length buffer
      → length buffer < 2 ^ 64
      → vsnwprintf render buffer (length buffer) (t ++ 0 ∷ rest) more ≡ fault
  unfolding vsnwprintf
  vsnwprintf-full t rest buffer more h e wraps =
      loop-full t rest more (suc (length (t ++ 0 ∷ rest))) (length buffer) [] buffer h e wraps
        (omega (arith, length-append t (0 ∷ rest)))
