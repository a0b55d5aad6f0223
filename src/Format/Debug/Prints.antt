-- ===== src/Format/Debug/Prints.antt =====
-- libs/ntdll/format.c: what `__dbg_print` writes.
use mathlib.Core.List.{append_assoc, append-nil}
use nloader.Base.{
  ℕ, zero, suc, ◌+◌, ◌%◌, ◌^◌, ◌<◌, ◌≡◌, ◌≢◌, refl, ap, sym, ◌∙◌, ◌⊎◌, inl, inr, false, some, List,
  [], ◌∷◌, ◌++◌, All, map, arith, length, take, ◌==◌,
}
use nloader.Wide.Compare.{NonZero}
use nloader.Format.{done, Argument, wide, narrow, number}
use nloader.Format.Debug.{Printing, until_zero, to_ascii, print_loop, dbg_print}

-- A byte of the format, `%%`, a string for `%s`, a string of units for `%ws`, or a number.
pub data DebugPiece : Type 0 where
  plain : ℕ → DebugPiece
  percent : DebugPiece
  text : List ℕ → DebugPiece
  units : List ℕ → DebugPiece
  numeric : ℕ → ℕ → DebugPiece

abbrev pub IsInteger : ℕ → Type 0
IsInteger c = ((c ≡ b'd') ⊎ (c ≡ b'u')) ⊎ ((c ≡ b'x') ⊎ (c ≡ b'X'))

abbrev pub IsDebugPiece : DebugPiece → Type 0
IsDebugPiece (plain c) = c ≢ b'%'
IsDebugPiece percent = Unit
IsDebugPiece (text t) = NonZero t
IsDebugPiece (units t) = NonZero t
IsDebugPiece (numeric c n) = IsInteger c

abbrev pub formats : List DebugPiece → List ℕ
formats [] = []
formats (plain c ∷ ps) = c ∷ formats ps
formats (percent ∷ ps) = b'%' ∷ b'%' ∷ formats ps
formats (text t ∷ ps) = b'%' ∷ b's' ∷ formats ps
formats (units t ∷ ps) = b'%' ∷ b'w' ∷ b's' ∷ formats ps
formats (numeric c n ∷ ps) = b'%' ∷ c ∷ formats ps

abbrev pub passes : List DebugPiece → List Argument
passes [] = []
passes (plain c ∷ ps) = passes ps
passes (percent ∷ ps) = passes ps
passes (text t ∷ ps) = narrow (some (t ++ 0 ∷ [])) ∷ passes ps
passes (units t ∷ ps) = wide (some (t ++ 0 ∷ [])) ∷ passes ps
passes (numeric c n ∷ ps) = number n ∷ passes ps

-- The value of `total`: it counts neither strings nor numbers.
abbrev pub counted : List DebugPiece → ℕ
counted [] = 0
counted (plain c ∷ ps) = suc (counted ps)
counted (percent ∷ ps) = suc (counted ps)
counted (text t ∷ ps) = counted ps
counted (units t ∷ ps) = counted ps
counted (numeric c n ∷ ps) = counted ps

until_zero-append : (t : List ℕ) → NonZero t → until_zero (t ++ 0 ∷ []) ≡ done t
unfolding until_zero
until_zero-append [] h = refl
until_zero-append (c ∷ t) h =
    let more : (c == 0) ≡ false = ground (arith, h.0) in rw (more, until_zero-append t h.1) refl

module _ (render : List ℕ → ℕ → List ℕ) where
  abbrev pub writes : List DebugPiece → List ℕ
  writes [] = []
  writes (plain c ∷ ps) = c ∷ writes ps
  writes (percent ∷ ps) = b'%' ∷ writes ps
  writes (text t ∷ ps) = t ++ writes ps
  writes (units t ∷ ps) = map to_ascii t ++ writes ps
  writes (numeric c n ∷ ps) = take 63 (render (b'%' ∷ c ∷ []) (n % 2 ^ 32)) ++ writes ps

  abbrev printing : List Argument → List ℕ → ℕ → Printing
  printing args out total = record { arguments = args; out = out; total = total }

  -- The loop from a format on writes the rest of the pieces.
  abbrev Writes : ℕ → List DebugPiece → Type 0
  Writes fuel ps =
      (out : List ℕ) (total : ℕ)
      → print_loop render fuel (formats ps) (printing (passes ps) out total)
        ≡ done (printing [] (out ++ writes ps) (total + counted ps))

  module _ (fuel : ℕ) (ps : List DebugPiece) (later : Writes fuel ps) where
    printed_one :
        (out : List ℕ) (c total : ℕ)
        → print_loop render fuel (formats ps) (printing (passes ps) (out ++ (c ∷ [])) (total + 1))
          ≡ done (printing [] (out ++ (c ∷ writes ps)) (total + suc (counted ps)))
    printed_one out c total =
        later (out ++ (c ∷ [])) (total + 1)
        ∙ ap (λ o. done (printing [] o (total + 1 + counted ps)))
            (append_assoc out (c ∷ []) (writes ps))
        ∙ ap (λ k. done (printing [] (out ++ (c ∷ writes ps)) k)) (omega arith)

    printed :
        (out bytes : List ℕ) (total : ℕ)
        → print_loop render fuel (formats ps) (printing (passes ps) (out ++ bytes) total)
          ≡ done (printing [] (out ++ (bytes ++ writes ps)) (total + counted ps))
    printed out bytes total =
        later (out ++ bytes) total
        ∙ ap (λ o. done (printing [] o (total + counted ps))) (append_assoc out bytes (writes ps))

    plain-Writes : (c : ℕ) → c ≢ b'%' → Writes (suc fuel) (plain c ∷ ps)
    unfolding print_loop
    plain-Writes c h out total =
        let other : (c == b'%') ≡ false = ground (arith, h) in
        rw (print_loop, other) (printed_one out c total)

    percent-Writes : Writes (suc fuel) (percent ∷ ps)
    unfolding print_loop
    percent-Writes out total = printed_one out b'%' total

    text-Writes : (t : List ℕ) → NonZero t → Writes (suc fuel) (text t ∷ ps)
    unfolding print_loop
    text-Writes t h out total = rw (until_zero-append t h) (printed out t total)

    units-Writes : (t : List ℕ) → NonZero t → Writes (suc fuel) (units t ∷ ps)
    unfolding print_loop
    units-Writes t h out total = rw (until_zero-append t h) (printed out (map to_ascii t) total)

    numeric-Writes : (c n : ℕ) → IsInteger c → Writes (suc fuel) (numeric c n ∷ ps)
    unfolding print_loop
    numeric-Writes c n (inl (inl e)) out total =
        rw e (printed out (take 63 (render (b'%' ∷ b'd' ∷ []) (n % 2 ^ 32))) total)
    numeric-Writes c n (inl (inr e)) out total =
        rw e (printed out (take 63 (render (b'%' ∷ b'u' ∷ []) (n % 2 ^ 32))) total)
    numeric-Writes c n (inr (inl e)) out total =
        rw e (printed out (take 63 (render (b'%' ∷ b'x' ∷ []) (n % 2 ^ 32))) total)
    numeric-Writes c n (inr (inr e)) out total =
        rw e (printed out (take 63 (render (b'%' ∷ b'X' ∷ []) (n % 2 ^ 32))) total)

  print_loop-Writes :
      (ps : List DebugPiece) (fuel : ℕ)
      → length (formats ps) < fuel
      → All IsDebugPiece ps
      → Writes fuel ps
  unfolding print_loop
  print_loop-Writes ps zero h all = absurd (omega arith)
  print_loop-Writes [] (suc fuel) h all = λ out total.
      ap (λ o. done (printing [] o total)) (sym (append-nil out))
      ∙ ap (λ k. done (printing [] (out ++ []) k)) (omega arith)
  print_loop-Writes (plain c ∷ ps) (suc fuel) h all =
      plain-Writes fuel ps (print_loop-Writes ps fuel (omega arith) all.1) c all.0
  print_loop-Writes (percent ∷ ps) (suc fuel) h all =
      percent-Writes fuel ps (print_loop-Writes ps fuel (omega arith) all.1)
  print_loop-Writes (text t ∷ ps) (suc fuel) h all =
      text-Writes fuel ps (print_loop-Writes ps fuel (omega arith) all.1) t all.0
  print_loop-Writes (units t ∷ ps) (suc fuel) h all =
      units-Writes fuel ps (print_loop-Writes ps fuel (omega arith) all.1) t all.0
  print_loop-Writes (numeric c n ∷ ps) (suc fuel) h all =
      numeric-Writes fuel ps (print_loop-Writes ps fuel (omega arith) all.1) c n all.0

  -- For a format of plain bytes, `%%`, `%s`, `%ws`, `%d`, `%u`, `%x` and `%X`, with the arguments
  -- that it asks for and strings without zeros, what each of them stands for is written in order,
  -- and no argument is left.
  pub dbg_print-writes :
      (ps : List DebugPiece)
      → All IsDebugPiece ps
      → dbg_print render (formats ps) (passes ps)
        ≡ done (record { arguments = []; out = writes ps; total = counted ps })
  unfolding dbg_print
  dbg_print-writes ps all =
      print_loop-Writes ps (suc (length (formats ps))) (omega arith) all [] 0
      ∙ ap (λ k. done (printing [] (writes ps) k)) (omega arith)
