-- ===== src/Format/Debug/Ends.antt =====
-- libs/ntdll/format.c: how the loop of `__dbg_print` ends.
use nloader.Base.{
  ℕ, zero, suc, ◌≤◌, ◌<◌, ◌≡◌, refl, ◌⊎◌, inl, inr, Bool, true, false, ◌||◌, List, [], ◌∷◌, ◌++◌,
  arith, length, none, some, ◌==◌, if◌then◌else◌, Bool-cases,
}
use nloader.Format.{Outcome, done, fault, ◌>>=◌, Argument, wide, narrow, number}
use nloader.Format.Debug.{
  Modified, read_directive, Printing, convert, put, until_zero, put_wide, put_narrow, put_wide_char,
  put_char, put_number, is_integer, is_float, print_loop, dbg_print,
}
use nloader.Format.Debug.Specs.{read_directive-Within}

until_zero-cases :
    (str : List ℕ) → (until_zero str ≡ fault) ⊎ ((bytes : List ℕ) × (until_zero str ≡ done bytes))
unfolding until_zero
until_zero-cases [] = inl refl
until_zero-cases (c ∷ str) = elim (Bool-cases (c == 0)) [
  | inl e ↦ inr ([], rw e refl)
  | inr e ↦ elim (until_zero-cases str) [
    | inl f ↦ inl (rw (e, f) refl)
    | inr (bytes, f) ↦ inr (c ∷ bytes, rw (e, f) refl)
  ]
]

module _ (render : List ℕ → ℕ → List ℕ) where
  -- A loop that ends.
  pub data LoopEnds : Outcome Printing → Type 0 where
    with_output : (s : Printing) → LoopEnds (done s)
    with_fault : LoopEnds fault

  if-LoopEnds :
      (b : Bool) (x y : Outcome Printing) → LoopEnds x → LoopEnds y → LoopEnds (if b then x else y)
  if-LoopEnds true x y h k = h
  if-LoopEnds false x y h k = k

  put-LoopEnds :
      (bytes : List ℕ) (args : List Argument) (s : Printing) → LoopEnds (put bytes args s)
  unfolding put
  put-LoopEnds bytes args s = with_output _

  until_zero-LoopEnds :
      (str : List ℕ) (next : List ℕ → Outcome Printing)
      → ((bytes : List ℕ) → LoopEnds (next bytes))
      → LoopEnds (until_zero str >>= next)
  until_zero-LoopEnds str next h = elim (until_zero-cases str) [
    | inl e ↦ rw e with_fault
    | inr (bytes, e) ↦ rw e (h bytes)
  ]

  ruleset loops = (with_output, with_fault, if-LoopEnds, put-LoopEnds, until_zero-LoopEnds)

  put_wide-LoopEnds :
      (args : List Argument) (s : Printing) → LoopEnds (put_wide (record s { arguments = args }))
  unfolding put_wide
  put_wide-LoopEnds [] s = with_fault
  put_wide-LoopEnds (wide none ∷ args) s = search loops
  put_wide-LoopEnds (wide (some str) ∷ args) s = search loops
  put_wide-LoopEnds (narrow str ∷ args) s = with_fault
  put_wide-LoopEnds (number n ∷ args) s = with_fault

  put_narrow-LoopEnds :
      (args : List Argument) (s : Printing) → LoopEnds (put_narrow (record s { arguments = args }))
  unfolding put_narrow
  put_narrow-LoopEnds [] s = with_fault
  put_narrow-LoopEnds (narrow none ∷ args) s = search loops
  put_narrow-LoopEnds (narrow (some str) ∷ args) s = search loops
  put_narrow-LoopEnds (wide str ∷ args) s = with_fault
  put_narrow-LoopEnds (number n ∷ args) s = with_fault

  put_wide_char-LoopEnds :
      (args : List Argument) (s : Printing)
      → LoopEnds (put_wide_char (record s { arguments = args }))
  unfolding put_wide_char
  put_wide_char-LoopEnds [] s = with_fault
  put_wide_char-LoopEnds (wide str ∷ args) s = with_fault
  put_wide_char-LoopEnds (narrow str ∷ args) s = with_fault
  put_wide_char-LoopEnds (number n ∷ args) s = search loops

  put_char-LoopEnds :
      (args : List Argument) (s : Printing) → LoopEnds (put_char (record s { arguments = args }))
  unfolding put_char
  put_char-LoopEnds [] s = with_fault
  put_char-LoopEnds (wide str ∷ args) s = with_fault
  put_char-LoopEnds (narrow str ∷ args) s = with_fault
  put_char-LoopEnds (number n ∷ args) s = search loops

  put_number-LoopEnds :
      (args : List Argument) (bits : ℕ) (spec : List ℕ) (s : Printing)
      → LoopEnds (put_number render bits spec (record s { arguments = args }))
  unfolding put_number
  put_number-LoopEnds [] bits spec s = search loops
  put_number-LoopEnds (wide str ∷ args) bits spec s = search loops
  put_number-LoopEnds (narrow str ∷ args) bits spec s = search loops
  put_number-LoopEnds (number n ∷ args) bits spec s = search loops

  convert-LoopEnds : (c : ℕ) (m : Modified) (s : Printing) → LoopEnds (convert render c m s)
  unfolding convert
  convert-LoopEnds c m s =
      let args = s.arguments in
      let text =
        if-LoopEnds (m.is_wide) (put_wide s) (put_narrow s) (put_wide-LoopEnds args s)
          (put_narrow-LoopEnds args s) in
      let unit =
        if-LoopEnds (m.is_wide) (put_wide_char s) (put_char s) (put_wide_char-LoopEnds args s)
          (put_char-LoopEnds args s) in
      let spec = m.text ++ (c ∷ []) in
      let number_of = λ (bits : ℕ). put_number-LoopEnds args bits spec s in
      let integer =
        if-LoopEnds (m.is_long64) (put_number render 64 spec s) (put_number render 32 spec s)
          (number_of 64) (number_of 32) in
      if-LoopEnds (c == b'%') _ _ (with_output _) (
        if-LoopEnds (c == b's') _ _ text (
          if-LoopEnds (c == b'S') _ _ (put_wide-LoopEnds args s) (
            if-LoopEnds (c == b'c') _ _ unit (
              if-LoopEnds (c == b'C') _ _ (put_wide_char-LoopEnds args s) (
                if-LoopEnds (is_integer c) _ _ integer (
                  if-LoopEnds (c == b'p' || is_float c) _ _ (number_of 64)
                    (put-LoopEnds (b'%' ∷ c ∷ []) args s)))))))

  bind-LoopEnds :
      (o : Outcome Printing) (next : Printing → Outcome Printing)
      → LoopEnds o
      → ((s : Printing) → LoopEnds (next s))
      → LoopEnds (o >>= next)
  bind-LoopEnds _ next (with_output s) h = h s
  bind-LoopEnds _ next with_fault h = with_fault

  directive-LoopEnds :
      (fuel : ℕ) (rest : List ℕ) (m : Modified) (s : Printing)
      → ((fmt : List ℕ) (s' : Printing)
          → length fmt < fuel
          → LoopEnds (print_loop render fuel fmt s'))
      → length rest ≤ fuel
      → LoopEnds (elim rest [
        | [] ↦ done s
        | conv ∷ later ↦ convert render conv m s >>= λ s'. print_loop render fuel later s'
      ])
  directive-LoopEnds fuel [] m s loops_on h = with_output s
  directive-LoopEnds fuel (conv ∷ later) m s loops_on h =
      bind-LoopEnds (convert render conv m s) (λ s'. print_loop render fuel later s')
        (convert-LoopEnds conv m s) (λ s'. loops_on later s' (omega arith))

  print_loop-LoopEnds :
      (fuel : ℕ) (fmt : List ℕ) (s : Printing)
      → length fmt < fuel
      → LoopEnds (print_loop render fuel fmt s)
  unfolding print_loop
  print_loop-LoopEnds zero fmt s h = absurd (omega arith)
  print_loop-LoopEnds (suc fuel) [] s h = with_output s
  print_loop-LoopEnds (suc fuel) (c ∷ fmt) s h = elim (Bool-cases (c == b'%')) [
    | inr e ↦ rw (print_loop, e) (print_loop-LoopEnds fuel fmt _ (omega arith))
    | inl e ↦
        rw (print_loop, e)
          (directive-LoopEnds fuel (read_directive fmt).rest (read_directive fmt) s
            (print_loop-LoopEnds fuel) (omega (arith, (read_directive-Within fmt).1)))
  ]

  -- The loop over a format ends, since every round takes a byte of it.
  pub dbg_print-LoopEnds :
      (fmt : List ℕ) (args : List Argument) → LoopEnds (dbg_print render fmt args)
  unfolding dbg_print
  dbg_print-LoopEnds fmt args = print_loop-LoopEnds (suc (length fmt)) fmt _ (omega arith)
