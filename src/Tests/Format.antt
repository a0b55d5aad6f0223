-- ===== src/Tests/Format.antt =====
-- libs/ntdll/format.c on small formats.
use nloader.Base.{ℕ, ◌≡◌, refl, inl, some, List, [], ◌∷◌, ◌++◌, replicate, arith}
use nloader.Rtl.{from_char}
use nloader.Format.{wide, number, done, fault, aborted, vsnwprintf}
use nloader.Format.Pieces.{Piece, plain, text, numeric}
use nloader.Format.Output.{format, arguments_of, vsnwprintf-output}

-- `snprintf` for the number 7.
abbrev seven : List ℕ → ℕ → List ℕ
seven nfmt n = b'7' ∷ []

abbrev pieces : List Piece
pieces = plain b'a' ∷ text (b'x' ∷ b'y' ∷ []) ∷ numeric b'd' 7 ∷ []

vsnwprintf-output_example :
    (d : List ℕ) × (vsnwprintf seven (replicate 8 0) 8 (format pieces []) (arguments_of pieces [])
      ≡ done ((b'a' ∷ b'x' ∷ b'y' ∷ b'7' ∷ []) ++ (0 ∷ d), 4))
unfolding from_char
vsnwprintf-output_example =
    vsnwprintf-output seven pieces [] (replicate 8 0) [] 8
      (
        (omega arith, λ e. omega (arith, e)),
        ((omega arith, (omega arith, tt)), ((inl (inl refl), (omega arith, tt), omega arith), tt)),
      )
      (omega arith) (omega arith) (omega arith) (omega arith)

-- A string that is longer than the room that is left.
string_behind :
    vsnwprintf seven
      (0 ∷ 0 ∷ [])
      2
      (b'%' ∷ b's' ∷ 0 ∷ [])
      (wide (some (b'a' ∷ b'b' ∷ b'c' ∷ 0 ∷ [])) ∷ [])
    ≡ fault
unfolding vsnwprintf
string_behind = refl

-- A width is passed to `snprintf`; a `%` before a letter without a case ends the program.
width :
    vsnwprintf seven (replicate 3 9) 3 (b'%' ∷ b'0' ∷ b'2' ∷ b'x' ∷ 0 ∷ []) (number 7 ∷ [])
    ≡ done (b'7' ∷ 0 ∷ 9 ∷ [], 1)
unfolding vsnwprintf
width = refl

unknown_letter : vsnwprintf seven (replicate 3 9) 3 (b'%' ∷ b'q' ∷ 0 ∷ []) [] ≡ aborted
unfolding vsnwprintf
unknown_letter = refl
