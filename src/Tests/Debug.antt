-- ===== src/Tests/Debug.antt =====
-- libs/ntdll/format.c: debug output for small formats.
use nloader.Base.{ℕ, ◌+◌, ◌≤◌, ◌≡◌, refl, none, some, inl, List, [], ◌∷◌, ◌++◌, arith, length}
use nloader.Format.{done, narrow, wide, number}
use nloader.Format.Debug.{read_directive, dbg_print, to_ascii}
use nloader.Format.Debug.Ends.{LoopEnds, dbg_print-LoopEnds}
use nloader.Format.Debug.Specs.{read_directive-Within}
use nloader.Format.Debug.Prints.{DebugPiece, plain, percent, text, units, numeric, dbg_print-writes}

-- A rendering that keeps the conversion and the last digit.
abbrev last_digit : List ℕ → ℕ → List ℕ
last_digit spec n = spec ++ ((48 + n) ∷ [])

abbrev pieces : List DebugPiece
pieces =
    plain b'a' ∷ percent ∷ text (b'x' ∷ b'y' ∷ []) ∷ units (0x416 ∷ b'z' ∷ []) ∷ numeric b'd' 7 ∷ []

-- `%-5.2I64x`
keeps_modifiers :
    (read_directive (b'-' ∷ b'5' ∷ b'.' ∷ b'2' ∷ b'I' ∷ b'6' ∷ b'4' ∷ b'x' ∷ [])).text
    ≡ b'%' ∷ b'-' ∷ b'5' ∷ b'.' ∷ b'2' ∷ b'l' ∷ b'l' ∷ []
unfolding read_directive
keeps_modifiers = refl

prints_null :
    dbg_print last_digit (b'%' ∷ b's' ∷ []) (narrow none ∷ [])
    ≡ done
        (record { arguments = []; out = b'(' ∷ b'n' ∷ b'u' ∷ b'l' ∷ b'l' ∷ b')' ∷ []; total = 0 })
unfolding dbg_print
prints_null = refl

unknown_conversion :
    dbg_print last_digit (b'%' ∷ b'y' ∷ []) []
    ≡ done (record { arguments = []; out = b'%' ∷ b'y' ∷ []; total = 0 })
unfolding dbg_print
unknown_conversion = refl

read_directive-Within_example :
    (length (read_directive (b'5' ∷ b'd' ∷ [])).text + 2 ≤ 64)
    × (length (read_directive (b'5' ∷ b'd' ∷ [])).rest ≤ 2)
read_directive-Within_example = read_directive-Within (b'5' ∷ b'd' ∷ [])

dbg_print-LoopEnds_example :
    LoopEnds last_digit (dbg_print last_digit (b'%' ∷ b'd' ∷ []) (number 7 ∷ []))
dbg_print-LoopEnds_example = dbg_print-LoopEnds last_digit (b'%' ∷ b'd' ∷ []) (number 7 ∷ [])

dbg_print-writes_example :
    dbg_print last_digit
      (b'a' ∷ b'%' ∷ b'%' ∷ b'%' ∷ b's' ∷ b'%' ∷ b'w' ∷ b's' ∷ b'%' ∷ b'd' ∷ [])
      (narrow (some (b'x' ∷ b'y' ∷ 0 ∷ [])) ∷ wide (some (0x416 ∷ b'z' ∷ 0 ∷ [])) ∷ number 7 ∷ [])
    ≡ done (record {
      arguments = [];
      out = b'a' ∷ b'%' ∷ b'x' ∷ b'y' ∷ b'?' ∷ b'z' ∷ b'%' ∷ b'd' ∷ b'7' ∷ [];
      total = 2;
    })
unfolding to_ascii
dbg_print-writes_example = dbg_print-writes last_digit pieces (
  (λ e. absurd (omega (arith, e))),
  (
    tt,
    ((omega arith, (omega arith, tt)), ((omega arith, (omega arith, tt)), (inl (inl refl), tt))),
  ),
)
