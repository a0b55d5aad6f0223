-- ===== src/Rtl/Messages.antt =====
-- libs/ntdll/rtl.c: messages made of pieces, and what `RtlFormatMessage` makes of them.
use mathlib.Core.List.{append_assoc}
use nloader.Base.{
  ℕ, zero, suc, ◌+◌, ◌<◌, ◌≡◌, refl, ap, sym, ◌∙◌, some, List, [], ◌∷◌, ◌++◌, map, arith, length,
  length-append, drop, All, get_elem?,
}
use nloader.Wide.Compare.{NonZero}
use nloader.Rtl.Copy.{store-append}
use nloader.Rtl.Format.{Outcome, done, array, next_unit, finish, format_loop, format_message}
use nloader.Rtl.Emit.{state}
use nloader.Rtl.Logs.{log_output-some}
use nloader.Rtl.Pieces.{
  Piece, plain, control, inserted, inserted_long, inserted_short, printed, rendered, IsPiece,
  terminated, piece-Emitted,
}
use nloader.Rtl.Format.{take_arg, successive}

-- A message of pieces, with its terminator.
abbrev pub message : List Piece → List ℕ → List ℕ
message [] rest = 0 ∷ rest
message (p ∷ ps) rest = printed p (message ps rest)

abbrev pub output : List (List ℕ) → List Piece → List ℕ
output texts [] = []
output texts (p ∷ ps) = rendered texts p ++ output texts ps

abbrev pub IsMessage : List (List ℕ) → List Piece → List ℕ → Type 0
IsMessage texts [] rest = Unit {0}
IsMessage texts (p ∷ ps) rest = IsPiece texts p (message ps rest) × IsMessage texts ps rest

printed-lt : (p : Piece) (m : List ℕ) → length m < length (printed p m)
printed-lt (plain c) m = omega arith
printed-lt (control c u) m = omega arith
printed-lt (inserted n spec) m = omega (arith, length-append spec (b'!' ∷ m))
printed-lt (inserted_long tens n spec) m = omega (arith, length-append spec (b'!' ∷ m))
printed-lt (inserted_short n) m = omega arith

length-message : (ps : List Piece) (rest : List ℕ) → length ps < length (message ps rest)
length-message [] rest = omega arith
length-message (p ∷ ps) rest = omega (arith, length-message ps rest, printed-lt p (message ps rest))

grouped :
    (out w more rest : List ℕ)
    → ◌≡◌ {A = Outcome (List ℕ × ℕ)}
        (done ((out ++ w) ++ (more ++ rest), length (out ++ w) + length more))
        (done (out ++ ((w ++ more) ++ rest), length out + length (w ++ more)))
grouped out w more rest =
    let lists : (out ++ w) ++ (more ++ rest) ≡ out ++ ((w ++ more) ++ rest) =
      append_assoc out w (more ++ rest) ∙ ap (λ l. out ++ l) (sym (append_assoc w more rest)) in
    let sizes : length (out ++ w) + length more ≡ length out + length (w ++ more) =
      omega (arith, length-append out w, length-append w more) in
    ap (λ l. done (l, length (out ++ w) + length more)) lists
    ∙ ap (λ n. done (out ++ ((w ++ more) ++ rest), n)) sizes

module _ (texts : List (List ℕ)) (nonzero : All NonZero texts) where
  loop-message :
      (ps : List Piece) (rest out d : List ℕ) (fuel : ℕ)
      → IsMessage texts ps rest
      → length (output texts ps) < length d
      → length ps < fuel
      → (d' : List ℕ) × (format_loop fuel (state (map terminated texts) (message ps rest) out d)
          ≡ done (out ++ (output texts ps ++ (0 ∷ d')), length out + length (output texts ps)))
  unfolding format_loop next_unit finish
  loop-message ps rest out d zero h room enough = absurd (omega arith)
  loop-message [] rest out [] (suc fuel) h room enough = absurd (omega arith)
  loop-message [] rest out (y ∷ d) (suc fuel) h room enough = (
    d,
    rw (store-append out y 0 d (length out) refl)
        (ap (λ n. done (out ++ (0 ∷ d), n)) (omega arith)),
  )
  loop-message (p ∷ ps) rest out d (suc fuel) h room enough =
      let w = rendered texts p in
      let more = output texts ps in
      let both = length-append w more in
      let (d', (size, round)) =
        piece-Emitted texts nonzero p (message ps rest) out d h.0 (omega (arith, both)) in
      let (d'', e) =
        loop-message ps rest (out ++ w) d' fuel h.1 (omega (arith, both, size)) (omega arith) in
      (d'', round fuel ∙ e ∙ grouped out w more (0 ∷ d''))

  -- A message of pieces is formatted to the texts that its pieces stand for, with a terminator behind
  -- them, and their length is returned, if the buffer has room for both and the output has less than
  -- 1024 units, for which the array of the log has room: where the arguments are an
  -- array of terminated strings, each insert has its argument, and an insert of one digit without a
  -- specifier is followed by neither a digit nor an exclamation mark.
  pub format_message-output :
      (ps : List Piece) (rest buffer : List ℕ)
      → IsMessage texts ps rest
      → length (output texts ps) < length buffer
      → length (output texts ps) < 1024
      → (d : List ℕ) × (format_message (message ps rest) (array (map terminated texts)) buffer
          ≡ done (output texts ps ++ (0 ∷ d), length (output texts ps)))
  unfolding format_message
  format_message-output ps rest buffer h room short =
      let (d, e) =
        loop-message ps rest [] buffer (suc (length (message ps rest))) h room
          (omega (arith, length-message ps rest)) in
      let (m, f) = log_output-some (output texts ps) d short in
      (d, rw (format_message, e, f) (ap (λ n. done (output texts ps ++ (0 ∷ d), n)) (omega arith)))

-- Where the arguments come one after the other, the string that is taken for an insert beyond the
-- first is the one before that with its number, among those that are left: the number is that of the
-- loop of `get_arg`, counted from 0.
pub take_arg-before :
    (n : ℕ) (args : List (List ℕ)) (a : List ℕ)
    → get_elem? args n ≡ some a
    → take_arg (suc n) args ≡ some (a, successive (drop (suc n) args))
unfolding take_arg
take_arg-before n [] a e = ground arith
take_arg-before zero (x ∷ rest) a e = ground arith
take_arg-before (suc n) (x ∷ rest) a e = take_arg-before n rest a e
