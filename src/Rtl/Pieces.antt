-- ===== src/Rtl/Pieces.antt =====
-- libs/ntdll/rtl.c: the pieces of a message, and the round of `RtlFormatMessage` for each.
use nloader.Base.{
  ℕ, zero, suc, ◌+◌, ◌-◌, ◌*◌, ◌%◌, ◌≤◌, ◌<◌, ◌≡◌, ◌≢◌, refl, ap, ◌∙◌, true, false, none, some,
  List, [], ◌∷◌, ◌++◌, map, arith, length, drop, length-drop, All, leb, ◌==◌, if◌then◌else◌,
  get_elem?,
}
use nloader.Wide.Compare.{NonZero}
use nloader.Rtl.Format.{
  done, ◌>>=◌, array, get_arg, Formatting, is_digit, insert_number, skip_until_mark, skip_specifier,
  insert, control_unit, escape, next_unit, format_unit, format_loop,
}
use nloader.Rtl.Emit.{state, emit-state, emit_string-state}

-- A unit, a letter that stands for one, or an insert: of one digit with a specifier, of two digits
-- with a specifier, or of one digit alone.
pub data Piece : Type 0 where
  plain : ℕ → Piece
  control : ℕ → ℕ → Piece
  inserted : ℕ → List ℕ → Piece
  inserted_long : ℕ → ℕ → List ℕ → Piece
  inserted_short : ℕ → Piece

abbrev pub specifier : List ℕ → List ℕ → List ℕ
specifier spec m = b'!' ∷ (spec ++ (b'!' ∷ m))

-- The message before the rest `m`.
abbrev pub printed : Piece → List ℕ → List ℕ
printed (plain c) m = c ∷ m
printed (control c u) m = b'%' ∷ c ∷ m
printed (inserted n spec) m = b'%' ∷ (48 + n) ∷ specifier spec m
printed (inserted_long tens n spec) m = b'%' ∷ (48 + tens) ∷ (48 + n) ∷ specifier spec m
printed (inserted_short n) m = b'%' ∷ (48 + n) ∷ m

abbrev pub text_at : List (List ℕ) → ℕ → List ℕ
text_at [] i = []
text_at (t ∷ rest) zero = t
text_at (t ∷ rest) (suc i) = text_at rest i

-- The output: the inserts are numbered from 1.
abbrev pub rendered : List (List ℕ) → Piece → List ℕ
rendered texts (plain c) = c ∷ []
rendered texts (control c u) = u ∷ []
rendered texts (inserted n spec) = text_at texts (n - 1)
rendered texts (inserted_long tens n spec) = text_at texts (tens * 10 + n - 1)
rendered texts (inserted_short n) = text_at texts (n - 1)

abbrev pub IsUnit : ℕ → Type 0
IsUnit c = (0 < c) × (c ≢ b'%')

abbrev pub IsSpecifier : List ℕ → Type 0
IsSpecifier spec = All (λ c. (0 < c) × (c ≢ b'!')) spec

-- What ends the number of an insert that has no specifier.
abbrev pub Ends : List ℕ → Type 0
Ends [] = ⊥
Ends (c ∷ m) = (c ≢ b'!') × (is_digit c ≡ false)

-- The letters that stand for a unit, and the units.
pub data IsControl : ℕ → ℕ → Type 0 where
  carriage_return : IsControl b'r' 13
  line_feed : IsControl b'n' 10
  tab : IsControl b't' 9
  blank : IsControl b'b' 32
  percent : IsControl b'%' 37

control_unit-IsControl : (c u : ℕ) → IsControl c u → control_unit c ≡ some u
unfolding control_unit
control_unit-IsControl _ _ carriage_return = refl
control_unit-IsControl _ _ line_feed = refl
control_unit-IsControl _ _ tab = refl
control_unit-IsControl _ _ blank = refl
control_unit-IsControl _ _ percent = refl

-- What makes a piece one of a message for these texts, before `m`.
abbrev pub IsPiece : List (List ℕ) → Piece → List ℕ → Type 0
IsPiece texts (plain c) m = IsUnit c
IsPiece texts (control c u) m = IsControl c u
IsPiece texts (inserted n spec) m = (1 ≤ n) × (n ≤ 9) × (n ≤ length texts) × IsSpecifier spec
IsPiece texts (inserted_long tens n spec) m =
    (1 ≤ tens) × (tens ≤ 9) × (n ≤ 9) × (tens * 10 + n ≤ length texts) × IsSpecifier spec
IsPiece texts (inserted_short n) m = (1 ≤ n) × (n ≤ 9) × (n ≤ length texts) × Ends m

abbrev pub terminated : List ℕ → List ℕ
terminated t = t ++ 0 ∷ []

get_elem?-text :
    (texts : List (List ℕ)) (i : ℕ)
    → i < length texts
    → get_elem? (map terminated texts) i ≡ some (terminated (text_at texts i))
get_elem?-text [] i h = absurd (omega arith)
get_elem?-text (t ∷ rest) zero h = refl
get_elem?-text (t ∷ rest) (suc i) h = get_elem?-text rest i (omega arith)

get_arg-text :
    (texts : List (List ℕ)) (i : ℕ)
    → i < length texts
    → get_arg i (array (map terminated texts))
      ≡ some (terminated (text_at texts i), array (map terminated texts))
unfolding get_arg
get_arg-text texts i h = rw (get_elem?-text texts i h, get_arg) refl

text_at-NonZero : (texts : List (List ℕ)) (i : ℕ) → All NonZero texts → NonZero (text_at texts i)
text_at-NonZero [] i h = tt
text_at-NonZero (t ∷ rest) zero h = h.0
text_at-NonZero (t ∷ rest) (suc i) h = text_at-NonZero rest i h.1

skip_until_mark-specifier :
    (spec m : List ℕ) → IsSpecifier spec → skip_until_mark (spec ++ (b'!' ∷ m)) ≡ done m
unfolding skip_until_mark
skip_until_mark-specifier [] m h = refl
skip_until_mark-specifier (c ∷ spec) m h =
    let (pos, ne) : (0 < c) × (c ≢ b'!') = h.0 in
    let later = skip_until_mark-specifier spec m h.1 in ground (arith, later)

control_unit-not_zero : (c u : ℕ) → control_unit c ≡ some u → (c == b'0') ≡ false
unfolding control_unit
control_unit-not_zero c u e = ground arith

control_unit-digit : (n : ℕ) → n ≤ 9 → control_unit (48 + n) ≡ none
unfolding control_unit
control_unit-digit n h = ground arith

second_digit :
    (tens n : ℕ) (m : List ℕ) → n ≤ 9 → insert_number tens ((48 + n) ∷ m) ≡ done (tens * 10 + n, m)
unfolding insert_number is_digit
second_digit tens n m h =
    let low : leb b'0' (48 + n) ≡ true = ground arith in
    let high : leb (48 + n) b'9' ≡ true = ground arith in
    let value : (48 + n) % 256 - 48 ≡ n = omega arith in rw (low, high, value) refl

one_digit : (n c : ℕ) (m : List ℕ) → is_digit c ≡ false → insert_number n (c ∷ m) ≡ done (n, c ∷ m)
unfolding insert_number
one_digit n c m h = ap (λ b. if b then done (n * 10 + (c % 256 - 48), m) else done (n, c ∷ m)) h

no_specifier : (c : ℕ) (m : List ℕ) → c ≢ b'!' → skip_specifier (c ∷ m) ≡ done (c ∷ m)
unfolding skip_specifier
no_specifier c m h = ground arith

module _ (texts : List (List ℕ)) (nonzero : All NonZero texts) where
  -- An insert whose number is read to `n`, before `after`, which skips to `m`.
  insert-state :
      (first n : ℕ) (msg after m out d : List ℕ)
      → insert_number first msg ≡ done (n, after)
      → skip_specifier after ≡ done m
      → 1 ≤ n
      → n ≤ length texts
      → length (text_at texts (n - 1)) < length d
      → insert first (state (map terminated texts) msg out d)
        ≡ done (
            state
              (map terminated texts)
              m
              (out ++ text_at texts (n - 1))
              (0 ∷ drop (length (text_at texts (n - 1)) + 1) d))
  unfolding insert
  insert-state first n msg after m out d e f lo hi room = rw e (
      rw (get_arg-text texts (n - 1) (omega arith)) (
        rw
          (emit_string-state (map terminated texts) msg out d (text_at texts (n - 1))
            (text_at-NonZero texts (n - 1) nonzero) room)
          (rw f refl)))

  -- What a unit of a piece that is read makes of the state.
  abbrev pub Emitted : Piece → List ℕ → List ℕ → List ℕ → List ℕ → List ℕ → Type 0
  Emitted p rest m out d d' =
      (length d ≡ length (rendered texts p) + length d')
      × ((fuel : ℕ)
          → format_loop (suc fuel) (state (map terminated texts) rest out d)
            ≡ format_loop fuel (state (map terminated texts) m (out ++ rendered texts p) d'))

  escape_round :
      (c : ℕ) (m out d : List ℕ) (fuel : ℕ) (s : Formatting)
      → escape c (state (map terminated texts) m out d) ≡ done s
      → format_loop (suc fuel) (state (map terminated texts) (b'%' ∷ c ∷ m) out d)
        ≡ format_loop fuel s
  unfolding format_loop next_unit format_unit
  escape_round c m out d fuel s e = ap (λ o. o >>= format_loop fuel) e

  escape-control :
      (c u : ℕ) (m out d : List ℕ) (y : ℕ)
      → control_unit c ≡ some u
      → escape c (state (map terminated texts) m out (y ∷ d))
        ≡ done (state (map terminated texts) m (out ++ (u ∷ [])) d)
  unfolding escape
  escape-control c u m out d y e =
      let not_zero : (c == b'0') ≡ false = control_unit-not_zero c u e in
      rw not_zero (rw (e, escape) (emit-state (map terminated texts) m out d y u))

  escape-insert : (n : ℕ) (s : Formatting) → 1 ≤ n → n ≤ 9 → escape (48 + n) s ≡ insert n s
  unfolding escape
  escape-insert n s lo hi =
      let not_zero : (48 + n == b'0') ≡ false = ground arith in
      let low : leb b'1' (48 + n) ≡ true = ground arith in
      let high : leb (48 + n) b'9' ≡ true = ground arith in
      let same : 48 + n - 48 ≡ n = omega arith in
      rw not_zero (rw (control_unit-digit n hi, escape) (rw (low, high, same) refl))

  inserted-state :
      (first n : ℕ) (msg after m out d : List ℕ)
      → 1 ≤ first
      → first ≤ 9
      → insert_number first msg ≡ done (n, after)
      → skip_specifier after ≡ done m
      → 1 ≤ n
      → n ≤ length texts
      → length (text_at texts (n - 1)) < length d
      → (d' : List ℕ) × (length d ≡ length (text_at texts (n - 1)) + length d')
        × ((fuel : ℕ)
            → format_loop
                (suc fuel)
                (state (map terminated texts) (b'%' ∷ (48 + first) ∷ msg) out d)
              ≡ format_loop fuel (state (map terminated texts) m (out ++ text_at texts (n - 1)) d'))
  inserted-state first n msg after m out d lo hi e f low high room =
      let t = text_at texts (n - 1) in
      (
        0 ∷ drop (length t + 1) d,
        omega (arith, length-drop (length t + 1) d, room),
        λ fuel. escape_round (48 + first) msg out d fuel _ (
            escape-insert first (state (map terminated texts) msg out d) lo hi
            ∙ insert-state first n msg after m out d e f low high room),
      )

  pub piece-Emitted :
      (p : Piece) (m out d : List ℕ)
      → IsPiece texts p m
      → length (rendered texts p) < length d
      → (d' : List ℕ) × Emitted p (printed p m) m out d d'
  unfolding format_loop next_unit format_unit
  piece-Emitted (plain c) m out [] h room = absurd (omega arith)
  piece-Emitted (plain c) m out (y ∷ d) h room =
      let pos : (c == 0) ≡ false = ground (arith, h.0) in
      let ne : (c == b'%') ≡ false = ground (arith, h.1) in
      (
        d,
        (
          omega arith,
          λ fuel. rw (pos, ne) (rw (emit-state (map terminated texts) m out d y c) refl),
        ),
      )
  piece-Emitted (control c u) m out [] h room = absurd (omega arith)
  piece-Emitted (control c u) m out (y ∷ d) h room = (
    d,
    (
      omega arith,
      λ fuel.
          escape_round c m out (y ∷ d) fuel _
            (escape-control c u m out d y (control_unit-IsControl c u h)),
    ),
  )
  piece-Emitted (inserted n spec) m out d (lo, hi, there, sp) room =
      let (d', size, round) =
        inserted-state n n (specifier spec m) (specifier spec m) m out d lo hi refl
          (skip_until_mark-specifier spec m sp) lo there room in
      (d', (size, round))
  piece-Emitted (inserted_long tens n spec) m out d (lo, hi, small, there, sp) room =
      let (d', size, round) =
        inserted-state tens (tens * 10 + n) ((48 + n) ∷ specifier spec m) (specifier spec m) m out d
          lo hi (second_digit tens n (specifier spec m) small) (skip_until_mark-specifier spec m sp)
          (omega arith) there room in
      (d', (size, round))
  piece-Emitted (inserted_short n) [] out d (lo, hi, there, ends) room = absurd ends
  piece-Emitted (inserted_short n) (c ∷ m) out d (lo, hi, there, ends) room =
      let (d', size, round) =
        inserted-state n n (c ∷ m) (c ∷ m) (c ∷ m) out d lo hi (one_digit n c m ends.1)
          (no_specifier c m ends.0) lo there room in
      (d', (size, round))
