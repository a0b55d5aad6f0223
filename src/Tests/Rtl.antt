-- ===== src/Tests/Rtl.antt =====
-- libs/ntdll/rtl.c on short strings.
use nloader.Base.{◌≡◌, refl, true, Option, some, List, [], ◌∷◌, ◌++◌, ℕ, arith, replicate}
use nloader.Rtl.{
  CountedString, ansi_string_to_unicode_string, unicode_string_to_ansi_string,
  seconds_since_1970_to_time, fill_memory_ulong, fill_words,
}
use nloader.Wide.{store}
use nloader.Rtl.Convert.{ansi_string-round_trip}
use nloader.Rtl.Format.{done, format_message, array}
use nloader.Rtl.Pieces.{Piece, plain, control, inserted, line_feed}
use nloader.Rtl.Messages.{message, format_message-output}

abbrev fresh : ℕ → Option (List ℕ)
fresh n = some (replicate n 7)

abbrev ab : CountedString
ab = record { size = 2; maximum_size = 3; buffer = b'a' ∷ 200 ∷ 0 ∷ [] }

abbrev full : CountedString
full = record { size = 4; maximum_size = 4; buffer = b'a' ∷ b'b' ∷ [] }

ansi_string-round_trip_example :
    (wide : CountedString) × (back : CountedString) × (rest : List ℕ)
    × (ansi_string_to_unicode_string fresh full ab true ≡ some wide)
    × (unicode_string_to_ansi_string fresh full wide true ≡ some back)
    × (back.size ≡ 2)
    × (back.buffer ≡ (b'a' ∷ 200 ∷ []) ++ (0 ∷ rest))
ansi_string-round_trip_example =
    ansi_string-round_trip fresh full full ab (7 ∷ 7 ∷ 7 ∷ []) (omega arith) (omega arith)
      (omega arith) (omega arith, (omega arith, tt)) refl refl

-- "a%n%1!s!"
abbrev pieces : List Piece
pieces = plain b'a' ∷ control b'n' 10 ∷ inserted 1 (b's' ∷ []) ∷ []

format_message-output_example :
    (d : List ℕ) × (format_message
        (message pieces [])
        (array ((b'x' ∷ b'y' ∷ 0 ∷ []) ∷ []))
        (replicate 8 1)
      ≡ done ((b'a' ∷ 10 ∷ b'x' ∷ b'y' ∷ []) ++ (0 ∷ d), 4))
format_message-output_example =
    format_message-output ((b'x' ∷ b'y' ∷ []) ∷ []) ((omega arith, (omega arith, tt)), tt) pieces []
      (replicate 8 1)
      (
        (omega arith, omega arith),
        (
          line_feed,
          ((omega arith, omega arith, omega arith, ((omega arith, omega arith), tt)), tt),
        ),
      )
      (omega arith) (omega arith)

-- The epoch.
epoch : seconds_since_1970_to_time 0 ≡ (3577643008, 27111902)
unfolding seconds_since_1970_to_time
epoch = refl

two_words : fill_memory_ulong (1 ∷ 2 ∷ 3 ∷ []) 11 9 ≡ some (9 ∷ 9 ∷ 3 ∷ [])
unfolding fill_memory_ulong fill_words store
two_words = refl
