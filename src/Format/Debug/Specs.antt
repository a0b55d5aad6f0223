-- ===== src/Format/Debug/Specs.antt =====
-- libs/ntdll/format.c: the array `spec` of `__dbg_print`.
use nloader.Base.{
  ℕ, ◌+◌, ◌≤◌, ◌<◌, ◌≡◌, inl, inr, Bool, true, false, ◌&&◌, List, [], ◌∷◌, ◌++◌, arith, length,
  length-append, length-drop, ◌==◌, if◌then◌else◌, drop, Bool-cases, tests,
}
use nloader.Format.Debug.{
  has_room, copy_while, is_flag, is_digit, star_or_digits, precision, Modified, first, modified,
  after_l, after_h, after_i, modify, read_directive,
}

-- What is copied leaves room, and what is left is part of the format.
abbrev Within : ℕ → List ℕ → List ℕ → List ℕ → Type 0
Within limit fmt text rest = (length text ≤ limit) × (length rest ≤ length fmt)

room_lt : (text : List ℕ) → has_room text ≡ true → length text < 56
unfolding has_room
room_lt text h = omega (tests, h)

pushed : (text : List ℕ) (c : ℕ) → length text < 56 → length (text ++ (c ∷ [])) ≤ 56
pushed text c h = omega (arith, length-append text (c ∷ []))

copy_while-Within :
    (kind : ℕ → Bool) (fmt text : List ℕ)
    → length text ≤ 56
    → Within 56 fmt (copy_while kind text fmt).text (copy_while kind text fmt).rest
unfolding copy_while
copy_while-Within kind [] text h = (h, omega arith)
copy_while-Within kind (c ∷ fmt) text h = elim (Bool-cases (kind c && has_room text)) [
  | inl e ↦
      let lt = room_lt text (ground (arith, e)) in
      let later = copy_while-Within kind fmt (text ++ (c ∷ [])) (pushed text c lt) in
      rw e (later.0, omega (arith, later.1))
  | inr e ↦ rw e (h, omega arith)
]

star_or_digits-Within :
    (fmt text : List ℕ)
    → length text ≤ 56
    → Within 56 fmt (star_or_digits text fmt).text (star_or_digits text fmt).rest
unfolding star_or_digits
star_or_digits-Within [] text h = (h, omega arith)
star_or_digits-Within (c ∷ fmt) text h = elim (Bool-cases (c == b'*' && has_room text)) [
  | inl e ↦ rw e (pushed text c (room_lt text (ground (arith, e))), omega arith)
  | inr e ↦ rw e (copy_while-Within is_digit (c ∷ fmt) text h)
]

precision-Within :
    (fmt text : List ℕ)
    → length text ≤ 56
    → Within 56 fmt (precision text fmt).text (precision text fmt).rest
unfolding precision
precision-Within [] text h = (h, omega arith)
precision-Within (c ∷ fmt) text h = elim (Bool-cases (c == b'.' && has_room text)) [
  | inl e ↦
      let lt = room_lt text (ground (arith, e)) in
      let later = star_or_digits-Within fmt (text ++ (c ∷ [])) (pushed text c lt) in
      rw e (later.0, omega (arith, later.1))
  | inr e ↦ rw e (h, omega arith)
]

abbrev IsFine : List ℕ → Modified → Type 0
IsFine fmt m = Within 58 fmt m.text m.rest

IsFine-if :
    (fmt : List ℕ) (b : Bool) (x y : Modified)
    → IsFine fmt x
    → IsFine fmt y
    → IsFine fmt (if b then x else y)
IsFine-if fmt true x y h k = h
IsFine-if fmt false x y h k = k

modified-IsFine :
    (fmt text more : List ℕ) (n : ℕ) (is_wide is_long64 : Bool)
    → length text ≤ 56
    → length more ≤ 2
    → IsFine fmt (modified (text ++ more) (drop n fmt) is_wide is_long64)
unfolding modified
modified-IsFine fmt text more n is_wide is_long64 h k =
    (omega (arith, length-append text more), omega (arith, length-drop n fmt))

plain-IsFine :
    (fmt text : List ℕ) (n : ℕ) (is_wide is_long64 : Bool)
    → length text ≤ 56
    → IsFine fmt (modified text (drop n fmt) is_wide is_long64)
unfolding modified
plain-IsFine fmt text n is_wide is_long64 h = (omega arith, omega (arith, length-drop n fmt))

longer : (c : ℕ) (fmt : List ℕ) (m : Modified) → IsFine fmt m → IsFine (c ∷ fmt) m
longer c fmt m h = (h.0, omega (arith, h.1))

modify-Within :
    (fmt text : List ℕ)
    → length text ≤ 56
    → Within 58 fmt (modify text fmt).text (modify text fmt).rest
unfolding modify after_l after_h after_i
modify-Within [] text h = plain-IsFine [] text 0 false false h
modify-Within (c ∷ fmt) text h =
    let of_l =
      IsFine-if fmt (first fmt == b'l') _ _
        (modified-IsFine fmt text (b'l' ∷ b'l' ∷ []) 1 false true h (omega arith))
        (plain-IsFine fmt text 0 true false h) in
    let of_h =
      IsFine-if fmt (first fmt == b'h') _ _
        (modified-IsFine fmt text (b'h' ∷ b'h' ∷ []) 1 false false h (omega arith))
        (modified-IsFine fmt text (b'h' ∷ []) 0 false false h (omega arith)) in
    let of_i =
      IsFine-if fmt (first fmt == b'6' && first (drop 1 fmt) == b'4') _ _
        (modified-IsFine fmt text (b'l' ∷ b'l' ∷ []) 2 false true h (omega arith))
        (IsFine-if fmt (first fmt == b'3' && first (drop 1 fmt) == b'2') _ _
          (plain-IsFine fmt text 2 false false h)
          (modified-IsFine fmt text (b'l' ∷ b'l' ∷ []) 0 false true h (omega arith))) in
    IsFine-if (c ∷ fmt) (c == b'l') _ _ (longer c fmt (after_l text fmt) of_l) (
      IsFine-if (c ∷ fmt) (c == b'h') _ _ (longer c fmt (after_h text fmt) of_h) (
        IsFine-if (c ∷ fmt) (c == b'I') _ _ (longer c fmt (after_i text fmt) of_i) (
          IsFine-if (c ∷ fmt) (c == b'w') _ _
            (longer c fmt (modified text fmt true false) (plain-IsFine fmt text 0 true false h))
            (plain-IsFine (c ∷ fmt) text 0 false false h))))

-- The bytes of a directive in front of its conversion are at most 58, so that with the conversion and
-- the terminator they fit into the 64 bytes of `spec`, whatever the format is.
pub read_directive-Within :
    (fmt : List ℕ)
    → (length (read_directive fmt).text + 2 ≤ 64) × (length (read_directive fmt).rest ≤ length fmt)
unfolding read_directive
read_directive-Within fmt =
    let flags = copy_while is_flag (b'%' ∷ []) fmt in
    let width = star_or_digits flags.text flags.rest in
    let a = copy_while-Within is_flag fmt (b'%' ∷ []) (omega arith) in
    let b = star_or_digits-Within flags.rest flags.text a.0 in
    let c = precision-Within width.rest width.text b.0 in
    let precise = precision width.text width.rest in
    let d = modify-Within precise.rest precise.text c.0 in
    (omega (arith, d.0), omega (arith, a.1, b.1, c.1, d.1))
