-- ===== src/Lznt1/Runs.antt =====
-- libs/ntdll/lznt1.c: what a back reference does. How a run word is split, the overlapping copy,
-- and when it reads in front of the output buffer.
use mathlib.Core.List.{append_assoc}
use native.Mathlib.Decide.{dec_lt}
use nloader.Base.{
  ℕ, zero, suc, ◌+◌, ◌-◌, ◌%◌, ◌^◌, ◌≤◌, ◌<◌, ◌≡◌, refl, none, some, List, [], ◌∷◌, ◌++◌, arith,
  length, get_elem?, length-append, sym, ◌∙◌, get_elem?-append_right, get_elem?-in, get_elem?-out,
}
use nloader.Lznt1.{ok, fault, Cursor, copy_run, peek_back, expand_run, split_at}

-- At position `blockpos` of a chunk the run word has `back` bits of length below the bits of
-- displacement; the mask is that many ones, and the displacement, which has the other `16 - back`
-- bits, reaches back to the start of the chunk.
pub split_at_lem :
    (blockpos : ℕ)
    → 0 < blockpos
    → blockpos < 2 ^ 16
    → ((split_at blockpos).0 + 1 ≡ 2 ^ (split_at blockpos).1)
      × ((split_at blockpos).1 ≤ 12)
      × (blockpos ≤ 2 ^ (16 - (split_at blockpos).1))
unfolding split_at
split_at_lem blockpos h k = ground arith

peek_back-eq : (back : ℕ) (w : List ℕ) → peek_back (suc back) w ≡ get_elem? w back
unfolding peek_back
peek_back-eq back w = refl

peek_back_out : (back : ℕ) (w : List ℕ) → length w < back → peek_back back w ≡ none
unfolding peek_back
peek_back_out zero w h = absurd (omega arith)
peek_back_out (suc back) w h = get_elem?-out w back (omega arith)

-- `out` is `written` with `len` more bytes in front, each equal to the one `back` places before it.
pub record IsCopied (len back : ℕ) (written out : List ℕ) : Type 0 where
  pub fresh : List ℕ
  pub extends : out ≡ fresh ++ written
  pub length-fresh : length fresh ≡ len
  pub repeats : (i : ℕ) → i < len → get_elem? out i ≡ get_elem? out (i + back)

-- One byte more: it lies behind the `len` others, at the place `len` of the output.
IsCopied-suc :
    (len back b : ℕ) (w out : List ℕ)
    → peek_back (suc back) w ≡ some b
    → IsCopied len (suc back) (b ∷ w) out
    → IsCopied (suc len) (suc back) w out
IsCopied-suc len back b w out e c = record {
  fresh = c.fresh ++ b ∷ [];
  extends = c.extends ∙ sym (append_assoc c.fresh (b ∷ []) w);
  length-fresh = omega (arith, length-append {0} c.fresh (b ∷ []), c.length-fresh);
  repeats = λ i h. elim (dec_lt i len) [ yes p ↦ c.repeats i p | no p ↦ ends i (omega arith) ];
}
  where
    at : (i n : ℕ) → i ≡ len + n → get_elem? out i ≡ get_elem? (b ∷ w) n
    at i n p =
        rw (c.extends) (get_elem?-append_right c.fresh (b ∷ w) i n (omega (arith, c.length-fresh)))

    ends : (i : ℕ) → i ≡ len → get_elem? out i ≡ get_elem? out (i + suc back)
    ends i p =
        at i 0 (omega arith)
        ∙ sym e
        ∙ peek_back-eq back w
        ∙ sym (at (i + suc back) (suc back) (omega arith))

copy_run-suc :
    (len back b : ℕ) (w : List ℕ)
    → peek_back back w ≡ some b
    → copy_run (suc len) back w ≡ copy_run len back (b ∷ w)
unfolding copy_run
copy_run-suc len back b w e = ground arith

-- A copy within the output is done whole, overlapping or not.
copy_run-IsCopied :
    (len back : ℕ) (w : List ℕ)
    → back < length w
    → (out : List ℕ) × (copy_run len (suc back) w ≡ some out) × IsCopied len (suc back) w out
unfolding copy_run
copy_run-IsCopied zero back w h = (
  w,
  refl,
  record { fresh = []; extends = refl; length-fresh = refl; repeats = λ i p. absurd (omega arith) },
)
copy_run-IsCopied (suc len) back w h =
    let (b, e) = get_elem?-in w back h in
    let (out, r, c) = copy_run-IsCopied len back (b ∷ w) (omega arith) in
    let found = peek_back-eq back w ∙ e in
    (out, copy_run-suc len (suc back) b w found ∙ r, IsCopied-suc len back b w out found c)

copy_run-out :
    (len back : ℕ) (w : List ℕ) → peek_back back w ≡ none → copy_run (suc len) back w ≡ none
unfolding copy_run
copy_run-out len back w e = ground arith

-- `expand_run` is the whole effect of a back reference that passed the tests of the block: with
-- room for `len` bytes and a displacement inside the output it appends `len` bytes, each a copy of
-- the one `back` before it.
pub expand_run-IsCopied :
    (len back : ℕ) (s : Cursor)
    → len ≤ s.room
    → 0 < back
    → back ≤ length s.written
    → (out : List ℕ) × (expand_run len back s
        ≡ ok (record s {
          written = out;
          room = s.room - len;
          blockpos = (s.blockpos + len) % 2 ^ 16;
        }))
      × IsCopied len back s.written out
unfolding expand_run
expand_run-IsCopied len zero s h p q = absurd (omega arith)
expand_run-IsCopied len (suc back) s h p q =
    let (out, r, c) = copy_run-IsCopied len back s.written q in (out, ground (arith, r), c)

-- A displacement that leaves the output reads in front of the buffer: neither the decoder nor this
-- branch compares it with the number of bytes written.
pub expand_run-fault :
    (len back : ℕ) (s : Cursor)
    → 0 < len
    → len ≤ s.room
    → length s.written < back
    → expand_run len back s ≡ fault
unfolding expand_run
expand_run-fault zero back s p h q = absurd (omega arith)
expand_run-fault (suc len) back s p h q =
    ground (arith, copy_run-out len back s.written (peek_back_out back s.written q))
