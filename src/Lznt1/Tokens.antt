-- ===== src/Lznt1/Tokens.antt =====
-- libs/ntdll/lznt1.c: the writes of one token and of the tokens of a group.
use nloader.Base.{
  ℕ, zero, suc, ◌+◌, ◌-◌, ◌/◌, ◌%◌, ◌≤◌, ◌≡◌, some, List, [], ◌∷◌, arith, length, ◌==◌, Bool-cases,
  Option-cases, inl, inr,
}
use nloader.Lznt1.{
  Run, ok, fail, fault, stuck, Cursor, read_word, copy_run, copy_raw, peek_back, expand_run,
  back_reference, literal, token, tokens, ◌>>=◌, run_length, run_back,
}

-- The run ended: with a cursor whose output and room add up to `size`, whose block counter is at
-- most `b` and whose input is at most `n` bytes long; with an error, and at most `size` bytes
-- written; or with a read in front of the buffer.
abbrev pub Ends : ℕ → ℕ → ℕ → Run Cursor → Type 0
Ends size b n (ok s) = (length s.written + s.room ≡ size) × (s.blocksz ≤ b) × (length s.input ≤ n)
Ends size b n (fail e w) = length w ≤ size
Ends size b n fault = Unit
Ends size b n stuck = ⊥

pub Ends->>= :
    (size b n b' n' : ℕ) (m : Run Cursor) (f : Cursor → Run Cursor)
    → Ends size b n m
    → ((s : Cursor)
        → length s.written + s.room ≡ size
        → s.blocksz ≤ b
        → length s.input ≤ n
        → Ends size b' n' (f s))
    → Ends size b' n' (m >>= f)
Ends->>= size b n b' n' (ok s) f h k = k s h.0 h.1 h.2
Ends->>= size b n b' n' (fail e w) f h k = h
Ends->>= size b n b' n' fault f h k = tt
Ends->>= size b n b' n' stuck f h k = absurd h

pub Ends-le :
    (size b n b' n' : ℕ) (r : Run Cursor) → b ≤ b' → n ≤ n' → Ends size b n r → Ends size b' n' r
Ends-le size b n b' n' (ok s) p q h = omega arith
Ends-le size b n b' n' (fail e w) p q h = h
Ends-le size b n b' n' fault p q h = h
Ends-le size b n b' n' stuck p q h = h

pub length-read_word :
    (xs : List ℕ) (v : ℕ) (rest : List ℕ)
    → read_word xs ≡ some (v, rest)
    → length xs ≡ length rest + 2
unfolding read_word
length-read_word [] v rest h = absurd (ground arith)
length-read_word (a ∷ []) v rest h = absurd (ground arith)
length-read_word (a ∷ b ∷ xs) v rest h = ground arith

length-copy_run :
    (len back : ℕ) (w out : List ℕ) → copy_run len back w ≡ some out → length out ≡ length w + len
unfolding copy_run
length-copy_run zero back w out h = ground arith
length-copy_run (suc len) back w out h = elim (Option-cases (peek_back back w)) [
  | inl e ↦ ground arith
  | inr (b, e) ↦ ground (arith, length-copy_run len back (b ∷ w) out)
]

pub length-copy_raw :
    (n : ℕ) (xs w rest out : List ℕ)
    → copy_raw n xs w ≡ some (rest, out)
    → (length out ≡ length w + n) × (length xs ≡ length rest + n)
unfolding copy_raw
length-copy_raw zero xs w rest out h = ground arith
length-copy_raw (suc n) [] w rest out h = absurd (ground arith)
length-copy_raw (suc n) (x ∷ xs) w rest out h =
    ground (arith, length-copy_raw n xs (x ∷ w) rest out h)

literal-Ends :
    (size : ℕ) (s : Cursor)
    → length s.written + s.room ≡ size
    → Ends size s.blocksz (length s.input) (literal s)
unfolding literal
literal-Ends size s h = ground arith

expand_run-Ends :
    (size len back : ℕ) (s : Cursor)
    → length s.written + s.room ≡ size
    → Ends size s.blocksz (length s.input) (expand_run len back s)
unfolding expand_run
expand_run-Ends size len back s h = elim (Option-cases (copy_run len back s.written)) [
  | inl e ↦ ground arith
  | inr (out, e) ↦ ground (arith, length-copy_run len back s.written out e)
]

back_reference-Ends :
    (size : ℕ) (s : Cursor)
    → length s.written + s.room ≡ size
    → Ends size s.blocksz (length s.input) (back_reference s)
unfolding back_reference
back_reference-Ends size s h = elim (Option-cases (read_word s.input)) [
  | inl e ↦ ground arith
  | inr ((v, rest), e) ↦ ground (
    arith,
    length-read_word s.input v rest e,
    expand_run-Ends size (run_length s.blockpos v) (run_back s.blockpos v)
        (record s { input = rest; blocksz = s.blocksz - 2 }) h,
    Ends-le size (s.blocksz - 2) (length rest) s.blocksz (length s.input) (
        expand_run (run_length s.blockpos v) (run_back s.blockpos v)
          (record s { input = rest; blocksz = s.blocksz - 2 })),
  )
]

token-Ends :
    (size mask : ℕ) (s : Cursor)
    → length s.written + s.room ≡ size
    → Ends size s.blocksz (length s.input) (token mask s)
unfolding token
token-Ends size mask s h = elim (Bool-cases (mask % 2 == 1)) [
  | inl e ↦ rw e (back_reference-Ends size s h)
  | inr e ↦ rw e (literal-Ends size s h)
]

pub tokens-Ends :
    (size left mask : ℕ) (s : Cursor)
    → length s.written + s.room ≡ size
    → Ends size s.blocksz (length s.input) (tokens left mask s)
unfolding tokens
tokens-Ends size zero mask s h = ground arith
tokens-Ends size (suc left) mask s h = elim (Bool-cases (s.blocksz == 0)) [
  | inl e ↦ rw e (ground arith)
  | inr e ↦ rw e (
      Ends->>= size s.blocksz (length s.input) s.blocksz (length s.input) (token mask s)
        (λ s'. tokens left (mask / 2) s') (token-Ends size mask s h)
        (λ t p q r.
          Ends-le size t.blocksz (length t.input) s.blocksz (length s.input) _ q r
            (tokens-Ends size left (mask / 2) t p)))
]

-- A group uses up a byte of a block that is not finished.
