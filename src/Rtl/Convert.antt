-- ===== src/Rtl/Convert.antt =====
-- libs/ntdll/rtl.c: the conversions between Unicode and ANSI strings.
use nloader.Base.{
  ℕ, zero, suc, ◌*◌, ◌/◌, ◌%◌, ◌^◌, ◌≤◌, ◌<◌, ◌≡◌, refl, ap, ◌∙◌, true, Option, none, some, List,
  [], ◌∷◌, ◌++◌, map, arith, length, length-append, take, length-take, length-map, All,
}
use nloader.Rtl.{
  CountedString, ◌>>=◌, widetoa, from_char, copy_terminated, destination,
  unicode_string_to_ansi_string, ansi_string_to_unicode_string,
}
use nloader.Rtl.Copy.{copy_terminated-some, copy_terminated-none}

pub take-append : (n : ℕ) (xs ys : List ℕ) → length xs ≡ n → take n (xs ++ ys) ≡ xs
take-append zero [] ys e = refl
take-append zero (x ∷ xs) ys e = absurd (omega arith)
take-append (suc n) [] ys e = absurd (omega arith)
take-append (suc n) (x ∷ xs) ys e = ap (λ l. x ∷ l) (take-append n xs ys (omega arith))

-- Bytes, which the conversion to units and back leaves alone.
abbrev pub Bytes : List ℕ → Type 0
Bytes s = All (λ c. c < 256) s

narrowed : (s : List ℕ) → Bytes s → map widetoa (map from_char s) ≡ s
unfolding widetoa from_char
narrowed [] h = refl
narrowed (c ∷ s) h =
    let same : widetoa (from_char c) ≡ c = ground (arith, h.0) in
    rw (narrowed s h.1) (ap (λ x. x ∷ s) same)

module _ (allocate : ℕ → Option (List ℕ)) where
  -- The two conversions into a buffer that is allocated.
  ansi_allocated :
      (dest src : CountedString) (fresh copied : List ℕ) (m : ℕ)
      → (src.maximum_size * 2) % 2 ^ 16 / 2 ≡ m
      → allocate m ≡ some fresh
      → copy_terminated from_char src.size src.buffer fresh ≡ some copied
      → ansi_string_to_unicode_string allocate dest src true
        ≡ some (record {
          size = (src.size * 2) % 2 ^ 16;
          maximum_size = (src.maximum_size * 2) % 2 ^ 16;
          buffer = copied;
        })
  unfolding ansi_string_to_unicode_string destination
  ansi_allocated dest src fresh copied m e there c =
      let whole = λ (b : List ℕ). some (record {
        size = (src.size * 2) % 2 ^ 16;
        maximum_size = (src.maximum_size * 2) % 2 ^ 16;
        buffer = b;
      }) in
      rw (e, there) (ap (λ t. t >>= whole) c)

  unicode_allocated :
      (dest src : CountedString) (fresh : List ℕ) (copied : Option (List ℕ)) (n m : ℕ)
      → src.size / 2 ≡ n
      → src.maximum_size / 2 ≡ m
      → allocate m ≡ some fresh
      → copy_terminated widetoa n src.buffer fresh ≡ copied
      → unicode_string_to_ansi_string allocate dest src true
        ≡ (copied >>= λ b. some (record { size = n; maximum_size = m; buffer = b }))
  unfolding unicode_string_to_ansi_string destination
  unicode_allocated dest src fresh copied n m e f there c =
      rw (f, there)
        (rw e (ap (λ t. t >>= λ b. some (record { size = n; maximum_size = m; buffer = b })) c))

  -- A Unicode string whose size is its maximum size, which leaves no room for a terminator, is
  -- terminated behind the end of the buffer that is allocated for its conversion, if the allocation
  -- succeeds with as many bytes as are asked for.
  pub unicode_string_to_ansi_string-full :
      (dest src : CountedString) (fresh : List ℕ)
      → src.size ≡ src.maximum_size
      → allocate (src.maximum_size / 2) ≡ some fresh
      → length fresh ≡ src.maximum_size / 2
      → unicode_string_to_ansi_string allocate dest src true ≡ none
  unicode_string_to_ansi_string-full dest src fresh e there size =
      unicode_allocated dest src fresh none (src.size / 2) (src.maximum_size / 2) refl refl there
        (copy_terminated-none widetoa (src.size / 2) src.buffer fresh (omega (arith, size, e)))

  -- An ANSI string of fewer bytes than its maximum size, which is less than 32768, comes back from
  -- the conversion to Unicode and that of the result, each into a new buffer, if both allocations
  -- succeed with the room that is asked for: with its size and its bytes, terminated.
  pub ansi_string-round_trip :
      (dest dest' src : CountedString) (fresh : List ℕ)
      → src.size ≤ length src.buffer
      → src.size < src.maximum_size
      → src.maximum_size < 32768
      → Bytes (take src.size src.buffer)
      → allocate src.maximum_size ≡ some fresh
      → length fresh ≡ src.maximum_size
      → (wide : CountedString) × (back : CountedString) × (rest : List ℕ)
        × (ansi_string_to_unicode_string allocate dest src true ≡ some wide)
        × (unicode_string_to_ansi_string allocate dest' wide true ≡ some back)
        × (back.size ≡ src.size)
        × (back.buffer ≡ take src.size src.buffer ++ (0 ∷ rest))
  ansi_string-round_trip dest dest' src fresh whole room small narrow there size =
      let n = src.size in
      let m = src.maximum_size in
      let chars = map from_char (take n src.buffer) in
      let length_chars : length chars ≡ n =
        omega (arith, length-map (take n src.buffer) from_char, length-take n src.buffer, whole) in
      let (rest, e) = copy_terminated-some from_char n src.buffer fresh whole (omega arith) in
      let wide : CountedString = record {
        size = (n * 2) % 2 ^ 16;
        maximum_size = (m * 2) % 2 ^ 16;
        buffer = chars ++ (0 ∷ rest);
      } in
      let (rest', e') =
        copy_terminated-some widetoa n (chars ++ (0 ∷ rest)) fresh
          (omega (arith, length-append chars (0 ∷ rest), length_chars)) (omega arith) in
      let narrow_again = ap (map widetoa) (take-append n chars (0 ∷ rest) length_chars) in
      let same = narrow_again ∙ narrowed (take n src.buffer) narrow in
      (
        wide,
        record {
          size = n;
          maximum_size = m;
          buffer = map widetoa (take n (chars ++ (0 ∷ rest))) ++ (0 ∷ rest');
        },
        rest',
        ansi_allocated dest src fresh (chars ++ (0 ∷ rest)) m (omega arith) there e,
        unicode_allocated dest' wide fresh
            (some (map widetoa (take n (chars ++ (0 ∷ rest))) ++ (0 ∷ rest'))) n m (omega arith)
            (omega arith) there e',
        refl,
        ap (λ l. l ++ (0 ∷ rest')) same,
      )
