-- ===== src/Rtl/Equal.antt =====
-- libs/ntdll/rtl.c: `RtlEqualUnicodeString`, which compares the two strings as bytes.
-- `same` is whether `strcmp`, or `strcasecmp` where case is ignored, returns zero.
use mathlib.Core.List.{append-nil}
use mathlib.Core.Option.{some-injective}
use nloader.Base.{
  ℕ, suc, ◌+◌, ◌*◌, ◌/◌, ◌≤◌, ◌<◌, ◌≡◌, ◌≢◌, ◌↔◌, refl, ap, sym, ◌∙◌, Bool, true, false, Option,
  some, List, [], ◌∷◌, ◌++◌, All, map, arith, length, length-append, take, drop, ltb, ◌==◌,
  if◌then◌else◌, Bool-cases, inl, inr, ==_iff, drop-append,
}
use nloader.Rtl.{CountedString, ◌>>=◌, unicode_to_oem_n, widetoa}
use nloader.Rtl.Copy.{copy_from-overlay}
use nloader.Rtl.Resources.{fresh_message, conversion_size}

-- `US2STR`
unfoldable pub converted : CountedString → Option (List ℕ)
unfolding unicode_to_oem_n
converted s =
    unicode_to_oem_n fresh_message conversion_size (some (s.buffer)) s.size >>= λ r. some (r.1.0)

module _ (same : Bool → List ℕ → List ℕ → Bool) where
  unfoldable pub equal_unicode_string : CountedString → CountedString → Bool → Option Bool
  unfolding converted
  equal_unicode_string s t ignoring_case = do
    a ← converted s
    b ← converted t
    some (same ignoring_case a b)

-- The text in an array, up to its terminator.
abbrev pub text_of : List ℕ → List ℕ
text_of [] = []
text_of (c ∷ rest) = if c == 0 then [] else c ∷ text_of rest

abbrev pub HasBytes : List ℕ → Type 0
HasBytes s = All (λ c. 0 < widetoa c) s

-- A string with a unit behind its last one.
abbrev pub counted : List ℕ → ℕ → List ℕ → CountedString
counted s x rest = record {
  size = 2 * length s;
  maximum_size = 2 * length s;
  buffer = s ++ (x ∷ rest);
}

pub take-suc-length :
    (s : List ℕ) (x : ℕ) (rest : List ℕ) → take (suc (length s)) (s ++ (x ∷ rest)) ≡ s ++ (x ∷ [])
take-suc-length [] x rest = refl
take-suc-length (c ∷ s) x rest = ap (λ l. c ∷ l) (take-suc-length s x rest)

pub map-snoc :
    (s : List ℕ) (x : ℕ) → map widetoa (s ++ (x ∷ [])) ≡ map widetoa s ++ (widetoa x ∷ [])
map-snoc [] x = refl
map-snoc (c ∷ s) x = ap (λ l. widetoa c ∷ l) (map-snoc s x)

text_of-append :
    (s : List ℕ) (x : ℕ) (rest : List ℕ)
    → HasBytes s
    → text_of ((map widetoa s ++ (x ∷ [])) ++ rest) ≡ map widetoa s ++ text_of (x ∷ rest)
text_of-append [] x rest h = refl
text_of-append (c ∷ s) x rest h =
    let more : (widetoa c == 0) ≡ false = ground (arith, h.0) in
    rw more (ap (λ l. widetoa c ∷ l) (text_of-append s x rest h.1))

-- What the conversion leaves in the array, whose text also has the unit behind the string.
text_of-converted :
    (s : List ℕ) (x : ℕ) (rest : List ℕ)
    → 0 < length s
    → length s < 1024
    → HasBytes s
    → (a : List ℕ) × ((converted (counted s x rest) ≡ some a)
        × (text_of a ≡ map widetoa s ++ text_of (widetoa x ∷ drop (suc (length s)) fresh_message)))
unfolding converted unicode_to_oem_n
text_of-converted s x rest lo hi h =
    let n = length s in
    let half : 2 * length s / 2 ≡ length s = omega arith in
    let fits : ltb (length s) conversion_size ≡ true = ground (arith, hi) in
    let some_units : (length s == 0) ≡ false = ground (arith, lo) in
    let total : suc (length s) ≤ length (s ++ (x ∷ rest)) =
      omega (arith, length-append s (x ∷ rest)) in
    let copy =
      copy_from-overlay widetoa (suc n) (s ++ (x ∷ rest)) fresh_message total (omega (arith, hi)) in
    let bytes : map widetoa (take (suc n) (s ++ (x ∷ rest))) ≡ map widetoa s ++ (widetoa x ∷ []) =
      ap (map widetoa) (take-suc-length s x rest) ∙ map-snoc s x in
    (
      map widetoa (take (suc n) (s ++ (x ∷ rest))) ++ drop (suc n) fresh_message,
      (
        rw (half, fits, some_units, copy) refl,
        ap (λ l. text_of (l ++ drop (suc n) fresh_message)) bytes
            ∙ text_of-append s (widetoa x) (drop (suc n) fresh_message) h,
      ),
    )

abbrev head_or : ℕ → List ℕ → ℕ
head_or d [] = d
head_or d (c ∷ rest) = c

head_or-text_of : (c : ℕ) (rest : List ℕ) → head_or 0 (text_of (c ∷ rest)) ≡ c
head_or-text_of c rest = elim (Bool-cases (c == 0)) [
  | inl e ↦ rw e (sym ((==_iff c 0).0 e))
  | inr e ↦ rw e refl
]

-- `same` is what is documented of `strcmp`.
module _ (same : Bool → List ℕ → List ℕ → Bool)
    (strcmp : (a b : List ℕ) → (same false a b ≡ true) ↔ (text_of a ≡ text_of b)) where
  equal-converted :
      (s t : CountedString) (a b : List ℕ)
      → converted s ≡ some a
      → converted t ≡ some b
      → equal_unicode_string same s t false ≡ some (same false a b)
  unfolding equal_unicode_string
  equal-converted s t a b h k = rw (h, k) refl

  -- Strings of 1 to 1023 units with a terminator behind them, and no unit with a zero as its low
  -- byte, are equal exactly if the low bytes of their units are.
  pub equal_unicode_string_iff :
      (s t r q : List ℕ)
      → 0 < length s
      → length s < 1024
      → HasBytes s
      → 0 < length t
      → length t < 1024
      → HasBytes t
      → (equal_unicode_string same (counted s 0 r) (counted t 0 q) false ≡ some true)
        ↔ (map widetoa s ≡ map widetoa t)
  unfolding widetoa
  equal_unicode_string_iff s t r q s_lo s_hi s_bytes t_lo t_hi t_bytes =
      let (a, (a_is, a_text)) = text_of-converted s 0 r s_lo s_hi s_bytes in
      let (b, (b_is, b_text)) = text_of-converted t 0 q t_lo t_hi t_bytes in
      let done = equal-converted (counted s 0 r) (counted t 0 q) a b a_is b_is in
      let a_all : text_of a ≡ map widetoa s = a_text ∙ append-nil (map widetoa s) in
      let b_all : text_of b ≡ map widetoa t = b_text ∙ append-nil (map widetoa t) in
      (
        λ e. sym a_all ∙ (strcmp a b).0 (some-injective _ _ (sym done ∙ e)) ∙ b_all,
        λ e. done ∙ ap some ((strcmp a b).1 (a_all ∙ e ∙ sym b_all)),
      )

  -- A string of 1 to 1023 units is not equal to itself where the units behind the two copies differ
  -- in their low bytes: the conversion takes a unit more than the string has.
  pub equal_unicode_string-false :
      (s r q : List ℕ) (x y : ℕ)
      → 0 < length s
      → length s < 1024
      → HasBytes s
      → widetoa x ≢ widetoa y
      → equal_unicode_string same (counted s x r) (counted s y q) false ≡ some false
  equal_unicode_string-false s r q x y lo hi bytes differ =
      let (a, (a_is, a_text)) = text_of-converted s x r lo hi bytes in
      let (b, (b_is, b_text)) = text_of-converted s y q lo hi bytes in
      let done = equal-converted (counted s x r) (counted s y q) a b a_is b_is in
      let left = drop (suc (length s)) fresh_message in
      let n = length (map widetoa s) + 0 in
      elim (Bool-cases (same false a b)) [
        | inr e ↦ done ∙ ap some e
        | inl e ↦
            let texts = sym a_text ∙ (strcmp a b).0 e ∙ b_text in
            let tails : text_of (widetoa x ∷ left) ≡ text_of (widetoa y ∷ left) =
              sym (drop-append (map widetoa s) (text_of (widetoa x ∷ left)) 0)
              ∙ ap (drop n) texts
              ∙ drop-append (map widetoa s) (text_of (widetoa y ∷ left)) 0 in
            absurd (
              differ (
                sym (head_or-text_of (widetoa x) left)
                ∙ ap (head_or 0) tails
                ∙ head_or-text_of (widetoa y) left))
      ]
