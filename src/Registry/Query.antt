-- ===== src/Registry/Query.antt =====
-- libs/ntdll/registry.c: what the queries find and write, and where the marks of a value go.
use nloader.Base.{
  ℕ, zero, suc, ◌+◌, ◌/◌, ◌≤◌, ◌<◌, ◌≡◌, ◌⊎◌, ◌↔◌, inl, inr, refl, ap, sym, ◌∙◌, Bool, true, false,
  ◌&&◌, Option, none, some, List, [], ◌∷◌, ◌++◌, map, arith, length, drop, ltb, leb, ◌==◌,
  if◌then◌else◌, Bool-cases,
}
use nloader.Wide.{widetol}
use nloader.Registry.{
  RegKey, same_ignoring_case, starts_ignoring_case, find_key, registry_lookup, reg_prefix, Status,
  success, buffer_too_small, not_implemented, InformationClass, full, partial, other, le32,
  full_information, partial_information, overwrite, Answer, answer_with, query_value, mark_end,
  mark_ends, set_value, reg_multi_sz,
}

-- What a query of a class writes for a value, with the size that it asks for.
abbrev pub information : InformationClass → RegKey → List ℕ
information full k = full_information k
information partial k = partial_information k
information other k = []

abbrev pub needed : InformationClass → RegKey → ℕ
needed full k = length k.content + 24
needed partial k = length k.content + 16
needed other k = 0

-- How a query of a value that is in the table ends.
pub data Queried (k : RegKey) (class : InformationClass) (buffer : List ℕ) (result : Option Answer)
    : Type 0 where
  unknown_class :
      class ≡ other
      → result ≡ some (record { status = not_implemented; buffer = buffer; result_length = none })
      → Queried k class buffer result
  too_small :
      length buffer < needed class k
      → result
        ≡ some (record {
          status = buffer_too_small;
          buffer = buffer;
          result_length = some (needed class k);
        })
      → Queried k class buffer result
  written :
      needed class k ≤ length buffer
      → length (information class k) ≤ length buffer
      → result
        ≡ some (record {
          status = success;
          buffer = information class k ++ drop (length (information class k)) buffer;
          result_length = some (needed class k);
        })
      → Queried k class buffer result

length-full_information : (k : RegKey) → length (full_information k) ≡ length k.content + 20
unfolding full_information le32
length-full_information k = omega arith

length-partial_information : (k : RegKey) → length (partial_information k) ≡ length k.content + 12
unfolding partial_information le32
length-partial_information k = omega arith

abbrev answer : Status → List ℕ → ℕ → Option Answer
answer status buffer n = some (record { status = status; buffer = buffer; result_length = some n })

answered :
    (buffer info : List ℕ) (n : ℕ)
    → length info ≤ n
    → ((length buffer < n)
        × (answer_with buffer (length buffer) n info ≡ answer buffer_too_small buffer n))
      ⊎ ((n ≤ length buffer)
          × (length info ≤ length buffer)
          × (answer_with buffer (length buffer) n info
              ≡ answer success (info ++ drop (length info) buffer) n))
unfolding answer_with overwrite
answered buffer info n h = elim (Bool-cases (ltb (length buffer) n)) [
  | inl l ↦ let short : length buffer < n = ground arith in inl (short, rw l refl)
  | inr l ↦
      let room : n ≤ length buffer = ground arith in
      let fits : leb (length info) (length buffer) ≡ true = ground arith in
      inr (room, omega arith, rw (l, fits) refl)
]

-- A query of a value with a buffer of the size that it names writes nothing behind the buffer: it
-- reports that the buffer is too small, with the size that is needed, or writes the whole structure
-- with the data, and the bytes behind it stay; a class that is neither full nor partial is not
-- implemented.
pub query_value-Queried :
    (k : RegKey) (class : InformationClass) (buffer : List ℕ)
    → Queried k class buffer (query_value (some k) class buffer (length buffer))
unfolding query_value
query_value-Queried k full buffer =
    elim (answered buffer (full_information k) (length k.content + 24)
      (omega (arith, length-full_information k))) [
        | inl (short, e) ↦ too_small short e
        | inr (room, fits, e) ↦ written room fits e
      ]
query_value-Queried k partial buffer =
    elim (answered buffer (partial_information k) (length k.content + 16)
      (omega (arith, length-partial_information k))) [
        | inl (short, e) ↦ too_small short e
        | inr (room, fits, e) ↦ written room fits e
      ]
query_value-Queried k other buffer = unknown_class refl refl

-- The characters of a path, less case.
abbrev pub folded : List ℕ → List ℕ
folded s = map widetol s

equal : List ℕ → List ℕ → Bool
equal [] [] = true
equal [] (y ∷ ys) = false
equal (x ∷ xs) [] = false
equal (x ∷ xs) (y ∷ ys) = x == y && equal xs ys

starts : List ℕ → List ℕ → Bool
starts [] ys = true
starts (x ∷ xs) [] = false
starts (x ∷ xs) (y ∷ ys) = x == y && starts xs ys

same_ignoring_case-equal :
    (xs ys : List ℕ) → same_ignoring_case xs ys ≡ equal (folded xs) (folded ys)
unfolding same_ignoring_case equal
same_ignoring_case-equal [] [] = refl
same_ignoring_case-equal [] (y ∷ ys) = refl
same_ignoring_case-equal (x ∷ xs) [] = refl
same_ignoring_case-equal (x ∷ xs) (y ∷ ys) =
    ap (λ b. widetol x == widetol y && b) (same_ignoring_case-equal xs ys)

starts_ignoring_case-starts :
    (xs ys : List ℕ) → starts_ignoring_case xs ys ≡ starts (folded xs) (folded ys)
unfolding starts_ignoring_case starts
starts_ignoring_case-starts [] ys = refl
starts_ignoring_case-starts (x ∷ xs) [] = refl
starts_ignoring_case-starts (x ∷ xs) (y ∷ ys) =
    ap (λ b. widetol x == widetol y && b) (starts_ignoring_case-starts xs ys)

folded-drop : (n : ℕ) (s : List ℕ) → folded (drop n s) ≡ drop n (folded s)
folded-drop zero s = refl
folded-drop (suc n) [] = refl
folded-drop (suc n) (x ∷ s) = folded-drop n s

find_key-folded :
    (keys : List RegKey) (p q : List ℕ) → folded p ≡ folded q → find_key keys p ≡ find_key keys q
unfolding find_key
find_key-folded [] p q e = refl
find_key-folded (k ∷ rest) p q e =
    let same =
      same_ignoring_case-equal p k.path
      ∙ ap (λ f. equal f (folded k.path)) e
      ∙ sym (same_ignoring_case-equal q k.path) in
    rw (same, find_key-folded rest p q e) refl

-- The lookup does not depend on the case of a path, in the prefix that is taken off it neither: paths
-- that are equal up to the case of their letters find the same value.
pub registry_lookup-folded :
    (keys : List RegKey) (p q : List ℕ)
    → folded p ≡ folded q
    → registry_lookup keys p ≡ registry_lookup keys q
unfolding registry_lookup
registry_lookup-folded keys p q e =
    let same =
      starts_ignoring_case-starts reg_prefix p
      ∙ ap (starts (folded reg_prefix)) e
      ∙ sym (starts_ignoring_case-starts reg_prefix q) in
    let rest =
      folded-drop (length reg_prefix) p
      ∙ ap (drop (length reg_prefix)) e
      ∙ sym (folded-drop (length reg_prefix) q) in
    elim (Bool-cases (starts_ignoring_case reg_prefix q)) [
      | inl l ↦ rw (same, l) (find_key-folded keys _ _ rest)
      | inr l ↦ rw (same, l) (find_key-folded keys p q e)
    ]

mark_end-cases :
    (chars : List ℕ) (i : ℕ)
    → ((length chars ≤ i) × (mark_end chars i ≡ none))
      ⊎ ((i < length chars)
          × (chars' : List ℕ) × (mark_end chars i ≡ some chars')
          × (length chars' ≡ length chars))
unfolding mark_end
mark_end-cases [] i = inl (omega arith, refl)
mark_end-cases (c ∷ cs) zero = inr (omega arith, (if c == 0 then b'|' else c) ∷ cs, refl, refl)
mark_end-cases (c ∷ cs) (suc i) = elim (mark_end-cases cs i) [
  | inl (out, e) ↦ inl (omega arith, rw e refl)
  | inr (inside, cs', e, n) ↦ inr (omega arith, c ∷ cs', rw e refl, ap suc n)
]

mark_ends-cases :
    (n i : ℕ) (chars : List ℕ)
    → i ≤ length chars
    → ((length chars < i + n) × (mark_ends n chars i ≡ none))
      ⊎ ((i + n ≤ length chars) × (chars' : List ℕ) × (mark_ends n chars i ≡ some chars'))
unfolding mark_ends
mark_ends-cases zero i chars h = inr (omega arith, chars, refl)
mark_ends-cases (suc n) i chars h = elim (mark_end-cases chars i) [
  | inl (out, e) ↦ inl (omega arith, rw e refl)
  | inr (inside, chars', e, same) ↦
      elim (mark_ends-cases n (i + 1) chars' (omega (arith, inside, same))) [
        | inl (out, f) ↦ inl (omega (arith, out, same), rw e f)
        | inr (room, chars'', f) ↦ inr (omega (arith, room, same), chars'', rw e f)
      ]
]

-- A value of several strings is written behind the buffer with its name exactly if its data have more
-- units than that buffer has characters.
pub set_value-none :
    (chars : List ℕ) (size : ℕ)
    → (set_value reg_multi_sz chars size ≡ none) ↔ (length chars < size / 2)
unfolding set_value
set_value-none chars size = elim (mark_ends-cases (size / 2) 0 chars (omega arith)) [
  | inl (out, e) ↦ (λ h. omega (arith, out), λ h. e)
  | inr (room, chars', e) ↦ (λ h. ground (arith, h, e), λ h. absurd (omega (arith, h, room)))
]
