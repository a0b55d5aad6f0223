-- ===== src/Rtl/Strings.antt =====
-- libs/ntdll/rtl.c: the string functions that are sound only within a size, and the prefix test.
use nloader.Base.{
  ℕ, zero, suc, ◌+◌, ◌-◌, ◌*◌, ◌/◌, ◌%◌, ◌^◌, ◌≤◌, ◌<◌, ◌≡◌, ◌↔◌, inl, inr, refl, ap, sym, ◌∙◌,
  Bool, true, false, Option, none, some, List, [], ◌∷◌, ◌++◌, map, arith, length, length-append,
  take, drop, length-take, length-drop, length-map, Option-cases, get_or, ltb, leb, ◌==◌,
  Bool-cases, if◌then◌else◌, ==_iff,
}
use nloader.Wide.{store, widetol}
use nloader.Wide.Compare.{NonZero, wcslen-length}
use nloader.Rtl.{
  CountedString, ◌>>=◌, widetoa, Status, unicode_to_oem_n, init_unicode_string, wcmp, same_units,
  prefix_unicode_string, dos_path_name_to_nt_path_name,
}
use nloader.Rtl.Copy.{copy_from-none, copy_from-overlay, overlay, store-none}

-- A string that fills the buffer is copied one character behind its end.
pub unicode_to_oem_n-full :
    (dest src : List ℕ) (max_bytes bytes : ℕ)
    → length dest ≡ max_bytes
    → 0 < max_bytes
    → max_bytes * 2 ≤ bytes
    → unicode_to_oem_n dest max_bytes (some src) bytes ≡ none
unfolding unicode_to_oem_n
unicode_to_oem_n-full dest src max_bytes bytes room pos long =
    let cut : ltb (bytes / 2) max_bytes ≡ false = ground arith in
    let some_there : (max_bytes == 0) ≡ false = ground arith in
    rw (cut, some_there)
      (ap (λ m. m >>= λ (d : List ℕ). some (Status.success, (d, some (max_bytes + 1))))
        (copy_from-none widetoa (suc max_bytes) src dest (inr (omega arith))))

-- The lengths of a string are right exactly if it has fewer than 32767 units.
pub init_unicode_string-sizes :
    (s rest : List ℕ)
    → NonZero s
    → (c : CountedString) × (init_unicode_string (some (s ++ 0 ∷ rest)) ≡ some c)
      × ((((c.size ≡ length s * 2) × (c.maximum_size ≡ length s * 2 + 2))) ↔ (length s < 32767))
unfolding init_unicode_string
init_unicode_string-sizes s rest z =
    let n = length s in
    (
      record {
        size = (n * 2) % 2 ^ 16;
        maximum_size = ((n * 2) % 2 ^ 16 + 2) % 2 ^ 16;
        buffer = s ++ 0 ∷ rest;
      },
      rw (wcslen-length s rest z) refl,
      (λ h. omega arith, λ h. (omega arith, omega arith)),
    )

length-store :
    (xs : List ℕ) (i v : ℕ) (ys : List ℕ) → store xs i v ≡ some ys → length ys ≡ length xs
unfolding store
length-store [] i v ys e = ground arith
length-store (x ∷ xs) zero v ys e = ground arith
length-store (x ∷ xs) (suc i) v ys e = elim (Option-cases (store xs i v)) [
  | inl n ↦ ground arith
  | inr (zs, n) ↦ let shorter = length-store xs i v zs n in ground arith
]

-- The path of a file is terminated behind the buffer that is allocated for it, if it has at least
-- two units and the allocation succeeds with the room that is asked for.
pub dos_path_name_to_nt_path_name-none :
    (allocate : ℕ → Option (List ℕ)) (s rest fresh : List ℕ)
    → NonZero s
    → 2 ≤ length s
    → length s < 2 ^ 62
    → allocate (length s + 1) ≡ some fresh
    → length fresh ≡ length s + 1
    → dos_path_name_to_nt_path_name allocate (s ++ 0 ∷ rest) ≡ none
unfolding dos_path_name_to_nt_path_name
dos_path_name_to_nt_path_name-none allocate s rest fresh z long small there room =
    let n = length s in
    let path = s ++ 0 ∷ rest in
    let copied = overlay (λ c. c) (n + 1) path fresh in
    let whole = length-append s (0 ∷ rest) in
    let size : length copied ≡ n + 1 = omega (
      arith,
      length-append (map (λ c. c) (take (n + 1) path)) (drop (n + 1) fresh),
      length-map (take (n + 1) path) (λ (c : ℕ). c),
      length-take (n + 1) path,
      length-drop (n + 1) fresh,
      whole,
      room,
    ) in
    let behind : (n * 2 + (2 ^ 64 - 1)) % 2 ^ 64 ≡ n * 2 - 1 = omega arith in
    elim (Option-cases (store copied 1 b'?')) [
      | inl e ↦ rw (wcslen-length s rest z) (
          rw there (
            rw (copy_from-overlay (λ c. c) (n + 1) path fresh (omega (arith, whole)) (omega arith))
              (rw e refl)))
      | inr (marked, e) ↦ rw (wcslen-length s rest z) (
          rw there (
            rw (copy_from-overlay (λ c. c) (n + 1) path fresh (omega (arith, whole)) (omega arith))
              (rw e (
                rw behind (
                  rw
                    (store-none marked (n * 2 - 1) 0
                      (omega (arith, length-store copied 1 b'?' marked e, size, long)))
                    refl)))))
    ]

-- The units as they are compared.
abbrev pub folded : Bool → ℕ → ℕ
folded ignoring_case c = if ignoring_case then widetol c else c

wcmp-folded :
    (a b : ℕ) (ignoring_case : Bool)
    → (wcmp a b ignoring_case ≡ true) ↔ (folded ignoring_case a ≡ folded ignoring_case b)
unfolding wcmp
wcmp-folded a b true = ==_iff (widetol a) (widetol b)
wcmp-folded a b false = ==_iff a b

abbrev Compared : Bool → ℕ → List ℕ → List ℕ → Bool → Type 0
Compared ignoring_case n s t b =
    (b ≡ true) ↔ (map (folded ignoring_case) (take n s) ≡ map (folded ignoring_case) (take n t))

same_units-Compared :
    (ic : Bool) (n : ℕ) (s t : List ℕ)
    → n ≤ length s
    → n ≤ length t
    → (b : Bool) × (same_units n s t ic ≡ some b) × Compared ic n s t b
unfolding same_units
same_units-Compared ic zero s t h k = (true, refl, (λ e. refl, λ e. refl))
same_units-Compared ic (suc n) [] t h k = absurd (omega arith)
same_units-Compared ic (suc n) (a ∷ s) [] h k = absurd (omega arith)
same_units-Compared ic (suc n) (a ∷ s) (b ∷ t) h k =
    let (r, e, c) = same_units-Compared ic n s t (omega arith) (omega arith) in
    elim (Bool-cases (wcmp a b ic)) [
      | inl l ↦
          let heads = (wcmp-folded a b ic).0 l in
          (
            r,
            rw l e,
            (
              λ x.
                  ap (λ y. y ∷ map (folded ic) (take n s)) heads
                  ∙ ap (λ l. folded ic b ∷ l) (c.0 x),
              λ x. c.1 (ap (drop 1) x),
            ),
          )
      | inr l ↦ (
        false,
        rw l refl,
        (λ x. ground arith, λ x. sym l ∙ (wcmp-folded a b ic).1 (ap (λ l. get_or l 0 0) x)),
      )
    ]

-- Where both strings have the units that their sizes tell, the prefix test ends, and it succeeds
-- exactly if the first is no larger than the second and its units are the first of the second, as
-- far as their case is regarded.
pub prefix_unicode_string-folded :
    (s t : CountedString) (ic : Bool)
    → s.size / 2 ≤ length s.buffer
    → t.size / 2 ≤ length t.buffer
    → (b : Bool) × (prefix_unicode_string s t ic ≡ some b)
      × ((b ≡ true) ↔ (
          (s.size ≤ t.size)
          × (map (folded ic) (take (s.size / 2) s.buffer)
              ≡ map (folded ic) (take (s.size / 2) t.buffer))))
unfolding prefix_unicode_string
prefix_unicode_string-folded s t ic h k = elim (Bool-cases (leb s.size t.size)) [
  | inl l ↦
      let smaller : s.size ≤ t.size = ground arith in
      let (b, e, c) = same_units-Compared ic (s.size / 2) s.buffer t.buffer h (omega arith) in
      (b, rw l e, (λ x. (smaller, c.0 x), λ x. c.1 x.1))
  | inr l ↦
      let larger : t.size < s.size = ground arith in
      (false, rw l refl, (λ x. ground arith, λ x. absurd (omega (arith, larger, x.0))))
]
