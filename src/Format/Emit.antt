-- ===== src/Format/Emit.antt =====
-- libs/ntdll/format.c: what is emitted into a buffer that has room.
use mathlib.Core.List.{append_assoc, append-nil}
use nloader.Base.{
  ℕ, suc, ◌+◌, ◌-◌, ◌^◌, ◌≤◌, ◌<◌, ◌≡◌, refl, ap, sym, ◌∙◌, false, List, [], ◌∷◌, ◌++◌, map, arith,
  length, length-append, drop, ◌==◌,
}
use nloader.Wide.Compare.{NonZero}
use nloader.Rtl.Copy.{store-append}
use nloader.Format.{Outcome, done, Target, emit_wchar, emit_text, less}

-- `out` is emitted, `d` is the rest of the buffer.
abbrev pub filled : List ℕ → List ℕ → Target
filled out d = record { buffer = out ++ d; count = length out }

pub emit-filled :
    (out d : List ℕ) (y c : ℕ)
    → emit_wchar c (filled out (y ∷ d)) ≡ done (filled (out ++ (c ∷ [])) d)
unfolding emit_wchar
emit-filled out d y c =
    rw (emit_wchar, store-append out y c d (length out) refl)
      (rw (append_assoc out (c ∷ []) d, length-append out (c ∷ [])) refl)

same_emitted :
    (n m : ℕ) (out out' d : List ℕ)
    → n ≡ m
    → out ≡ out'
    → ◌≡◌ {A = Outcome (ℕ × Target)} (done (n, filled out d)) (done (m, filled out' d))
same_emitted n m out out' d e f =
    ap (λ k. done (k, filled out d)) e ∙ ap (λ o. done (m, filled o d)) f

pub emit_text-filled :
    (f : ℕ → ℕ) (t r out d : List ℕ) (n : ℕ)
    → NonZero t
    → length t ≤ length d
    → emit_text f (t ++ 0 ∷ r) (filled out d) n
      ≡ done (n + length t, filled (out ++ map f t) (drop (length t) d))
unfolding emit_text
emit_text-filled f [] r out d n z room =
    same_emitted n (n + 0) out (out ++ []) d (omega arith) (sym (append-nil out))
emit_text-filled f (c ∷ t) r out [] n z room = absurd (omega arith)
emit_text-filled f (c ∷ t) r out (y ∷ d) n z room =
    let pos : (c == 0) ≡ false = ground (arith, z.0) in
    let later = emit_text-filled f t r (out ++ (f c ∷ [])) d (n + 1) z.1 (omega arith) in
    rw (pos, emit-filled out d y (f c))
      (later
        ∙ same_emitted (n + 1 + length t) (n + suc (length t)) ((out ++ (f c ∷ [])) ++ map f t)
            (out ++ (f c ∷ map f t)) (drop (length t) d) (omega arith)
            (append_assoc out (f c ∷ []) (map f t)))

pub less_lem : (room chars : ℕ) → chars ≤ room → room < 2 ^ 64 → less room chars ≡ room - chars
unfolding less
less_lem room chars h k = omega arith

pub map_id : (xs : List ℕ) → map (λ c. c) xs ≡ xs
map_id [] = refl
map_id (x ∷ xs) = ap (λ l. x ∷ l) (map_id xs)
