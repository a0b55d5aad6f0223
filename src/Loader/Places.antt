-- ===== src/Loader/Places.antt =====
-- loader.c: the places of the imports that the import table yields, and the patches of those.
use mathlib.Core.Path.{subst}
use native.Mathlib.Nat.{div-mul-le_self, lt-div-mul-add, mod-eq-sub-div-mul}
use nloader.Base.{
  ℕ, zero, suc, ◌+◌, ◌-◌, ◌*◌, ◌/◌, ◌%◌, ◌^◌, ◌≤◌, ◌<◌, ◌≡◌, refl, ap, inl, inr, List, [], ◌∷◌,
  ◌++◌, arith, length, length-replicate, replicate, All, All-append, Bool, true, false, ltb, ◌==◌,
  Bool-cases, some, ◌&&◌, if◌then◌else◌, not,
}
use nloader.Loader.{
  Refused, Result, accepted, refused, overrun, stuck, ◌>>=◌, require, OptionalHeader, pesalign,
}
use nloader.Loader.Imports.{
  Export, Import, read32, read64, c_string, import_name, bind_import, bind_names, bind_library,
  bind_libraries, bind_imports, is_contained,
}
use nloader.Loader.Patch.{Host, patch_at, patch_all, stubs_len}
use nloader.Loader.Thunks.{Fits, Apart, IsPatched, Patched-imports}

-- The value, if there is one, has the property.
pub data Ensures {A : Type 0} (P : A → Type 0) : Result A → Type 0 where
  with_value : (a : A) → P a → Ensures P (accepted a)
  with_refusal : (why : Refused) → Ensures P (refused why)
  with_overrun : Ensures P overrun
  with_stuck : Ensures P stuck

module _ {B : Type 0} where
  value : B → Result B → B
  value d (accepted b) = b
  value d (refused why) = d
  value d overrun = d
  value d stuck = d

  accepted-inj : (a b : B) → accepted a ≡ accepted b → a ≡ b
  unfolding value
  accepted-inj a b e = ap (value a) e

module _ {A B : Type 0} (P : A → Type 0) (Q : B → Type 0) where
  Ensures-bind :
      (m : Result A) (next : A → Result B)
      → Ensures P m
      → ((a : A) → P a → Ensures Q (next a))
      → Ensures Q (m >>= next)
  Ensures-bind _ next (with_value a p) k = k a p
  Ensures-bind _ next (with_refusal why) k = with_refusal why
  Ensures-bind _ next with_overrun k = with_overrun
  Ensures-bind _ next with_stuck k = with_stuck

module _ {A B : Type 0} (Q : B → Type 0) where
  Ensures-any :
      (m : Result A) (next : A → Result B) → ((a : A) → Ensures Q (next a)) → Ensures Q (m >>= next)
  Ensures-any (accepted a) next k = k a
  Ensures-any (refused why) next k = with_refusal why
  Ensures-any overrun next k = with_overrun
  Ensures-any stuck next k = with_stuck

module _ {B : Type 0} (Q : B → Type 0) where
  Ensures-if :
      (b : Bool) (x y : Result B) → Ensures Q x → Ensures Q y → Ensures Q (if b then x else y)
  Ensures-if true x y h k = h
  Ensures-if false x y h k = k

require-Ensures : (b : Bool) (why : Refused) → Ensures (λ _. b ≡ true) (require b why)
unfolding require
require-Ensures true why = with_value tt refl
require-Ensures false why = with_refusal why

bind_import-thunk :
    (table : List Export) (image dll : List ℕ) (name addr : ℕ)
    → Ensures (λ i. i.thunk ≡ addr) (bind_import table image dll name addr)
unfolding bind_import
bind_import-thunk table image dll name addr =
    Ensures-any (λ i. i.thunk ≡ addr) (import_name image name) _ (λ impname. with_value _ refl)

contained_place :
    (image : List ℕ) (names addrs : ℕ)
    → (is_contained image names 8 && is_contained image addrs 8) ≡ true
    → addrs + 8 ≤ length image
unfolding is_contained
contained_place image names addrs h = ground arith

bind_names-Fits :
    (fuel : ℕ) (table : List Export) (image dll : List ℕ) (names addrs : ℕ)
    → Ensures (All (Fits image)) (bind_names fuel table image dll names addrs)
unfolding bind_names
bind_names-Fits zero table image dll names addrs = with_stuck
bind_names-Fits (suc fuel) table image dll names addrs =
    let both = is_contained image names 8 && is_contained image addrs 8 in
    let places = All (Fits image) in
    let later = bind_names-Fits fuel table image dll (names + 8) (addrs + 8) in
    Ensures-any places (read64 image names) _ (λ name.
      Ensures-if places (name == 0) (accepted []) _ (with_value [] tt) (
        Ensures-bind (λ _. both ≡ true) places (require both _) _ (require-Ensures both _)
          (λ _ inside.
            Ensures-bind (λ i. i.thunk ≡ addrs) places (bind_import table image dll name addrs) _
              (bind_import-thunk table image dll name addrs)
              (λ i here.
                Ensures-bind places places (bind_names fuel table image dll (names + 8) (addrs + 8))
                  _ later
                  (λ is all.
                    with_value (i ∷ is)
                      (omega (arith, contained_place image names addrs inside, here), all))))))

bind_library-Fits :
    (table : List Export) (image : List ℕ) (at dll_name : ℕ)
    → Ensures (All (Fits image)) (bind_library table image at dll_name)
unfolding bind_library
bind_library-Fits table image at dll_name =
    let places = All (Fits image) in
    Ensures-any places (read32 image at) _ (λ orig.
      Ensures-any places (require (not (orig == 0)) _) _ (λ _.
        Ensures-any places (read32 image (at + 16)) _ (λ thunk.
          Ensures-any places (c_string image dll_name) _
            (λ dll. bind_names-Fits (suc (suc (length image))) table image dll orig thunk))))

bind_libraries-Fits :
    (fuel : ℕ) (table : List Export) (image : List ℕ) (at size : ℕ)
    → Ensures (All (Fits image)) (bind_libraries fuel table image at size)
unfolding bind_libraries
bind_libraries-Fits zero table image at size = with_stuck
bind_libraries-Fits (suc fuel) table image at size =
    let places = All (Fits image) in
    let next = bind_libraries fuel table image ((at + 20) % 2 ^ 32) (size - 20) in
    let later = bind_libraries-Fits fuel table image ((at + 20) % 2 ^ 32) (size - 20) in
    Ensures-if places (ltb size 20) (accepted []) _ (with_value [] tt) (
      Ensures-any places (require (is_contained image at 8) _) _ (λ _.
        Ensures-any places (read32 image (at + 12)) _ (λ dll_name.
          Ensures-if places (dll_name == 0) (accepted []) _ (with_value [] tt) (
            Ensures-bind places places (bind_library table image at dll_name) _
              (bind_library-Fits table image at dll_name)
              (λ is here. Ensures-bind places places next _ later (λ more there.
                with_value (is ++ more) (All-append (Fits image) is more here there)))))))

Ensures-accepted :
    {A : Type 0} {P : A → Type 0} {m : Result A} (a : A) → Ensures P m → m ≡ accepted a → P a
Ensures-accepted {P} a (with_value b p) e = subst P (accepted-inj b a e) p
Ensures-accepted a (with_refusal why) e = ground arith
Ensures-accepted a with_overrun e = ground arith
Ensures-accepted a with_stuck e = ground arith

-- Every place that an import table yields for a patch lies in the image, all eight bytes of it,
-- whatever the table holds.
pub bind_imports-Fits :
    (table : List Export) (opt : OptionalHeader) (image : List ℕ) (imports : List Import)
    → bind_imports table opt image ≡ accepted imports
    → All (Fits image) imports
unfolding bind_imports
bind_imports-Fits table opt image imports e =
    Ensures-accepted imports
      (bind_libraries-Fits (suc opt.import_size) table image opt.import_rva opt.import_size) e

pesalign-le : (o a : ℕ) → 0 < a → o + a < 2 ^ 32 → o ≤ pesalign o a
unfolding pesalign
pesalign-le o a pos small =
    let q = o / a in
    let below : q * a ≤ o = div-mul-le_self o a in
    let above : o < q * a + a = lt-div-mul-add pos in
    let split : o % a ≡ o - q * a = mod-eq-sub-div-mul o a in
    let more : (q + 1) * a ≡ q * a + a = grind arith in
    let not_zero : (a == 0) ≡ false = ground arith in
    elim (Bool-cases (o % a == 0)) [
      | inl z ↦ let exact : o ≡ (q + 0) * a = ground arith in rw (not_zero, z) (omega arith)
      | inr z ↦ rw (not_zero, z) (omega arith)
    ]

stubs_len-room : (page n : ℕ) → 0 < page → n * 18 + page < 2 ^ 32 → n * 18 ≤ stubs_len page n
unfolding stubs_len
stubs_len-room page n pos small =
    let whole : n * 18 % 2 ^ 32 ≡ n * 18 = omega arith in
    rw whole (pesalign-le (n * 18) page pos small)

-- All imports of a table whose places do not overlap are patched, if the host maps the stubs and
-- protects them, and their number leaves the size of the stubs within 32 bits: every place then holds
-- the address of the stub with the number of its import, which stands there with that number, and
-- every other byte of the image is as it was.
pub patch_all-IsPatched :
    (host : Host) (table : List Export) (opt : OptionalHeader) (image : List ℕ) (stubs : ℕ)
    (imp : Import) (rest : List Import)
    → bind_imports table opt image ≡ accepted (imp ∷ rest)
    → Apart (imp ∷ rest)
    → 0 < host.page
    → length (imp ∷ rest) * 18 + host.page < 2 ^ 32
    → host.stubs_at (stubs_len host.page (length (imp ∷ rest))) ≡ some stubs
    → host.protects stubs (stubs_len host.page (length (imp ∷ rest))) 5 ≡ true
    → stubs + stubs_len host.page (length (imp ∷ rest)) ≤ 2 ^ 64
    → (memory : List ℕ) × (image' : List ℕ) × (patch_all host (imp ∷ rest) image
        ≡ accepted (memory, image'))
      × IsPatched stubs host.dispatch
          (imp ∷ rest)
          0
          (replicate (stubs_len host.page (length (imp ∷ rest))) 0)
          image
          memory
          image'
unfolding patch_all patch_at
patch_all-IsPatched host table opt image stubs imp rest e apart pos small there safe wraps =
    let size = stubs_len host.page (length (imp ∷ rest)) in
    let room = stubs_len-room host.page (length (imp ∷ rest)) pos small in
    let (memory, image', done, p) =
      Patched-imports stubs host.dispatch (imp ∷ rest) 0 (replicate size 0) image
        (bind_imports-Fits table opt image (imp ∷ rest) e) apart
        (omega (arith, room, length-replicate {A = ℕ} size 0)) (omega (arith, room)) in
    (memory, image', rw there (rw done (rw safe refl)), p)
