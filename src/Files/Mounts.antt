-- ===== src/Files/Mounts.antt =====
-- libs/ntdll/io.c: which files are opened.
use nloader.Base.{
  ℕ, suc, ◌+◌, ◌-◌, ◌≡◌, ◌≢◌, ◌⊎◌, inl, inr, refl, ap, sym, ◌∙◌, Bool, true, false, ◌||◌, Option,
  none, some, List, [], ◌∷◌, ◌++◌, ◌==◌, if◌then◌else◌, arith, length, length-append, take, get_or,
  All, Bool-cases, take-append,
}
use nloader.Registry.{codes, same_ignoring_case, starts_ignoring_case}
use nloader.Wide.{widetol}
use nloader.Files.Open.{
  asks, ntflags_unix, Mounted, mounted, not_mounted, mount_error, first_word, same_text,
  scan_mounts, is_mounted, has_ignoring_case, Opening, opens, refused, volume_prefix,
  keyboard_prefix, open_device, fault, open_volume, unix_open,
}

same_text-eq : (xs ys : List ℕ) → same_text xs ys ≡ true → xs ≡ ys
unfolding same_text
same_text-eq [] [] h = refl
same_text-eq [] (y ∷ ys) h = cc
same_text-eq (x ∷ xs) [] h = cc
same_text-eq (x ∷ xs) (y ∷ ys) h = ground (arith, same_text-eq xs ys)

same_text_refl : (xs : List ℕ) → same_text xs xs ≡ true
unfolding same_text
same_text_refl [] = refl
same_text_refl (x ∷ xs) = ground (arith, same_text_refl xs)

same_text-ne : (xs ys : List ℕ) → same_text xs ys ≡ false → xs ≢ ys
same_text-ne xs ys h e = cc (ap (same_text xs) e, same_text_refl xs, h)

Mounted-cases : (m : Mounted) → (m ≡ not_mounted) ⊎ ((m ≡ mounted) ⊎ (m ≡ mount_error))
Mounted-cases mounted = inr (inl refl)
Mounted-cases not_mounted = inl refl
Mounted-cases mount_error = inr (inr refl)

-- What the table of the mounts says of a device.
pub data Listed (device : List ℕ) (mtab : Option (List (List ℕ))) (result : Mounted) : Type 0 where
  unknown : (mtab ≡ none) ⊎ (mtab ≡ some []) → result ≡ mount_error → Listed device mtab result
  listed :
      (above : List (List ℕ)) (line : List ℕ) (below : List (List ℕ))
      → mtab ≡ some (above ++ (line ∷ below))
      → first_word line ≡ device
      → result ≡ mounted
      → Listed device mtab result
  not_listed :
      (line : List ℕ) (below : List (List ℕ))
      → mtab ≡ some (line ∷ below)
      → All (λ l. first_word l ≢ device) (line ∷ below)
      → result ≡ not_mounted
      → Listed device mtab result

scan_mounts-cases :
    (device : List ℕ) (n : ℕ) (lines : List (List ℕ))
    → ((above : List (List ℕ)) × (line : List ℕ) × (below : List (List ℕ)) × (lines
          ≡ above ++ (line ∷ below))
        × (first_word line ≡ device)
        × (scan_mounts device n lines ≡ mounted))
      ⊎ (All (λ l. first_word l ≢ device) lines
          × (scan_mounts device n lines
              ≡ (if n + length lines == 0 then mount_error else not_mounted)))
unfolding scan_mounts
scan_mounts-cases device n [] = inr (tt, let same : n + 0 ≡ n = omega arith in rw same refl)
scan_mounts-cases device n (line ∷ rest) = elim (Bool-cases (same_text device (first_word line))) [
  | inl l ↦ inl ([], line, rest, refl, sym (same_text-eq device (first_word line) l), rw l refl)
  | inr l ↦ elim (scan_mounts-cases device (n + 1) rest) [
    | inl (above, other, below, e, w, r) ↦
        inl (line ∷ above, other, below, ap (λ ls. line ∷ ls) e, w, rw l r)
    | inr (all, r) ↦
        let same : n + 1 + length rest ≡ n + suc (length rest) = omega arith in
        inr (
          (λ e. same_text-ne device (first_word line) l (sym e), all),
          rw l (r ∙ ap (λ k. if k == 0 then mount_error else not_mounted) same),
        )
  ]
]

-- A device counts as mounted exactly if a line of the table starts with it as its first word; the
-- table says nothing if it cannot be opened or is empty.
pub is_mounted-Listed :
    (device : List ℕ) (mtab : Option (List (List ℕ))) → Listed device mtab (is_mounted device mtab)
unfolding is_mounted
is_mounted-Listed device none = unknown (inl refl) refl
is_mounted-Listed device (some []) = unknown (inr refl) refl
is_mounted-Listed device (some (line ∷ below)) = elim (scan_mounts-cases device 0 (line ∷ below)) [
  | inl (above, other, rest, e, w, r) ↦ listed above other rest (ap some e) w r
  | inr (all, r) ↦ not_listed line below refl all (r ∙ ground arith)
]

get_or-last : (xs : List ℕ) (c : ℕ) → get_or (xs ++ (c ∷ [])) (length xs) 0 ≡ c
get_or-last [] c = refl
get_or-last (x ∷ xs) c = get_or-last xs c

-- `Volume{`, a device and a last character.
abbrev pub volume_path : List ℕ → ℕ → List ℕ
volume_path device c = volume_prefix ++ (device ++ (c ∷ []))

-- `open_volume` on a path with this last character, length and device.
abbrev volume_by : ℕ → ℕ → List ℕ → Option (List (List ℕ)) → Opening
volume_by c n device mtab =
    if c == b'\\' then refused else if n == 7 then fault else open_device device mtab

open_volume-device :
    (device : List ℕ) (c : ℕ) (mtab : Option (List (List ℕ)))
    → c ≢ b'\\'
    → open_volume (volume_path device c) mtab ≡ open_device device mtab
unfolding open_volume
open_volume-device device c mtab ne =
    let path = volume_path device c in
    let whole : length path ≡ 8 + length device = omega (arith, length-append device (c ∷ [])) in
    let at : length path - 1 ≡ length (volume_prefix ++ device) = omega (arith, whole) in
    let last : get_or path (length path - 1) 0 ≡ c =
      ap (λ i. get_or path i 0) at ∙ get_or-last (volume_prefix ++ device) c in
    let slash : (c == b'\\') ≡ false = ground (arith, ne) in
    let name : take (length path - 8) (device ++ (c ∷ [])) ≡ device =
      ap (λ k. take k (device ++ (c ∷ []))) (omega (arith, whole)) ∙ take-append device (c ∷ []) in
    let long : (8 + length device == 7) ≡ false = ground arith in
    ap (λ l. volume_by l (length path) (take (length path - 8) (device ++ (c ∷ []))) mtab) last
    ∙ ap (λ n. volume_by c n (take (length path - 8) (device ++ (c ∷ []))) mtab) whole
    ∙ ap (λ d. volume_by c (8 + length device) d mtab) name
    ∙ rw (slash, long) refl

-- A path of a device, `Volume{` with the device and one more character that is no backslash, is
-- opened exactly if the table of the mounts lists other devices alone: under the name of the
-- device, with any flags. It is refused if the device is listed, or the table says nothing. The
-- path is none of the log's.
pub unix_open-Listed :
    (device : List ℕ) (c flags : ℕ) (mtab : Option (List (List ℕ)))
    → c ≢ b'\\'
    → has_ignoring_case (volume_path device c) (codes "BOOTEX.LOG") ≡ false
    → (result : Mounted) × Listed device mtab result
      × ((result ≡ not_mounted) × (unix_open (volume_path device c) flags mtab ≡ opens device)
          ⊎ (result ≢ not_mounted) × (unix_open (volume_path device c) flags mtab ≡ refused))
unfolding unix_open open_device widetol
unix_open-Listed device c flags mtab ne no_log = (
  is_mounted device mtab,
  is_mounted-Listed device mtab,
  elim (Mounted-cases (is_mounted device mtab)) [
    | inl e ↦ inl (e, rw no_log (open_volume-device device c mtab ne ∙ rw (open_device, e) refl))
    | inr (inl e) ↦
        inr (
          λ f. cc (e, f),
          rw no_log (open_volume-device device c mtab ne ∙ rw (open_device, e) refl),
        )
    | inr (inr e) ↦
        inr (
          λ f. cc (e, f),
          rw no_log (open_volume-device device c mtab ne ∙ rw (open_device, e) refl),
        )
  ],
)

-- The characters of a path that stand for nothing else.
pub record IsPlain (path : List ℕ) : Type 0 where
  pub no_log : has_ignoring_case path (codes "BOOTEX.LOG") ≡ false
  pub no_volume : starts_ignoring_case volume_prefix path ≡ false
  pub no_disk : same_ignoring_case path (codes "\\??\\Volume{X}\\") ≡ false
  pub no_image : same_ignoring_case path (codes "disk.img") ≡ false
  pub no_keyboard : starts_ignoring_case keyboard_prefix path ≡ false
  pub no_mailslot : starts_ignoring_case (codes "\\Device\\Mailslot") path ≡ false

-- An access that asks to write, to append or for 0x20000.
abbrev pub writes : ℕ → Bool
writes access =
    asks access 2 || (asks access 17 || (asks access 8 || (asks access 1 || asks access 30)))

ntflags_unix-writes :
    (access : ℕ)
    → ((writes access ≡ false) × ((ntflags_unix access == 0) ≡ true))
      ⊎ ((writes access ≡ true) × ((ntflags_unix access == 0) ≡ false))
unfolding ntflags_unix
ntflags_unix-writes access = ground arith

-- A path that stands for no device, image or log is opened as it is, but never to write: exactly if
-- the access asks for nothing that the host's flags tell from reading.
pub unix_open-IsPlain :
    (path : List ℕ) (access : ℕ) (mtab : Option (List (List ℕ)))
    → IsPlain path
    → ((writes access ≡ false) × (unix_open path (ntflags_unix access) mtab ≡ opens path))
      ⊎ ((writes access ≡ true) × (unix_open path (ntflags_unix access) mtab ≡ refused))
unfolding unix_open
unix_open-IsPlain path access mtab p = elim (ntflags_unix-writes access) [
  | inl (r, e) ↦
      inl
        (r, rw (p.no_log, p.no_volume, p.no_disk, p.no_image, p.no_keyboard, p.no_mailslot, e) refl)
  | inr (r, e) ↦
      inr
        (r, rw (p.no_log, p.no_volume, p.no_disk, p.no_image, p.no_keyboard, p.no_mailslot, e) refl)
]
