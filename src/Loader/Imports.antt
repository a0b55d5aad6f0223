-- ===== src/Loader/Imports.antt =====
-- loader.c: the import table of a mapped image, up to the patches, for x86_64. The export records of
-- the libraries, which the linker collects between `__start_nl_exports` and `__stop_nl_exports`, are
-- a list.
use nloader.Base.{
  ℕ, zero, suc, ◌+◌, ◌-◌, ◌%◌, ◌^◌, Bool, true, false, not, ◌&&◌, Option, none, some, List, [], ◌∷◌,
  ◌++◌, ltb, leb, ◌==◌, if◌then◌else◌, length, take, drop, replicate,
}
use nloader.Wide.Number.{numeral}
use nloader.Loader.{
  Result, accepted, overrun, stuck, ◌>>=◌, require, word32, word64, OptionalHeader,
  descriptor_out_of_image, borland_import, thunk_out_of_image,
}

pub record Export : Type 0 where
  pub dll : List ℕ
  pub name : List ℕ
  pub func : ℕ

-- What the arrays `import_names`, `import_addrs` and `thunks` hold of an import.
pub record Import : Type 0 where
  pub fname : List ℕ
  pub api_addr : Option ℕ
  pub thunk : ℕ

-- `CLI_ISCONTAINED` for `size` bytes at an offset in an image.
unfoldable pub is_contained : List ℕ → ℕ → ℕ → Bool
is_contained image at size =
    ltb 0 (length image)
    && (ltb 0 size
        && (leb size (length image) && (leb (at + size) (length image) && ltb at (length image))))

unfoldable pub read32 : List ℕ → ℕ → Result ℕ
unfolding word32
read32 image at = if leb (at + 4) (length image) then accepted (word32 image at) else overrun

unfoldable pub read64 : List ℕ → ℕ → Result ℕ
unfolding word64
read64 image at = if leb (at + 8) (length image) then accepted (word64 image at) else overrun

unfoldable pub until_nul : List ℕ → Result (List ℕ)
until_nul [] = overrun
until_nul (c ∷ rest) =
    let tail = until_nul rest in if c == 0 then accepted [] else (tail >>= λ cs. accepted (c ∷ cs))

-- The characters of the C string at an offset.
unfoldable pub c_string : List ℕ → ℕ → Result (List ℕ)
unfolding until_nul
c_string image at = until_nul (drop at image)

-- `!strcmp(a, b)`
unfoldable pub same : List ℕ → List ℕ → Bool
same [] [] = true
same [] (y ∷ ys) = false
same (x ∷ xs) [] = false
same (x ∷ xs) (y ∷ ys) = x == y && same xs ys

unfoldable pub nl_resolve : List Export → List ℕ → List ℕ → Option ℕ
unfolding same
nl_resolve [] dll name = none
nl_resolve (e ∷ rest) dll name =
    let later = nl_resolve rest dll name in
    if same e.dll dll && same e.name name then some e.func else later

-- What stands before the last dot, if there is one.
unfoldable pub before_last_dot : List ℕ → Option (List ℕ)
before_last_dot [] = none
before_last_dot (c ∷ rest) = elim (before_last_dot rest) [
  | some before ↦ some (c ∷ before)
  | none ↦ if c == b'.' then some [] else none
]

-- `dllbase`: the name without its suffix, in a buffer of 64 bytes.
unfoldable pub dll_base : List ℕ → List ℕ
unfolding before_last_dot
dll_base dll = elim (before_last_dot (take 63 dll)) [ some before ↦ before | none ↦ take 63 dll ]

-- `"%03u"`
unfoldable pub padded : List ℕ → List ℕ
padded digits = replicate (3 - length digits) b'0' ++ digits

-- `sprintf(impname, "ord_%03u", ...)` for the low 32 bits of a thunk.
unfoldable pub ordinal_name : ℕ → List ℕ
unfolding padded
ordinal_name name = b'o' ∷ b'r' ∷ b'd' ∷ b'_' ∷ padded (numeral (name % 2 ^ 32))

unfoldable pub import_name : List ℕ → ℕ → Result (List ℕ)
unfolding ordinal_name c_string
import_name image name =
    if leb (2 ^ 63) name then accepted (ordinal_name name) else c_string image (2 + name % 2 ^ 32)

unfoldable pub bind_import : List Export → List ℕ → List ℕ → ℕ → ℕ → Result Import
unfolding import_name nl_resolve dll_base
bind_import table image dll name addr = import_name image name >>= λ impname. accepted (record {
  fname = dll ++ (b'!' ∷ impname);
  api_addr = nl_resolve table (dll_base dll) impname;
  thunk = addr;
})

-- The loop over the functions of a library. `*names` is read before the place is checked.
unfoldable pub bind_names : ℕ → List Export → List ℕ → List ℕ → ℕ → ℕ → Result (List Import)
unfolding read64 require is_contained bind_import
bind_names zero table image dll names addrs = stuck
bind_names (suc fuel) table image dll names addrs =
    let rest = bind_names fuel table image dll (names + 8) (addrs + 8) in
    read64 image names >>= λ name.
    if name == 0
    then accepted []
    else (require (is_contained image names 8 && is_contained image addrs 8) thunk_out_of_image
        >>= λ _.
            (bind_import table image dll name addrs >>= λ i. (rest >>= λ is. accepted (i ∷ is))))

-- An import descriptor whose library has a name: its functions.
unfoldable pub bind_library : List Export → List ℕ → ℕ → ℕ → Result (List Import)
unfolding read32 require c_string bind_names
bind_library table image at dll_name = do
  orig_thunk ← read32 image at
  _ ← require (not (orig_thunk == 0)) borland_import
  thunk ← read32 image (at + 16)
  dll ← c_string image dll_name
  bind_names (suc (suc (length image))) table image dll orig_thunk thunk

-- The loop over the descriptors of 20 bytes. The size that is checked is that of a pointer.
unfoldable pub bind_libraries : ℕ → List Export → List ℕ → ℕ → ℕ → Result (List Import)
unfolding require is_contained read32 bind_library
bind_libraries zero table image at size = stuck
bind_libraries (suc fuel) table image at size =
    let later = bind_libraries fuel table image ((at + 20) % 2 ^ 32) (size - 20) in
    if ltb size 20
    then accepted []
    else (require (is_contained image at 8) descriptor_out_of_image >>= λ _.
        (read32 image (at + 12) >>= λ dll_name.
        if dll_name == 0
        then accepted []
        else (bind_library table image at dll_name >>= λ is.
            (later >>= λ more. accepted (is ++ more)))))

unfoldable pub bind_imports : List Export → OptionalHeader → List ℕ → Result (List Import)
unfolding bind_libraries
bind_imports table opt image =
    bind_libraries (suc opt.import_size) table image opt.import_rva opt.import_size
