-- ===== src/Files/Open.antt =====
-- libs/ntdll/io.c: `unix_open`, which says what a path of the guest stands for, and `NtCreateFile`.
-- A path is the list of its characters. `mtab` has the lines of /etc/mtab as `fgets` gives them, or
-- is `none` if it cannot be opened.
use nloader.Base.{
  ℕ, ◌+◌, ◌-◌, ◌/◌, ◌%◌, ◌^◌, Bool, true, false, ◌&&◌, ◌||◌, Option, none, some, List, [], ◌∷◌,
  ◌==◌, if◌then◌else◌, length, take, drop, get_or,
}
use nloader.Registry.{codes, same_ignoring_case, starts_ignoring_case}
use nloader.Events.{Status, success, object_name_not_found, StatusBlock}
use nloader.Files.{File}

-- `DesiredAccess & flag`, for the flag of one bit.
abbrev pub asks : ℕ → ℕ → Bool
asks access k = access / 2 ^ k % 2 == 1

-- `ntflags_unix`; the flags have a bit each.
unfoldable pub ntflags_unix : ℕ → ℕ
ntflags_unix access =
    (if asks access 2 then 1024 else 0)
    + (if asks access 17 then 64 else 0)
    + (if asks access 8 || (asks access 1 || asks access 30) then 2 else 0)

pub data Mounted : Type 0 where
  mounted : Mounted
  not_mounted : Mounted
  mount_error : Mounted

-- A line up to the first blank or tab.
unfoldable pub first_word : List ℕ → List ℕ
first_word [] = []
first_word (c ∷ line) = let rest = first_word line in if c == b' ' || c == 9 then [] else c ∷ rest

-- `!strcmp`
unfoldable pub same_text : List ℕ → List ℕ → Bool
same_text [] [] = true
same_text [] (y ∷ ys) = false
same_text (x ∷ xs) [] = false
same_text (x ∷ xs) (y ∷ ys) = x == y && same_text xs ys

-- The loop of `is_mounted` over the lines, behind `lines` of them.
unfoldable pub scan_mounts : List ℕ → ℕ → List (List ℕ) → Mounted
unfolding first_word same_text
scan_mounts device lines [] = if lines == 0 then mount_error else not_mounted
scan_mounts device lines (line ∷ rest) =
    let later = scan_mounts device (lines + 1) rest in
    if same_text device (first_word line) then mounted else later

unfoldable pub is_mounted : List ℕ → Option (List (List ℕ)) → Mounted
unfolding scan_mounts
is_mounted device none = mount_error
is_mounted device (some lines) = scan_mounts device 0 lines

-- `strcasestr`
unfoldable pub has_ignoring_case : List ℕ → List ℕ → Bool
unfolding starts_ignoring_case
has_ignoring_case [] needle = starts_ignoring_case needle []
has_ignoring_case (c ∷ text) needle =
    starts_ignoring_case needle (c ∷ text) || has_ignoring_case text needle

-- A file of the host to open, one that is open, an error, or a write in front of a buffer.
pub data Opening : Type 0 where
  opens : List ℕ → Opening
  stands_for : ℕ → Opening
  refused : Opening
  fault : Opening

abbrev pub volume_prefix : List ℕ
volume_prefix = codes "Volume{"

abbrev pub keyboard_prefix : List ℕ
keyboard_prefix = codes "\\Device\\KeyboardClass"

-- A device is opened if it is not mounted.
unfoldable pub open_device : List ℕ → Option (List (List ℕ)) → Opening
open_device device mtab = elim (is_mounted device mtab) [
  | not_mounted ↦ opens device
  | mounted ↦ refused
  | mount_error ↦ refused
]

-- The device between `Volume{` and the last character.
unfoldable pub open_volume : List ℕ → Option (List (List ℕ)) → Opening
unfolding open_device
open_volume path mtab =
    if get_or path (length path - 1) 0 == b'\\'
    then refused
    else if length path == 7
    then fault
    else open_device (take (length path - 8) (drop 7 path)) mtab

unfoldable pub open_keyboard : List ℕ → Opening
open_keyboard path =
    if length path == 22 && (get_or path 21 0 == b'0' || get_or path 21 0 == b'1')
    then stands_for 0
    else refused

unfoldable pub unix_open : List ℕ → ℕ → Option (List (List ℕ)) → Opening
unfolding has_ignoring_case starts_ignoring_case same_ignoring_case open_volume open_keyboard
unix_open path flags mtab =
    if has_ignoring_case path (codes "BOOTEX.LOG")
    then opens (codes "/dev/null")
    else if starts_ignoring_case volume_prefix path
    then open_volume path mtab
    else if same_ignoring_case path (codes "\\??\\Volume{X}\\")
    then opens (codes "disk.img")
    else if same_ignoring_case path (codes "disk.img")
    then opens (codes "disk.img")
    else if starts_ignoring_case keyboard_prefix path
    then open_keyboard path
    else if starts_ignoring_case (codes "\\Device\\Mailslot") path
    then stands_for 1
    else if flags == 0
    then opens path
    else refused

-- `struct stat`, as far as it is read.
pub record Stat : Type 0 where
  pub is_block_device : Bool
  pub size : ℕ

-- `open`, `fstat` and `ioctl` of `BLKGETSIZE64`; `none` is an error.
pub record Opener (S : Type 0) : Type 0 where
  pub open_file : List ℕ → ℕ → S → Option ℕ × S
  pub fstat : ℕ → S → Option Stat
  pub block_size : ℕ → S → Option ℕ

module _ {S : Type 0} (opener : Opener S) where
  -- The descriptor, as the path says; `none` is the fault.
  unfoldable pub open_as : Opening → ℕ → S → Option (Option ℕ × S)
  open_as (opens path) flags s = some (opener.open_file path flags s)
  open_as (stands_for fd) flags s = some (some fd, s)
  open_as refused flags s = some (none, s)
  open_as fault flags s = none

  unfoldable pub size_of : ℕ → Stat → S → ℕ
  size_of fd st s =
      if st.is_block_device
      then elim (opener.block_size fd s) [ none ↦ 0 | some n ↦ n ]
      else st.size

  -- What `NtCreateFile` returns, the new file, and the status block.
  abbrev pub Created : Type 0
  Created = Status × Option File × StatusBlock × S

  unfoldable pub created : Option ℕ → S → StatusBlock → Created
  unfolding size_of
  created none s b =
      (object_name_not_found, none, record { information = 5; status = object_name_not_found }, s)
  created (some fd) s b = elim (opener.fstat fd s) [
    | none ↦
        (object_name_not_found, none, record { information = 5; status = object_name_not_found }, s)
    | some st ↦ (
      success,
      some (record { descriptor = some fd; size = size_of fd st s }),
      record { information = 2; status = success },
      s,
    )
  ]

  -- `NtCreateFile` with pointers to a handle and to a status block, for a name of less than 1024
  -- characters.
  unfoldable pub create_file :
      List ℕ → ℕ → Option (List (List ℕ)) → StatusBlock → S → Option Created
  unfolding unix_open ntflags_unix open_as created
  create_file path access mtab b s =
      elim (open_as (unix_open path (ntflags_unix access) mtab) (ntflags_unix access) s) [
        | none ↦ none
        | some (fd, s') ↦ some (created fd s' b)
      ]
