-- ===== src/Controls.antt =====
-- libs/ntdll/ioctl.c: what the queries and controls of a file write into the buffer of the guest. A
-- buffer is the list of its bytes from the pointer to the end of its object, apart from the size
-- that the guest gives for it; a structure is written field by field, at the offsets of x86_64.
pub mod Disk
pub mod Info
pub mod Writes
pub mod Fits
pub mod Layout
pub mod Queries
use nloader.Base.{
  ℕ, ◌+◌, ◌*◌, ◌/◌, ◌%◌, ◌^◌, Option, none, some, List, [], ◌∷◌, ◌++◌, map, ltb, leb, if◌then◌else◌,
  length, take, drop,
}
use nloader.Registry.{le32}

pub data Status : Type 0 where
  success : Status
  access_violation : Status
  invalid_parameter : Status
  buffer_too_small : Status
  not_implemented : Status
  invalid_device_request : Status

pub record StatusBlock : Type 0 where
  pub status : Status
  pub information : ℕ

-- `HANDLE` of a file, the fields of its `struct stat` that are read.
pub record File : Type 0 where
  pub mode : ℕ
  pub size : ℕ
  pub blocks : ℕ
  pub nlink : ℕ
  pub mtime : ℕ
  pub ctime : ℕ
  pub atime : ℕ

-- What a handle points to: nothing, an object of another type or without the cookie, or a file.
pub data Handle : Type 0 where
  null : Handle
  not_a_file : Handle
  file : File → Handle

-- What a call leaves and returns; a null pointer to a status block is `none`.
pub record Reply : Type 0 where
  pub status : Status
  pub block : Option StatusBlock
  pub output : List ℕ

-- `fault` is a write behind the buffer, `aborted` the end of the program.
pub data Outcome : Type 0 where
  done : Reply → Outcome
  fault : Outcome
  aborted : Outcome

unfoldable pub le16 : ℕ → List ℕ
le16 v = (v % 256) ∷ (v / 256 % 256) ∷ []

unfoldable pub le64 : ℕ → List ℕ
unfolding le32
le64 v = le32 v ++ le32 (v / 2 ^ 32)

-- The bytes of a field, or of a `memset`, at an offset.
abbrev pub Field : Type 0
Field = ℕ × List ℕ

abbrev pub shifted : ℕ → List Field → List Field
shifted base fields = map (λ (f : Field). (base + f.0, f.1)) fields

unfoldable pub write_at : ℕ → List ℕ → List ℕ → Option (List ℕ)
write_at i bytes buffer =
    if leb (i + length bytes) (length buffer)
    then some (take i buffer ++ (bytes ++ drop (i + length bytes) buffer))
    else none

unfoldable pub fill : List Field → List ℕ → Option (List ℕ)
unfolding write_at
fill [] buffer = some buffer
fill ((i, bytes) ∷ rest) buffer = elim (write_at i bytes buffer) [
  | none ↦ none
  | some buffer' ↦ fill rest buffer'
]

-- `CHECK_HANDLE` for a file, and `CHECK_POINTER` for the status block.
unfoldable pub checked :
    Handle → Option StatusBlock → List ℕ → (File → StatusBlock → Outcome) → Outcome
checked null block output next =
    done (record { status = access_violation; block = block; output = output })
checked not_a_file block output next =
    done (record { status = invalid_parameter; block = block; output = output })
checked (file f) none output next =
    done (record { status = access_violation; block = none; output = output })
checked (file f) (some b) output next = next f b

-- A status alone, and a status with the size of what was written.
unfoldable pub report : Status → StatusBlock → List ℕ → Outcome
report status b output =
    done (record { status = status; block = some (record b { status = status }); output = output })

unfoldable pub succeed : ℕ → List ℕ → Outcome
succeed n output = done (record {
  status = success;
  block = some (record { status = success; information = n });
  output = output;
})

-- The check of the size of a structure of `n` bytes, its fields, and its size as the information.
unfoldable pub answer : ℕ → List Field → ℕ → StatusBlock → List ℕ → Outcome
unfolding fill report succeed
answer n fields room b output =
    if ltb room n
    then report buffer_too_small b output
    else elim (fill fields output) [ none ↦ fault | some output' ↦ succeed n output' ]
