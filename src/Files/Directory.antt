-- ===== src/Files/Directory.antt =====
-- libs/ntdll/io.c: the directory of the devices, its one entry, and the link that this names.
use nloader.Base.{
  ℕ, ◌+◌, ◌-◌, ◌≤◌, ◌<◌, ◌≡◌, inl, inr, refl, Bool, true, false, Option, none, some, List, [], ◌∷◌,
  ◌++◌, arith, length, replicate, ltb, if◌then◌else◌, Bool-cases,
}
use nloader.Registry.{codes, wide_bytes, starts_ignoring_case}
use nloader.Controls.{le16, le64, Field, fill}
use nloader.Controls.Writes.{Fits, SameBehind, fill-SameBehind, fill-none}
use nloader.Files.Open.{volume_prefix}

pub data Status : Type 0 where
  success : Status
  access_violation : Status
  invalid_parameter : Status
  not_implemented : Status
  no_more_entries : Status
  object_name_not_found : Status

-- What a handle points to: nothing, a directory, a link, or another object.
pub data Handle : Type 0 where
  null : Handle
  directory : Handle
  link : Handle
  other_object : Handle

-- `NtOpenSymbolicLinkObject`
unfoldable pub open_symbolic_link_object : List ℕ → Status × Handle
unfolding starts_ignoring_case
open_symbolic_link_object name =
    if starts_ignoring_case volume_prefix name
    then (success, link)
    else (object_name_not_found, null)

-- `dirinfo_name` and `dirinfo_type` with their terminators.
abbrev pub entry_name : List ℕ
entry_name = wide_bytes (codes "Volume{X}" ++ (0 ∷ []))

abbrev pub entry_type : List ℕ
entry_type = wide_bytes (codes "SymbolicLink" ++ (0 ∷ []))

-- `RtlInitUnicodeString` on a field, for text of `n` bytes with its terminator.
unfoldable pub string_fields : ℕ → ℕ → ℕ → List Field
string_fields at n address = (at, le16 (n - 2)) ∷ (at + 2, le16 n) ∷ (at + 8, le64 address) ∷ []

-- What is written into a buffer at an address of the guest.
unfoldable pub entry_fields : ℕ → List Field
unfolding string_fields
entry_fields address =
    (32, replicate 32 0)
    ∷ (64, entry_name)
    ∷ (string_fields 0 20 (address + 64) ++ ((84, entry_type) ∷ string_fields 16 26 (address + 84)))

-- What the call leaves: its status, whether an entry was given (`count`), the buffer, and the length.
pub record Listing : Type 0 where
  pub status : Status
  pub given : Bool
  pub buffer : List ℕ
  pub return_length : Option ℕ

-- `NtQueryDirectoryObject`; the buffer has an address, and its size is not looked at. `none` is a
-- write behind it.
unfoldable pub query_directory_object : Handle → Bool → Bool → ℕ → List ℕ → Option Listing
unfolding fill
query_directory_object null single given address buffer =
    some
      (record { status = access_violation; given = given; buffer = buffer; return_length = none })
query_directory_object directory false given address buffer =
    some (record { status = not_implemented; given = given; buffer = buffer; return_length = none })
query_directory_object directory true true address buffer =
    some (record { status = no_more_entries; given = false; buffer = buffer; return_length = none })
query_directory_object directory true false address buffer =
    elim (fill (entry_fields address) buffer) [
      | none ↦ none
      | some buffer' ↦
          some
            (record { status = success; given = true; buffer = buffer'; return_length = some 110 })
    ]
query_directory_object link single given address buffer =
    some
      (record { status = invalid_parameter; given = given; buffer = buffer; return_length = none })
query_directory_object other_object single given address buffer =
    some
      (record { status = invalid_parameter; given = given; buffer = buffer; return_length = none })

entry_fields-Fits : (address : ℕ) → Fits 110 (entry_fields address)
unfolding entry_fields string_fields le16 le64
entry_fields-Fits address = omega arith

-- How a call for a single entry ends that starts an enumeration.
pub data Listed (address : ℕ) (buffer : List ℕ) (result : Option Listing) : Type 0 where
  behind : length buffer < 110 → result ≡ none → Listed address buffer result
  listed :
      (buffer' : List ℕ)
      → 110 ≤ length buffer
      → SameBehind 110 buffer buffer'
      → result
        ≡ some
            (record { status = success; given = true; buffer = buffer'; return_length = some 110 })
      → Listed address buffer result

entry_fields-none :
    (address : ℕ) (buffer : List ℕ)
    → length buffer < 110
    → fill (entry_fields address) buffer ≡ none
unfolding entry_fields string_fields
entry_fields-none address buffer h =
    fill-none ((32, replicate 32 0) ∷ (64, entry_name) ∷ string_fields 0 20 (address + 64)) 84
      entry_type (string_fields 16 26 (address + 84)) buffer (omega (arith, h))

-- An enumeration of the directory gives its one entry, in 110 bytes of the buffer, and the next call
-- ends it with the buffer as it is and starts anew; but the entry is written whatever the size of the
-- buffer, and behind one of less than 110 bytes.
pub query_directory_object-Listed :
    (address : ℕ) (buffer : List ℕ)
    → Listed address buffer (query_directory_object directory true false address buffer)
      × (query_directory_object directory true true address buffer
          ≡ some (record {
            status = no_more_entries;
            given = false;
            buffer = buffer;
            return_length = none;
          }))
unfolding query_directory_object
query_directory_object-Listed address buffer = (
  elim (Bool-cases (ltb (length buffer) 110)) [
    | inl l ↦
        let short : length buffer < 110 = ground arith in
        behind short (rw (query_directory_object, entry_fields-none address buffer short) refl)
    | inr l ↦
        let room : 110 ≤ length buffer = ground arith in
        let (buffer', e, same) =
          fill-SameBehind 110 (entry_fields address) buffer (entry_fields-Fits address) room in
        listed buffer' room same (rw (query_directory_object, e) refl)
  ],
  refl,
)
