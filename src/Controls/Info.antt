-- ===== src/Controls/Info.antt =====
-- libs/ntdll/ioctl.c: the queries of a file and its volume, and `NtFsControlFile`.
use nloader.Base.{
  ℕ, ◌+◌, ◌*◌, ◌/◌, ◌%◌, ◌^◌, Bool, Option, List, [], ◌∷◌, ◌++◌, ltb, ◌==◌, ◌||◌, if◌then◌else◌,
}
use nloader.Registry.{le32}
use nloader.Rtl.{seconds_since_1970_to_time}
use nloader.Controls.{
  success, buffer_too_small, not_implemented, invalid_device_request, StatusBlock, File, Handle,
  Outcome, le64, Field, checked, report, answer,
}

pub data FileClass : Type 0 where
  alignment : FileClass
  basic : FileClass
  standard : FileClass
  other_class : FileClass

abbrev pub bit : ℕ → ℕ → Bool
bit mode k = mode / 2 ^ k % 2 == 1

-- `S_ISDIR`
unfoldable pub is_dir : File → Bool
is_dir f = f.mode / 4096 % 16 == 4

-- A file that nobody can write is read-only.
unfoldable pub attributes : File → ℕ
unfolding is_dir
attributes f =
    (if is_dir f then 16 else 32)
    + (if bit f.mode 7 || (bit f.mode 4 || bit f.mode 1) then 0 else 1)

unfoldable pub time_fields : ℕ → ℕ → List Field
unfolding seconds_since_1970_to_time
time_fields at seconds =
    let t = seconds_since_1970_to_time (seconds % 2 ^ 32) in
    (at, le32 t.0) ∷ (at + 4, le32 t.1) ∷ []

unfoldable pub basic_fields : File → List Field
unfolding attributes time_fields
basic_fields f =
    (32, le32 (attributes f))
    ∷ (time_fields 0 f.mtime
        ++ (time_fields 16 f.mtime ++ (time_fields 24 f.ctime ++ time_fields 8 f.atime)))

unfoldable pub standard_fields : File → List Field
unfolding is_dir
standard_fields f =
    if is_dir f
    then (21, 1 ∷ []) ∷ (0, le64 0) ∷ (8, le64 0) ∷ (16, le32 1) ∷ []
    else (21, 0 ∷ []) ∷ (8, le64 f.size) ∷ (0, le64 (f.blocks * 512)) ∷ (16, le32 f.nlink) ∷ []

unfoldable pub query_class : FileClass → File → ℕ → StatusBlock → List ℕ → Outcome
unfolding answer report basic_fields standard_fields
query_class alignment f room b output = answer 4 ((0, le32 0) ∷ []) room b output
query_class basic f room b output = answer 40 (basic_fields f) room b output
query_class standard f room b output = answer 24 (standard_fields f) room b output
query_class other_class f room b output = report not_implemented b output

unfoldable pub query_information_file :
    Handle → Option StatusBlock → FileClass → ℕ → List ℕ → Outcome
unfolding checked query_class
query_information_file handle block class room output =
    checked handle block output (λ f b. query_class class f room b output)

unfoldable pub set_class : FileClass → ℕ → StatusBlock → List ℕ → Outcome
unfolding report
set_class basic room b buffer =
    if ltb room 40 then report buffer_too_small b buffer else report success b buffer
set_class alignment room b buffer = report not_implemented b buffer
set_class standard room b buffer = report not_implemented b buffer
set_class other_class room b buffer = report not_implemented b buffer

unfoldable pub set_information_file : Handle → Option StatusBlock → FileClass → ℕ → List ℕ → Outcome
unfolding checked set_class
set_information_file handle block class room buffer =
    checked handle block buffer (λ f b. set_class class room b buffer)

pub data VolumeClass : Type 0 where
  device : VolumeClass
  other_volume_class : VolumeClass

unfoldable pub volume_class : VolumeClass → ℕ → StatusBlock → List ℕ → Outcome
unfolding answer report
volume_class device room b output = answer 8 ((0, le32 7) ∷ (4, le32 0) ∷ []) room b output
volume_class other_volume_class room b output = report not_implemented b output

unfoldable pub query_volume_information_file :
    Handle → Option StatusBlock → VolumeClass → ℕ → List ℕ → Outcome
unfolding checked volume_class
query_volume_information_file handle block class room output =
    checked handle block output (λ f b. volume_class class room b output)

pub data FsControl : Type 0 where
  lock_volume : FsControl
  unlock_volume : FsControl
  dismount_volume : FsControl
  get_retrieval_pointers : FsControl
  is_volume_dirty : FsControl
  allow_extended_dasd_io : FsControl
  query_dependent_volume : FsControl
  other_fs_control : FsControl

unfoldable pub fs_control : FsControl → ℕ → StatusBlock → List ℕ → Outcome
unfolding answer report
fs_control lock_volume room b output = report success b output
fs_control unlock_volume room b output = report success b output
fs_control dismount_volume room b output = report success b output
fs_control get_retrieval_pointers room b output = report not_implemented b output
fs_control is_volume_dirty room b output = answer 4 ((0, le32 1) ∷ []) room b output
fs_control allow_extended_dasd_io room b output = report success b output
fs_control query_dependent_volume room b output = report invalid_device_request b output
fs_control other_fs_control room b output = report invalid_device_request b output

unfoldable pub fs_control_file : Handle → Option StatusBlock → FsControl → ℕ → List ℕ → Outcome
unfolding checked fs_control
fs_control_file handle block code room output =
    checked handle block output (λ f b. fs_control code room b output)
