-- ===== src/Controls/Queries.antt =====
-- libs/ntdll/ioctl.c: what the queries of a file and its volume leave of the buffer of the guest.
use nloader.Base.{ℕ, refl, List, [], ◌∷◌, arith, length, Bool-cases, inl, inr}
use nloader.Registry.{le32}
use nloader.Controls.{success, not_implemented, invalid_device_request, StatusBlock, File, le64}
use nloader.Controls.Writes.{Fits}
use nloader.Controls.Fits.{Answered, reported, answer-Answered}
use nloader.Controls.Info.{
  FileClass, alignment, basic, standard, other_class, is_dir, time_fields, basic_fields,
  standard_fields, query_class, VolumeClass, device, other_volume_class, volume_class, FsControl,
  lock_volume, unlock_volume, dismount_volume, get_retrieval_pointers, is_volume_dirty,
  allow_extended_dasd_io, query_dependent_volume, other_fs_control, fs_control,
}

basic_fields-Fits : (f : File) → Fits 40 (basic_fields f)
unfolding basic_fields time_fields le32
basic_fields-Fits f = omega arith

standard_fields-Fits : (f : File) → Fits 24 (standard_fields f)
unfolding standard_fields le64 le32
standard_fields-Fits f = elim (Bool-cases (is_dir f)) [
  | inl e ↦ rw e (omega arith)
  | inr e ↦ rw e (omega arith)
]

file_class-Answered :
    (c : FileClass) (f : File) (b : StatusBlock) (buffer : List ℕ)
    → Answered b buffer (query_class c f (length buffer) b buffer)
unfolding query_class
file_class-Answered alignment f b buffer =
    answer-Answered 4 ((0, le32 0) ∷ []) b buffer (unfold le32 in omega arith)
file_class-Answered basic f b buffer =
    answer-Answered 40 (basic_fields f) b buffer (basic_fields-Fits f)
file_class-Answered standard f b buffer =
    answer-Answered 24 (standard_fields f) b buffer (standard_fields-Fits f)
file_class-Answered other_class f b buffer = reported not_implemented refl

volume_class-Answered :
    (v : VolumeClass) (b : StatusBlock) (buffer : List ℕ)
    → Answered b buffer (volume_class v (length buffer) b buffer)
unfolding volume_class
volume_class-Answered device b buffer =
    answer-Answered 8 ((0, le32 7) ∷ (4, le32 0) ∷ []) b buffer (unfold le32 in omega arith)
volume_class-Answered other_volume_class b buffer = reported not_implemented refl

fs_control-Answered :
    (k : FsControl) (b : StatusBlock) (buffer : List ℕ)
    → Answered b buffer (fs_control k (length buffer) b buffer)
unfolding fs_control
fs_control-Answered lock_volume b buffer = reported success refl
fs_control-Answered unlock_volume b buffer = reported success refl
fs_control-Answered dismount_volume b buffer = reported success refl
fs_control-Answered get_retrieval_pointers b buffer = reported not_implemented refl
fs_control-Answered is_volume_dirty b buffer =
    answer-Answered 4 ((0, le32 1) ∷ []) b buffer (unfold le32 in omega arith)
fs_control-Answered allow_extended_dasd_io b buffer = reported success refl
fs_control-Answered query_dependent_volume b buffer = reported invalid_device_request refl
fs_control-Answered other_fs_control b buffer = reported invalid_device_request refl

-- A query of a file, of its volume, or a control of its file system writes nothing behind the buffer
-- whose size it is given, on every branch: it returns a status and leaves the buffer, or returns
-- success with the size of a structure that fits, and the bytes behind that are as they were.
pub query_class-Answered :
    (c : FileClass) (v : VolumeClass) (k : FsControl) (f : File) (b : StatusBlock) (buffer : List ℕ)
    → Answered b buffer (query_class c f (length buffer) b buffer)
      × Answered b buffer (volume_class v (length buffer) b buffer)
      × Answered b buffer (fs_control k (length buffer) b buffer)
query_class-Answered c v k f b buffer = (
  file_class-Answered c f b buffer,
  volume_class-Answered v b buffer,
  fs_control-Answered k b buffer,
)
