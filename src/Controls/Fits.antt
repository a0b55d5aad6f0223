-- ===== src/Controls/Fits.antt =====
-- libs/ntdll/ioctl.c: what the controls leave of the buffer of the guest.
use nloader.Base.{
  ℕ, ◌≤◌, ◌≡◌, refl, Bool, true, false, List, [], ◌∷◌, arith, length, ltb, Bool-cases, inl, inr,
}
use nloader.Registry.{le32}
use nloader.Controls.{
  Status, success, invalid_parameter, buffer_too_small, not_implemented, StatusBlock, File, Outcome,
  Field, le16, le64, report, succeed, answer,
}
use nloader.Controls.Disk.{
  Property, adapter, access_alignment, other_property, Control, get_device_number, get_hotplug_info,
  query_property, set_indicators, query_indicators, is_writable, verify, get_partition_info,
  set_partition_info, get_partition_info_ex, get_drive_layout, get_drive_layout_ex, get_length_info,
  get_drive_geometry, query_device_name, get_media_types, other_control, Geometry, geometry_of,
  geometry_fields, Partition, partition_of, partition_ex_fields, partition_fields, adapter_fields,
  storage_query_property, drive_geometry, control, system_partition,
}
use nloader.Controls.Writes.{Fits, SameBehind, fill-SameBehind}

-- How a control ends that does not end the program: with a status alone; with a structure of `n`
-- bytes; or with the geometry of a disk that is too small.
pub data Answered (b : StatusBlock) (buffer : List ℕ) (result : Outcome) : Type 0 where
  reported : (s : Status) → result ≡ report s b buffer → Answered b buffer result
  written :
      (n : ℕ) (output : List ℕ)
      → n ≤ length buffer
      → SameBehind n buffer output
      → result ≡ succeed n output
      → Answered b buffer result
  refused :
      (output : List ℕ)
      → 24 ≤ length buffer
      → SameBehind 24 buffer output
      → result ≡ report invalid_parameter b output
      → Answered b buffer result

pub answer-Answered :
    (n : ℕ) (fields : List Field) (b : StatusBlock) (buffer : List ℕ)
    → Fits n fields
    → Answered b buffer (answer n fields (length buffer) b buffer)
unfolding answer
answer-Answered n fields b buffer h = elim (Bool-cases (ltb (length buffer) n)) [
  | inl l ↦ reported buffer_too_small (rw l refl)
  | inr l ↦
      let room : n ≤ length buffer = ground arith in
      let (output, e, same) = fill-SameBehind n fields buffer h room in
      written n output room same (rw (l, e) refl)
]

pub partition_fields-Fits : (p : Partition) → Fits 32 (partition_fields p)
unfolding partition_fields le64 le32
partition_fields-Fits p = omega arith

pub partition_ex_fields-Fits : (p : Partition) → Fits 144 (partition_ex_fields p)
unfolding partition_ex_fields le64 le32
partition_ex_fields-Fits p = omega arith

pub geometry_fields-Fits : (g : Geometry) → Fits 24 (geometry_fields g)
unfolding geometry_fields le64 le32
geometry_fields-Fits g = omega arith

adapter_fields-Fits : Fits 32 adapter_fields
unfolding adapter_fields le32 le16
adapter_fields-Fits = omega arith

drive_geometry-Answered :
    (f : File) (b : StatusBlock) (buffer : List ℕ)
    → Answered b buffer (drive_geometry f (length buffer) b buffer)
unfolding drive_geometry
drive_geometry-Answered f b buffer = elim (Bool-cases (ltb (length buffer) 24)) [
  | inl l ↦ reported buffer_too_small (rw l refl)
  | inr l ↦
      let room : 24 ≤ length buffer = ground arith in
      let (output, e, same) =
        fill-SameBehind 24 (geometry_fields (geometry_of f)) buffer
          (geometry_fields-Fits (geometry_of f)) room in
      elim (Bool-cases (ltb (geometry_of f).cylinders 2)) [
        | inl small ↦ refused output room same (rw (l, e, small) refl)
        | inr large ↦ written 24 output room same (rw (l, e, large) refl)
      ]
]

storage_query_property-Answered :
    (p : Property) (standard : Bool) (b : StatusBlock) (buffer : List ℕ)
    → Answered b buffer (storage_query_property p standard (length buffer) b buffer)
unfolding storage_query_property
storage_query_property-Answered p false b buffer = reported not_implemented refl
storage_query_property-Answered adapter true b buffer =
    answer-Answered 32 adapter_fields b buffer adapter_fields-Fits
storage_query_property-Answered access_alignment true b buffer =
    elim (Bool-cases (ltb (length buffer) 28)) [
      | inl l ↦ reported buffer_too_small (rw l refl)
      | inr l ↦ reported not_implemented (rw l refl)
    ]
storage_query_property-Answered other_property true b buffer = reported not_implemented refl

-- The controls that are known, but for the two layouts.
abbrev pub IsSized : Control → Type 0
IsSized get_drive_layout = ⊥
IsSized get_drive_layout_ex = ⊥
IsSized other_control = ⊥
IsSized _ = Unit

-- A control that is known, other than the two layouts of a drive, writes nothing behind the buffer
-- whose size it is given, on every branch: it returns a status and leaves the buffer; it returns
-- success with the size of a structure that fits, and the bytes behind that are as they were; or it
-- refuses the geometry of a disk that is too small.
pub control-Answered :
    (c : Control) (f : File) (b : StatusBlock) (buffer : List ℕ)
    → IsSized c
    → Answered b buffer (control c f (length buffer) b buffer)
unfolding control
control-Answered get_device_number f b buffer h =
    answer-Answered 12 ((0, le32 7) ∷ (4, le32 1) ∷ (8, le32 1) ∷ []) b buffer
      (unfold le32 in omega arith)
control-Answered get_hotplug_info f b buffer h =
    answer-Answered 8 ((0, le32 8) ∷ (4, 1 ∷ 0 ∷ 1 ∷ 0 ∷ []) ∷ []) b buffer
      (unfold le32 in omega arith)
control-Answered (query_property p standard) f b buffer h =
    storage_query_property-Answered p standard b buffer
control-Answered set_indicators f b buffer h = reported success refl
control-Answered query_indicators f b buffer h =
    answer-Answered 4 ((0, le16 0) ∷ (2, le16 0) ∷ []) b buffer (unfold le16 in omega arith)
control-Answered is_writable f b buffer h = reported success refl
control-Answered verify f b buffer h = written 0 buffer (omega arith) (refl, refl) refl
control-Answered get_partition_info f b buffer h =
    answer-Answered 32 (partition_fields (partition_of f)) b buffer
      (partition_fields-Fits (partition_of f))
control-Answered set_partition_info f b buffer h = written 0 buffer (omega arith) (refl, refl) refl
control-Answered get_partition_info_ex f b buffer h =
    answer-Answered 144 (partition_ex_fields (partition_of f)) b buffer
      (partition_ex_fields-Fits (partition_of f))
control-Answered get_drive_layout f b buffer h = absurd h
control-Answered get_drive_layout_ex f b buffer h = absurd h
control-Answered get_length_info f b buffer h =
    answer-Answered 8 ((0, le64 f.size) ∷ []) b buffer (unfold le64 le32 in omega arith)
control-Answered get_drive_geometry f b buffer h = drive_geometry-Answered f b buffer
control-Answered query_device_name f b buffer h =
    answer-Answered 40 ((2, system_partition) ∷ (0, le16 36) ∷ []) b buffer
      (unfold le16 in omega arith)
control-Answered get_media_types f b buffer h = reported not_implemented refl
control-Answered other_control f b buffer h = absurd h
