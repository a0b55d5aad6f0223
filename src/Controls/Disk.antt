-- ===== src/Controls/Disk.antt =====
-- libs/ntdll/ioctl.c: `NtDeviceIoControlFile`, with `StorageQueryProperty`.
use nloader.Base.{
  ℕ, ◌+◌, ◌*◌, ◌/◌, Bool, true, false, Option, none, some, List, [], ◌∷◌, ◌++◌, ltb, if◌then◌else◌,
  replicate,
}
use nloader.Registry.{codes, wide_bytes, le32}
use nloader.Controls.{
  Status, success, invalid_parameter, not_implemented, StatusBlock, File, Handle, Outcome, fault,
  aborted, le16, le64, Field, shifted, fill, checked, report, succeed, answer,
}

-- `STORAGE_PROPERTY_ID`
pub data Property : Type 0 where
  adapter : Property
  access_alignment : Property
  other_property : Property

-- The control codes, with what is read of their input: for a property whether the query is
-- `PropertyStandardQuery`.
pub data Control : Type 0 where
  get_device_number : Control
  get_hotplug_info : Control
  query_property : Property → Bool → Control
  set_indicators : Control
  query_indicators : Control
  is_writable : Control
  verify : Control
  get_partition_info : Control
  set_partition_info : Control
  get_partition_info_ex : Control
  get_drive_layout : Control
  get_drive_layout_ex : Control
  get_length_info : Control
  get_drive_geometry : Control
  query_device_name : Control
  get_media_types : Control
  other_control : Control

-- `DISK_GEOMETRY`
pub record Geometry : Type 0 where
  pub cylinders : ℕ
  pub media_type : ℕ
  pub tracks_per_cylinder : ℕ
  pub sectors_per_track : ℕ
  pub bytes_per_sector : ℕ

unfoldable pub geometry_of : File → Geometry
geometry_of f = record {
  cylinders = 1 + f.size / (255 * 63 * 512);
  media_type = 11;
  tracks_per_cylinder = 255;
  sectors_per_track = 63;
  bytes_per_sector = 512;
}

unfoldable pub geometry_fields : Geometry → List Field
geometry_fields g =
    (8, le32 g.media_type)
    ∷ (12, le32 g.tracks_per_cylinder)
    ∷ (16, le32 g.sectors_per_track)
    ∷ (20, le32 g.bytes_per_sector)
    ∷ (0, le64 g.cylinders)
    ∷ []

-- `PARTITION_INFORMATION_EX` with the fields of its `Mbr`.
pub record Partition : Type 0 where
  pub style : ℕ
  pub number : ℕ
  pub rewrite : ℕ
  pub type_of : ℕ
  pub boot_indicator : ℕ
  pub recognized : ℕ
  pub hidden_sectors : ℕ
  pub starting_offset : ℕ
  pub length_of : ℕ

-- The geometry that is asked for has its sectors whatever status it has.
unfoldable pub partition_of : File → Partition
unfolding geometry_of
partition_of f = record {
  style = 0;
  number = 1;
  rewrite = 0;
  type_of = 0;
  boot_indicator = 1;
  recognized = 0;
  hidden_sectors = 63;
  starting_offset = (geometry_of f).bytes_per_sector * 63;
  length_of = f.size;
}

unfoldable pub partition_ex_fields : Partition → List Field
partition_ex_fields p =
    (0, le32 p.style)
    ∷ (24, le32 p.number)
    ∷ (28, p.rewrite ∷ [])
    ∷ (32, p.type_of ∷ [])
    ∷ (33, p.boot_indicator ∷ [])
    ∷ (34, p.recognized ∷ [])
    ∷ (36, le32 p.hidden_sectors)
    ∷ (8, le64 p.starting_offset)
    ∷ (16, le64 p.length_of)
    ∷ []

unfoldable pub partition_fields : Partition → List Field
partition_fields p =
    (0, le64 p.starting_offset)
    ∷ (8, le64 p.length_of)
    ∷ (16, le32 p.hidden_sectors)
    ∷ (20, le32 p.number)
    ∷ (24, p.type_of ∷ [])
    ∷ (25, p.boot_indicator ∷ [])
    ∷ (26, p.recognized ∷ [])
    ∷ (27, p.rewrite ∷ [])
    ∷ []

-- The structures of the layouts end with one entry; the other three are behind them.
unfoldable pub layout_fields : Partition → List Field
unfolding partition_fields
layout_fields p =
    (0, replicate 40 0)
    ∷ (0, le32 4)
    ∷ (4, le32 0)
    ∷ (shifted 8 (partition_fields p) ++ ((40, replicate 96 0) ∷ []))

unfoldable pub layout_ex_fields : Partition → List Field
unfolding partition_ex_fields
layout_ex_fields p =
    (0, replicate 192 0)
    ∷ (0, le32 0)
    ∷ (4, le32 4)
    ∷ (8, le32 0)
    ∷ (shifted 48 (partition_ex_fields p) ++ ((192, replicate 432 0) ∷ []))

unfoldable pub adapter_fields : List Field
adapter_fields =
    (0, le32 32)
    ∷ (4, le32 32)
    ∷ (8, le32 65536)
    ∷ (12, le32 17)
    ∷ (16, le32 0)
    ∷ (20, 0 ∷ 0 ∷ 0 ∷ 0 ∷ 7 ∷ [])
    ∷ (26, le16 1)
    ∷ (28, le16 0)
    ∷ []

-- `systempartition`, with its terminator.
abbrev pub system_partition : List ℕ
system_partition = wide_bytes (codes "\\Device\\Harddisk1" ++ (0 ∷ []))

unfoldable pub storage_query_property : Property → Bool → ℕ → StatusBlock → List ℕ → Outcome
unfolding report answer adapter_fields
storage_query_property p false room b output = report not_implemented b output
storage_query_property adapter true room b output = answer 32 adapter_fields room b output
storage_query_property access_alignment true room b output =
    if ltb room 28 then report Status.buffer_too_small b output else report not_implemented b output
storage_query_property other_property true room b output = report not_implemented b output

-- A disk of less than a cylinder is refused when the structure is filled.
unfoldable pub drive_geometry : File → ℕ → StatusBlock → List ℕ → Outcome
unfolding report succeed fill geometry_of geometry_fields
drive_geometry f room b output =
    if ltb room 24
    then report Status.buffer_too_small b output
    else elim (fill (geometry_fields (geometry_of f)) output) [
      | none ↦ fault
      | some output' ↦
          if ltb (geometry_of f).cylinders 2
          then report invalid_parameter b output'
          else succeed 24 output'
    ]

unfoldable pub control : Control → File → ℕ → StatusBlock → List ℕ → Outcome
unfolding answer report succeed storage_query_property drive_geometry partition_of partition_fields
    partition_ex_fields layout_fields layout_ex_fields
control get_device_number f room b output =
    answer 12 ((0, le32 7) ∷ (4, le32 1) ∷ (8, le32 1) ∷ []) room b output
control get_hotplug_info f room b output =
    answer 8 ((0, le32 8) ∷ (4, 1 ∷ 0 ∷ 1 ∷ 0 ∷ []) ∷ []) room b output
control (query_property p standard) f room b output =
    storage_query_property p standard room b output
control set_indicators f room b output = report success b output
control query_indicators f room b output = answer 4 ((0, le16 0) ∷ (2, le16 0) ∷ []) room b output
control is_writable f room b output = report success b output
control verify f room b output = succeed 0 output
control get_partition_info f room b output =
    answer 32 (partition_fields (partition_of f)) room b output
control set_partition_info f room b output = succeed 0 output
control get_partition_info_ex f room b output =
    answer 144 (partition_ex_fields (partition_of f)) room b output
control get_drive_layout f room b output = answer 72 (layout_fields (partition_of f)) room b output
control get_drive_layout_ex f room b output =
    answer 336 (layout_ex_fields (partition_of f)) room b output
control get_length_info f room b output = answer 8 ((0, le64 f.size) ∷ []) room b output
control get_drive_geometry f room b output = drive_geometry f room b output
control query_device_name f room b output =
    answer 40 ((2, system_partition) ∷ (0, le16 36) ∷ []) room b output
control get_media_types f room b output = report not_implemented b output
control other_control f room b output = aborted

-- The whole call: the status that is set before the switch is overwritten, or ends the program.
unfoldable pub device_io_control_file : Handle → Option StatusBlock → Control → ℕ → List ℕ → Outcome
unfolding checked control
device_io_control_file handle block code room output =
    checked handle block output (λ f b. control code f room b output)
