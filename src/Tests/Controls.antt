-- ===== src/Tests/Controls.antt =====
-- libs/ntdll/ioctl.c on small buffers.
use nloader.Base.{◌≡◌, refl, [], ◌∷◌, replicate}
use nloader.Controls.{le64, success, StatusBlock, File, succeed}
use nloader.Controls.Disk.{
  control, get_device_number, get_drive_layout, get_drive_layout_ex, get_length_info,
}
use nloader.Controls.Fits.{Answered, control-Answered}
use nloader.Controls.Layout.{LayoutEnds, control-LayoutEnds}

abbrev disk : File
disk = record {
  mode = 33188;
  size = 20000000;
  blocks = 0;
  nlink = 1;
  mtime = 0;
  ctime = 0;
  atime = 0;
}

abbrev block : StatusBlock
block = record { status = success; information = 0 }

control-Answered_example :
    Answered block (replicate 14 9) (control get_device_number disk 14 block (replicate 14 9))
control-Answered_example = control-Answered get_device_number disk block (replicate 14 9) tt

control-LayoutEnds_example :
    LayoutEnds 72 136 block
      (replicate 80 9)
      (control get_drive_layout disk 80 block (replicate 80 9))
    × LayoutEnds 336 624 block
        (replicate 80 9)
        (control get_drive_layout_ex disk 80 block (replicate 80 9))
control-LayoutEnds_example = control-LayoutEnds disk block (replicate 80 9)

length_info :
    control get_length_info disk 9 block (replicate 9 9)
    ≡ succeed 8 (0 ∷ 45 ∷ 49 ∷ 1 ∷ 0 ∷ 0 ∷ 0 ∷ 0 ∷ 9 ∷ [])
unfolding control le64
length_info = refl
