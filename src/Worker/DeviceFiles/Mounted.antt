-- ===== src/Worker/DeviceFiles/Mounted.antt =====
-- What a firmware upload leaves behind: src/icefarm/utils/dev.py.
use i_cefarm.Prelude.{
  ◌≡◌, String, Bool, true, false, ◌&&◌, ◌||◌, not, Option, none, some, List, [], ◌∷◌, if◌then◌else◌,
  string_key, list_key, ◌==◌, ==_iff, arith, count,
}
use i_cefarm.Worker.Device.{Uploaded, uploaded}
use i_cefarm.Worker.DeviceFiles.{
  Command, mounts, unmounts, copies, Drive, bootloader_files, upload_firmware,
}

-- The mounted partitions with their locations, the latest first. A partition is unmounted by its own path or by its
-- location.
abbrev pub Mounts : Type 0
Mounts = List (String × String)

abbrev pub without : String → Mounts → Mounts
without place [] = []
without place ((partition, location) ∷ rest) =
    if partition == place || location == place
    then rest
    else (partition, location) ∷ without place rest

abbrev pub after : List Command → Mounts → Mounts
after [] table = table
after (mounts partition location ∷ commands) table = after commands ((partition, location) ∷ table)
after (unmounts place ∷ commands) table = after commands (without place table)
after (copies firmware ∷ commands) table = after commands table

abbrev pub is_copy : Command → Bool
is_copy (copies firmware) = true
is_copy command = false

abbrev pub is_uploaded : Uploaded → Bool
is_uploaded uploaded = true
is_uploaded other = false

abbrev pub is_bootloader : Option (List String) → Bool
is_bootloader none = false
is_bootloader (some files) = files == bootloader_files

abbrev pub is_readable : Option (List String) → Bool
is_readable none = false
is_readable (some files) = true

-- Whatever was mounted before, and however the upload ends: the partition is left mounted, at its location, exactly
-- if it could be mounted and then reading the directory raised or the unmounting failed, which the upload does not
-- report; otherwise the mounts are those from before.
pub upload_firmware_unmounts :
    (drive : Drive) (partition_path mount_location firmware : String) (table : Mounts)
    → after (upload_firmware drive partition_path mount_location firmware).1 table ≡ (
        if drive.can_mount && not (is_readable drive.listing && drive.can_unmount)
        then (partition_path, mount_location) ∷ table
        else table)
unfolding upload_firmware
upload_firmware_unmounts drive partition_path mount_location firmware table =
    ground (arith, ==_iff partition_path partition_path, ==_iff mount_location mount_location)

-- The firmware is copied at most once, and exactly if the upload reports success, which is when the drive
-- can be mounted and written and shows the files of the bootloader and no others.
upload_firmware_copies :
    (drive : Drive) (partition_path mount_location firmware : String)
    → let result = upload_firmware drive partition_path mount_location firmware in
      (count is_copy result.1 ≡ (if is_uploaded result.0 then 1 else 0))
      × (is_uploaded result.0
          ≡ (drive.can_mount && (is_bootloader drive.listing && drive.can_write)))
unfolding upload_firmware
upload_firmware_copies drive partition_path mount_location firmware = (ground arith, ground arith)
