-- ===== src/Worker/DeviceFiles.antt =====
-- The device files of the system, and the upload of a firmware to one of them: `get_devs`,
-- `get_dev_paths`, `upload_firmware` and `upload_firmware_path` of src/icefarm/utils/dev.py. What the
-- commands and the directory do is an argument.
pub mod Grouped
pub mod Mounted
use i_cefarm.Prelude.{
  String, Bool, true, false, Option, none, some, List, [], ◌∷◌, ◌++◌, if◌then◌else◌, string_key,
  list_key, ◌==◌, get_or, map,
}
use i_cefarm.Dict.{Dict, get, put}
use i_cefarm.Worker.Device.{Properties, Uploaded, uploaded, not_uploaded, raised}
use i_cefarm.Worker.Manager.{Patterns, get_serial}

-- `out[serial].append(dev)`, behind the test that makes a missing list.
unfoldable pub add_file :
    String → Properties → Dict String (List Properties) → Dict String (List Properties)
add_file serial dev out = put serial (get_or (get serial out) [] ++ dev ∷ []) out

-- The loop of `get_devs`; a file with a serial has a device name.
unfoldable pub collect :
    Patterns → List Properties → Dict String (List Properties) → Dict String (List Properties)
collect patterns [] out = out
collect patterns (dev ∷ devs) out =
    collect patterns devs
      (elim (get_serial patterns dev) [ none ↦ out | some serial ↦ add_file serial dev out ])

unfoldable pub get_devs : Patterns → List Properties → Dict String (List Properties)
get_devs patterns devs = collect patterns devs []

-- The device names of some files, without the missing ones.
unfoldable pub paths_of : List Properties → List String
paths_of [] = []
paths_of (dev ∷ devs) =
    let path = get_or (get "DEVNAME" dev) "" in
    let rest = paths_of devs in if path == "" then rest else path ∷ rest

unfoldable pub get_dev_paths : Patterns → List Properties → Dict String (List String)
get_dev_paths patterns devs = map (λ entry. (entry.0, paths_of entry.1)) (get_devs patterns devs)

-- What the upload does to the system; a command that fails has no effect and is not among them.
pub data Command : Type 0 where
  mounts : String → String → Command
  unmounts : String → Command
  copies : String → Command

-- Whether the partition can be mounted, what `os.listdir` gives (none if it raises), whether the firmware
-- can be copied or written, and whether the partition can be unmounted again.
pub record Drive : Type 0 where
  pub can_mount : Bool
  pub listing : Option (List String)
  pub can_write : Bool
  pub can_unmount : Bool

-- `umount`, whose result the upload ignores.
abbrev pub umount : Drive → String → List Command
umount drive place = if drive.can_unmount then unmounts place ∷ [] else []

abbrev pub bootloader_files : List String
bootloader_files = "INDEX.HTM" ∷ "INFO_UF2.TXT" ∷ []

-- `upload_firmware` and `upload_firmware_path`, which differ in how the firmware gets there. `raised` is
-- FirmwareUploadFail, and the exception of `os.listdir`; the commands are those that had an effect.
unfoldable pub upload_firmware : Drive → String → String → String → Uploaded × List Command
upload_firmware drive partition_path mount_location firmware =
    let mounted = mounts partition_path mount_location in
    if drive.can_mount
    then (elim drive.listing [
      | none ↦ (raised, mounted ∷ [])
      | some files ↦
          if files == bootloader_files
          then (if drive.can_write
              then (uploaded, mounted ∷ copies firmware ∷ umount drive partition_path)
              else (raised, mounted ∷ umount drive partition_path))
          else (not_uploaded, mounted ∷ umount drive mount_location)
    ])
    else (not_uploaded, [])
