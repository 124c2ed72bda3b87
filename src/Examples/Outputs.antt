-- ===== src/Examples/Outputs.antt =====
-- The theorems on running commands and on reading their output, each at one concrete input.
use corosync_qdisk.Prelude.{
  ℕ, ◌≡◌, refl, inr, pos, false, some, [], ◌∷◌, ◌++◌, Text, codes, arith, is_zero, is_negative,
}
use corosync_qdisk.Libc.{
  hex_value, scan_digits, scan_signed, scan_hex, scan_literal, skip_spaces, has_text,
}
use corosync_qdisk.Corosync.{Env}
use corosync_qdisk.Reserve.{pr_err_ok, pr_err_device_not_reserved}
use corosync_qdisk.Reserve.Exec.{lines, lines_from}
use corosync_qdisk.Reserve.Exec.Lines.{concat}
use corosync_qdisk.Reserve.Scsi.{scan_any, device_get_registered_keys}
use corosync_qdisk.Reserve.Scsi.{DevicePriv as ScsiDevicePriv}
use corosync_qdisk.Reserve.Scsi.Parse.{Printed, key_lines}
use corosync_qdisk.Reserve.Scsi.Shown.{ShowsKeys, IsWhole-newline, registered_keys-ShowsKeys}
use corosync_qdisk.Reserve.Scsi.Open.{try_capabilities, scsi_pr_device_init}
use corosync_qdisk.Reserve.Scsi.Commands.{IsClear, device_init-IsClear}
use corosync_qdisk.Reserve.Scsi.Status.{try_capabilities-Fails}
use corosync_qdisk.Reserve.Nvme.{DevicePriv, device_is_reserved, device_get_reservation_owner_key}
use corosync_qdisk.Reserve.Nvme.Open.{nvme_pr_device_init}
use corosync_qdisk.Reserve.Nvme.Commands.{RunsBuffered, device_init-RunsBuffered}
use corosync_qdisk.Reserve.Nvme.Plain.{is_reserved-IsPlain}
use corosync_qdisk.Reserve.Nvme.Report.{is_reserved-failed}
use corosync_qdisk.Examples.Lab.{Lab, lab_env, free_disk}

-- A world in which every command writes `text` and ends with a status.
abbrev running : Text → ℕ → Env Lab
running text status = record lab_env {
  popen = λ cmd w. (some (record { text = text; status = pos status }), w);
}

abbrev scsi_disk : ScsiDevicePriv
scsi_disk = record {
  ikey = 1;
  key = [];
  device_name = codes "/dev/sda";
  id = [];
  persist_cmd = codes "sg_persist";
}

abbrev two_keys : Printed
two_keys = (2, 171) ∷ (16, 18) ∷ []

abbrev keys_head : Text
keys_head = codes "  PR generation=0x5, 2 registered reservation keys follow:"

abbrev keys_text : Text
keys_text = concat ((keys_head ++ 10 ∷ []) ∷ key_lines two_keys)

two_keys-ShowsKeys : ShowsKeys keys_text (171 ∷ 18 ∷ [])
unfolding scan_any scan_hex skip_spaces scan_signed scan_digits hex_value
two_keys-ShowsKeys = record {
  heads = (keys_head ++ 10 ∷ []) ∷ [];
  printed = two_keys;
  is_text = refl;
  are_keys = refl;
  fits =
      (((omega arith, omega arith), omega arith), (((omega arith, omega arith), omega arith), tt));
  heads_whole = (IsWhole-newline 8191 keys_head (ground arith) (omega arith), tt);
  heads_silent = (inr refl, tt);
}

registered_keys-ShowsKeys_example :
    (device_get_registered_keys (running keys_text 0) scsi_disk free_disk).0
    ≡ (pr_err_ok, 171 ∷ 18 ∷ [])
registered_keys-ShowsKeys_example =
    registered_keys-ShowsKeys (running keys_text 0) scsi_disk (171 ∷ 18 ∷ [])
      (record { text = keys_text; status = pos 0 }) free_disk refl refl two_keys-ShowsKeys

try_capabilities-Fails_example :
    (try_capabilities (running [] 5376) 5 (codes "sg_persist") free_disk).0 ≡ false
try_capabilities-Fails_example =
    try_capabilities-Fails (running [] 5376) (codes "sg_persist") 5 free_disk
      (λ w. (20, ([], refl)))

abbrev disk : DevicePriv
disk = record { ikey = 1; key = []; device_name = codes "/dev/nvme0n1"; id = [] }

is_reserved-failed_example :
    (is_negative (device_is_reserved (running [] 256) disk free_disk).0 ≡ false)
    × ((is_zero (device_is_reserved (running [] 256) disk free_disk).0 ≡ false)
        × (is_zero (device_get_reservation_owner_key (running [] 256) disk free_disk).0.0 ≡ false))
is_reserved-failed_example =
    is_reserved-failed (running [] 256) disk free_disk (record { text = []; status = pos 256 }) 255
      refl refl

-- A report as the command writes it without extended controllers: the first one holds the disk.
abbrev plain_text : Text
plain_text = concat (
    (codes "regctl    : 1" ++ 10 ∷ [])
    ∷ (codes "regctl[0] :" ++ 10 ∷ [])
    ∷ (codes "  rcsts      : 1" ++ 10 ∷ [])
    ∷ (codes "  rkey       : 2" ++ 10 ∷ [])
    ∷ [])

is_reserved-IsPlain_example :
    ((device_is_reserved (running plain_text 0) disk free_disk).0 ≡ pos 0)
    × ((device_get_reservation_owner_key (running plain_text 0) disk free_disk).0
        ≡ (pr_err_device_not_reserved, 0))
unfolding lines lines_from has_text scan_literal
is_reserved-IsPlain_example =
    is_reserved-IsPlain (running plain_text 0) disk (record { text = plain_text; status = pos 0 })
      free_disk refl refl (refl, (refl, (refl, (refl, tt))))

device_init-IsClear_example :
    IsClear
      (running [] 0)
      (scsi_pr_device_init (running [] 0) (codes "wwn: 5000c500a1b2c3d4") 1 free_disk).0
device_init-IsClear_example =
    device_init-IsClear (running [] 0) (codes "wwn: 5000c500a1b2c3d4") 1 free_disk

abbrev id_ctrl : Text
id_ctrl = codes "sn        : 1234 \nmn        : Model \n"

device_init-RunsBuffered_example :
    RunsBuffered
      (running id_ctrl 0)
      (nvme_pr_device_init (running id_ctrl 0) (codes "nvme: eui.0025") 1 free_disk).0
device_init-RunsBuffered_example =
    device_init-RunsBuffered (running id_ctrl 0) (codes "nvme: eui.0025") 1 free_disk
