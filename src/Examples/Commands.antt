-- ===== src/Examples/Commands.antt =====
-- The theorems on the command line tool, each at one concrete input.
use corosync_qdisk.Prelude.{
  ◌≡◌, refl, pos, true, false, Option, some, List, [], ◌∷◌, ◌++◌, Text, codes, arith,
}
use corosync_qdisk.Libc.{
  print_key, has_text, scan_key, scan_hex, scan_signed, skip_spaces, hex_fixed, hex_digit,
  scan_digits, hex_value,
}
use corosync_qdisk.Corosync.{Request, Reply, Env}
use corosync_qdisk.Cmap.{text_eq}
use corosync_qdisk.Reserve.{
  Device, pr_err_ok, pr_err_unknown, pr_err_device_len_exceeded, pr_err_device_not_reserved,
  pr_err_parse_data_err,
}
use corosync_qdisk.Reserve.Errors.{pr_strerr, strerr_negative}
use corosync_qdisk.Reserve.KeyFile.{persistent_reserve_device_new_key}
use corosync_qdisk.Reserve.Exec.{take, exec_cmd, exec_cmd_output}
use corosync_qdisk.Reserve.Scsi.Open.{
  is_scsi_device, is_scsi_device_usable, try_verify, try_capabilities, judge, persist_cmd_for,
  detect_persist_cmd, is_multipath, find_device_id, scsi_pr_device_init,
}
use corosync_qdisk.Reserve.Scsi.{scsi_device_vtable, device_register_key}
use corosync_qdisk.Reserve.Nvme.{is_nvme_device}
use corosync_qdisk.Reserve.Nvme.Open.{is_nvme_device_usable}
use corosync_qdisk.Tool.{
  run_action, run_opened, is_usable, key_line, print_plain, strip_zeros, main, run_command,
  run_default_key, run_key, perform, action_of,
}
use corosync_qdisk.Tool.Status.{Console, Serves, last_argument, main-Serves}
use corosync_qdisk.Tool.Keys.{main-environment}
use corosync_qdisk.Examples.Lab.{answer, free_disk}

-- The world is what has been printed.
shell : (r : Request) → List Text → Reply r × List Text
shell (Request.print t) w = (tt, w ++ t ∷ [])
shell (Request.getenv _) w = (some (print_key 255 ++ []), w)
shell r w = (answer r free_disk, w)

-- Every command succeeds and writes nothing.
shell_env : Env (List Text)
shell_env = record {
  call = shell;
  popen = λ cmd w. (some (record { text = []; status = pos 0 }), w);
  attempts = 3;
  qdevice_nodeid = 99;
  qdevice_default_timeout = 10000;
}

-- A disk that key 2 has reserved.
abbrev shelf : Device (List Text)
shelf = record {
  register_key = λ w. (pr_err_ok, w);
  unregister_key = λ w. (pr_err_ok, w);
  reserve = λ w. (pr_err_ok, w);
  release = λ w. (pr_err_ok, w);
  is_reserved = λ w. (pos 1, w);
  get_name = codes "/dev/sda";
  get_key = [];
  get_ikey = 1;
  get_registered_keys = λ w. ((pr_err_ok, 1 ∷ 2 ∷ []), w);
  abort = λ w. (pr_err_ok, w);
  get_device_id = codes "disk";
  get_reservation_owner_key = λ w. ((pr_err_ok, 2), w);
}

-- A disk whose reservation cannot be read.
abbrev broken : Device (List Text)
broken = record shelf { is_reserved = λ w. (pr_err_unknown, w) }

shelf-Console : Console shell_env shelf (λ w. w)
unfolding shell shell_env
shelf-Console = record { prints = λ t w. refl; reads = λ w. refl }

-- To unfold this is to unfold what the commands and the reading of keys compute with.
unfoldable commands_compute : Unit {0}
unfolding shell shell_env is_usable is_scsi_device is_scsi_device_usable is_nvme_device
    is_nvme_device_usable try_verify try_capabilities judge exec_cmd exec_cmd_output take
    persist_cmd_for detect_persist_cmd is_multipath has_text persistent_reserve_device_new_key
    scsi_pr_device_init scsi_device_vtable find_device_id device_register_key scan_key scan_hex
    scan_signed skip_spaces print_key hex_fixed hex_digit scan_digits hex_value
commands_compute = tt

usable : (is_usable shell_env (codes "/dev/sda") []).0 ≡ some true
unfolding commands_compute
usable = refl

abbrev arguments : List Text
arguments = codes "register" ∷ codes "/dev/sda" ∷ []

registers : (main shell_env (codes "qdisktool") arguments []).0 ≡ some 0
unfolding commands_compute main run_command run_default_key run_key run_opened run_action perform
    action_of text_eq
registers = refl

main-Serves_example :
    (name : Text) × ((device : Text) × ((key_path : Option Text) × ((arguments
            ≡ name ∷ device ∷ last_argument shell_env key_path)
          × Serves shell_env name device key_path [])))
main-Serves_example = main-Serves shell_env (codes "qdisktool") arguments [] registers

other : text_eq (codes "register") (codes "check") ≡ false
unfolding text_eq
other = refl

main-environment_example : main shell_env (codes "qdisktool") arguments [] ≡ (
    let var =
      shell_env.call
        (Request.getenv (codes "DISK_RESERVE_KEY"))
        (is_usable shell_env (codes "/dev/sda") []).1 in
    let handle = persistent_reserve_device_new_key shell_env (codes "/dev/sda") 255 var.1 in
    run_opened shell_env
      (codes "qdisktool")
      (codes "register")
      (codes "/dev/sda")
      handle.0
      handle.1)
unfolding shell shell_env
main-environment_example =
    main-environment shell_env (codes "qdisktool") (codes "register") (codes "/dev/sda") [] 255 []
      (omega arith) other usable refl

-- The texts belong to the errors of device.h.
error_texts :
    (pr_strerr pr_err_device_len_exceeded ≡ codes "Device name length exceeded")
    × ((pr_strerr pr_err_device_not_reserved ≡ codes "Device not reserved")
        × ((pr_strerr pr_err_parse_data_err ≡ codes "Data parsing error")
            × (pr_strerr pr_err_unknown ≡ codes "Unknown Error")))
unfolding pr_strerr strerr_negative
error_texts = (refl, (refl, (refl, refl)))

zero_key : print_plain 0 ≡ codes "0"
unfolding print_plain strip_zeros hex_fixed hex_digit
zero_key = refl

marked : key_line 171 171 ≡ codes "    ab *\n"
unfolding key_line print_plain strip_zeros hex_fixed hex_digit
marked = refl
