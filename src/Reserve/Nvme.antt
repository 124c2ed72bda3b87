-- ===== src/Reserve/Nvme.antt =====
-- persistent_reserve/nvme_device.c: the class of NVMe devices, over the nvme command.
pub mod Report
pub mod Plain
pub mod Entries
pub mod Shown
pub mod Commands
pub mod Open
use corosync_qdisk.Prelude.{
  ℕ, zero, suc, ◌-◌, ℤ, pos, Bool, true, false, not, ◌||◌, Option, none, some, List, [], ◌∷◌, ◌++◌,
  map, u32, u64, Text, codes, length, ◌==◌, if◌then◌else◌, is_zero, ◌%◌,
}
use corosync_qdisk.Libc.{
  Scan, eof, mismatch, matched, print_key, scan_literal, scan_hex, skip_spaces, has_text, read_dec,
  saturate,
}
use corosync_qdisk.Corosync.{Env, St, ◌>>=◌, ◌>>◌, pure}
use corosync_qdisk.Reserve.{
  Device, pr_err_ok, pr_err_registration_failed, pr_err_exec_failed, pr_err_device_not_reserved,
}
use corosync_qdisk.Reserve.Exec.{
  cmd_result_length, take, snprintf, lines, exec_cmd, exec_cmd_output,
}
use corosync_qdisk.Reserve.Scsi.{device_maxlen, trim}

-- `struct device_priv`, without the class pointer.
pub record DevicePriv : Type 0 where
  pub ikey : ℕ
  pub key : Text
  pub device_name : Text
  pub id : Text

-- `struct resv_rep_controller`
pub record RespRepController : Type 0 where
  pub hostid : ℕ
  pub ikey : ℕ
  pub key : Text
  pub rcsts : ℕ
  pub id : ℕ

-- `struct resv_report`; `num_controllers` is the length of the array.
pub record ResvReport : Type 0 where
  pub gen : ℕ
  pub rtype : ℕ
  pub ptpls : ℕ
  pub num_controllers : ℕ
  pub controllers : List RespRepController

-- `strchr(line, ':')`: the text before the colon, and behind it.
unfoldable pub split_colon : Text → Option (Text × Text)
split_colon [] = none
split_colon (c ∷ t) =
    let rest = split_colon t in
    if c == 58 then some ([], t) else elim rest [ none ↦ none | some (a, b) ↦ some (c ∷ a, b) ]

decimal_value : Text → ℕ
decimal_value [] = 0
decimal_value (c ∷ t) =
    if c == 43
    then saturate (read_dec 0 t).0
    else if c == 45
    then u64 (18446744073709551616 - saturate (read_dec 0 t).0)
    else saturate (read_dec 0 (c ∷ t)).0

-- `strtoumax(text, NULL, 10)`: a negative number is taken modulo 2^64.
unfoldable pub strtoumax_10 : Text → ℕ
unfolding decimal_value
strtoumax_10 t = decimal_value (skip_spaces t)

-- `strtoumax(text, NULL, 16)`
unfoldable pub strtoumax_16 : Text → ℕ
strtoumax_16 t = elim (scan_hex (length t) t) [ eof ↦ 0 | mismatch ↦ 0 | matched k ↦ k ]

-- One line of the header; `none` is the line at which the header ends.
unfoldable pub header_line : Text → ResvReport → Option ResvReport
header_line line r = elim (split_colon line) [
  | none ↦ some r
  | some (label, rest) ↦
      if has_text (codes "regctlext") line
      then none
      else if has_text (codes "gen") line
      then some (record r { gen = u32 (strtoumax_10 rest) })
      else if has_text (codes "rtype") line
      then some (record r { rtype = strtoumax_10 rest % 256 })
      else if has_text (codes "regctl") line
      then some (record r { num_controllers = strtoumax_10 rest % 65536 })
      else if has_text (codes "ptpls") line
      then some (record r { ptpls = strtoumax_10 rest % 256 })
      else some r
]

-- The loop over the header, and the lines behind it.
unfoldable pub read_header : ResvReport → List Text → ResvReport × List Text
read_header r [] = (r, [])
read_header r (l ∷ ls) = elim (header_line l r) [ none ↦ (r, ls) | some r' ↦ read_header r' ls ]

-- One line about a controller.
unfoldable pub controller_line : Text → RespRepController → RespRepController
controller_line line c = elim (split_colon line) [
  | none ↦ c
  | some (label, rest) ↦
      if has_text (codes "cntlid") label
      then record c { id = strtoumax_16 rest % 65536 }
      else if has_text (codes "rcsts") label
      then record c { rcsts = strtoumax_16 rest % 256 }
      else if has_text (codes "rkey") label
      then record c { ikey = strtoumax_16 rest; key = print_key (strtoumax_16 rest) }
      else if has_text (codes "hostid") label
      then record c { hostid = strtoumax_16 rest }
      else c
]

-- The lines of one controller, up to the line that begins the next.
unfoldable pub read_controller : RespRepController → List Text → RespRepController × List Text
read_controller c [] = (c, [])
read_controller c (l ∷ ls) = elim (has_text (codes "regctl") l) [
  | true ↦ (c, ls)
  | false ↦ read_controller (controller_line l c) ls
]

abbrev pub zeroed : RespRepController
zeroed = record { hostid = 0; ikey = 0; key = []; rcsts = 0; id = 0 }

unfoldable pub read_controllers : ℕ → List Text → List RespRepController
read_controllers zero ls = []
read_controllers (suc n) ls =
    let (c, rest) = read_controller zeroed ls in c ∷ read_controllers n rest

abbrev pub empty_report : ResvReport
empty_report = record { gen = 0; rtype = 0; ptpls = 0; num_controllers = 0; controllers = [] }

unfoldable pub parse_report : List Text → ResvReport
parse_report ls =
    let (r, rest) = read_header empty_report ls in
    record r { controllers = read_controllers r.num_controllers rest }

-- Some controller has a nonzero reservation status.
unfoldable pub any_reserved : List RespRepController → Bool
any_reserved [] = false
any_reserved (c ∷ cs) = if c.rcsts == 0 then any_reserved cs else true

-- The loop of `device_get_reservation_owner_key`, with the key found so far.
unfoldable pub owner_of : ℤ × ℕ → List RespRepController → ℤ × ℕ
owner_of found [] = found
owner_of found (c ∷ cs) = owner_of (if c.rcsts == 0 then found else (pr_err_ok, c.ikey)) cs

abbrev pub controller_key : RespRepController → ℕ
controller_key c = c.ikey

-- `nvme:<name>` names a link under /dev/disk/by-id; other names are paths.
unfoldable pub map_device_path : Text → Text
map_device_path name = elim (scan_literal (codes "nvme:") name) [
  | none ↦ name
  | some t ↦ snprintf device_maxlen (
      codes "/dev/disk/by-id/nvme-"
      ++ trim (λ c. c == 32 || c == 9 || c == 10) (take device_maxlen t))
]

-- The commands.
abbrev pub resv_report_cmd : DevicePriv → Text
resv_report_cmd d = codes "nvme resv-report " ++ d.device_name

abbrev pub resv_register_cmd : DevicePriv → Text
resv_register_cmd d =
    codes "nvme resv-register "
    ++ d.device_name
    ++ codes " --crkey=0x0 --nrkey=0x"
    ++ print_key d.ikey
    ++ codes " --rrega=0 2>&1 > /dev/null"

abbrev pub resv_unregister_cmd : DevicePriv → Text
resv_unregister_cmd d =
    codes "nvme resv-register "
    ++ d.device_name
    ++ codes " --crkey=0x"
    ++ print_key d.ikey
    ++ codes " --nrkey=0x0 --rrega=1 2>&1 > /dev/null"

-- NVME_WRITE_EXCLUSIVE_REGISTRANTS_ONLY is 3.
abbrev pub resv_acquire_cmd : DevicePriv → Text
resv_acquire_cmd d =
    codes "nvme resv-acquire "
    ++ d.device_name
    ++ codes " --crkey=0x"
    ++ print_key d.ikey
    ++ codes " --racqa=0 --rtype=3 2>&1 > /dev/null"

abbrev pub resv_release_cmd : DevicePriv → Text
resv_release_cmd d =
    codes "nvme resv-release "
    ++ d.device_name
    ++ codes " --crkey=0x"
    ++ print_key d.ikey
    ++ codes " --rtype=3 --rrela=0 2>&1 > /dev/null"

abbrev pub resv_clear_cmd : DevicePriv → Text
resv_clear_cmd d =
    codes "nvme resv-release "
    ++ d.device_name
    ++ codes " --crkey=0x"
    ++ print_key d.ikey
    ++ codes " --rtype=3 --rrela=1 2>&1 > /dev/null"

-- What the handle itself knows.
abbrev pub device_get_name : DevicePriv → Text
device_get_name d = d.device_name

abbrev pub device_get_key : DevicePriv → Text
device_get_key d = d.key

abbrev pub device_get_ikey : DevicePriv → ℕ
device_get_ikey d = d.ikey

abbrev pub device_get_id : DevicePriv → Text
device_get_id d = d.id

module _ {W : Type 0} (env : Env W) where
  -- The status of the command is the error code, as `pclose` gives it.
  unfoldable pub get_reservation_report : DevicePriv → St W (ℤ × ResvReport)
  get_reservation_report d = do
    out ← env.popen (resv_report_cmd d)
    elim out [
      | none ↦ pure (pr_err_exec_failed, parse_report [])
      | some o ↦ pure (o.status, parse_report (lines cmd_result_length o.text))
    ]

  unfoldable pub device_get_registered_keys : DevicePriv → St W (ℤ × List ℕ)
  device_get_registered_keys d = do
    (ret, report) ← get_reservation_report d
    pure (if is_zero ret then (pr_err_ok, map controller_key report.controllers) else (ret, []))

  unfoldable pub device_register_key : DevicePriv → St W ℤ
  device_register_key d = exec_cmd env (resv_register_cmd d)

  unfoldable pub device_unregister_key : DevicePriv → St W ℤ
  device_unregister_key d = exec_cmd env (resv_unregister_cmd d)

  unfoldable pub device_reserve : DevicePriv → St W ℤ
  device_reserve d = exec_cmd env (resv_acquire_cmd d)

  unfoldable pub device_release : DevicePriv → St W ℤ
  device_release d = exec_cmd env (resv_release_cmd d)

  unfoldable pub device_abort : DevicePriv → St W ℤ
  device_abort d = do
    ret ← exec_cmd env (resv_clear_cmd d)
    pure (if is_zero ret then pr_err_ok else pr_err_registration_failed)

  unfoldable pub device_is_reserved : DevicePriv → St W ℤ
  device_is_reserved d = do
    (ret, report) ← get_reservation_report d
    pure (if is_zero ret then (if any_reserved report.controllers then pos 1 else pos 0) else ret)

  -- An error says that the key is not written.
  unfoldable pub device_get_reservation_owner_key : DevicePriv → St W (ℤ × ℕ)
  device_get_reservation_owner_key d = do
    (ret, report) ← get_reservation_report d
    pure (
        if is_zero ret
        then owner_of (pr_err_device_not_reserved, 0) report.controllers
        else (ret, 0))

  -- The table `nvme_device_vtable`.
  unfoldable pub nvme_device_vtable : DevicePriv → Device W
  nvme_device_vtable d = record {
    register_key = device_register_key d;
    unregister_key = device_unregister_key d;
    reserve = device_reserve d;
    release = device_release d;
    is_reserved = device_is_reserved d;
    get_name = device_get_name d;
    get_key = device_get_key d;
    get_ikey = device_get_ikey d;
    get_registered_keys = device_get_registered_keys d;
    abort = device_abort d;
    get_device_id = device_get_id d;
    get_reservation_owner_key = device_get_reservation_owner_key d;
  }

  unfoldable pub is_nvme_device : Text → St W Bool
  is_nvme_device device = do
    ret ←
        exec_cmd env (codes "nvme id-ctrl " ++ map_device_path device ++ codes " 2>&1 1>/dev/null")
    pure (is_zero ret)
