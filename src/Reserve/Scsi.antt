-- ===== src/Reserve/Scsi.antt =====
-- persistent_reserve/scsi_device.c: the class of SCSI devices, over sg_persist and mpathpersist.
pub mod Open
pub mod Parse
pub mod Status
pub mod Shown
pub mod Commands
pub mod Abort
use corosync_qdisk.Prelude.{
  ℕ, zero, suc, ◌-◌, ℤ, pos, Bool, true, false, not, ◌||◌, ◌&&◌, Option, none, some, List, [], ◌∷◌,
  ◌++◌, Text, codes, length, ltb, leb, ◌==◌, if◌then◌else◌, is_zero, u32,
}
use corosync_qdisk.Libc.{
  Scan, eof, mismatch, matched, print_key, scan_literal, scan_hex, skip_spaces, is_space, has_text,
}
use corosync_qdisk.Corosync.{Env, Request, St, ◌>>=◌, ◌>>◌, pure}
use corosync_qdisk.Reserve.{
  Device, pr_err_ok, pr_err_unknown, pr_err_registration_failed, pr_err_unregister_failed,
  pr_err_reservation_failed, pr_err_release_failed, pr_err_abort_failed, pr_err_exec_failed,
  pr_err_device_not_reserved, pr_err_parse_data_err,
}
use corosync_qdisk.Reserve.Exec.{
  cmd_length, cmd_result_length, take, snprintf, lines, exec_cmd, exec_cmd_output,
}

-- `struct device_priv`, without the class pointer.
pub record DevicePriv : Type 0 where
  pub ikey : ℕ
  pub key : Text
  pub device_name : Text
  pub id : Text
  pub persist_cmd : Text

-- `struct device_reservation`
pub record DeviceReservation : Type 0 where
  pub generation : ℕ
  pub reserved : Bool
  pub key : ℕ

-- `" %" SCNx64` with no limit on the width.
unfoldable pub scan_any : Text → Scan
scan_any t = scan_hex (length t) t

-- `sscanf(line, " PR generation=%" SCNx32, …) == 1`
unfoldable pub scan_generation : Text → Option ℕ
scan_generation line = elim (scan_literal (codes "PR") (skip_spaces line)) [
  | none ↦ none
  | some t ↦ elim (scan_literal (codes "generation=") (skip_spaces t)) [
    | none ↦ none
    | some u ↦ elim (scan_any u) [ eof ↦ none | mismatch ↦ none | matched g ↦ some (u32 g) ]
  ]
]

-- `sscanf(line, " Key = %" SCNx64, …) == 1`
unfoldable pub scan_key_line : Text → Option ℕ
scan_key_line line = elim (scan_literal (codes "Key") (skip_spaces line)) [
  | none ↦ none
  | some t ↦ elim (scan_literal (codes "=") (skip_spaces t)) [
    | none ↦ none
    | some u ↦ elim (scan_any u) [ eof ↦ none | mismatch ↦ none | matched k ↦ some k ]
  ]
]

-- The second loop of `read_reservation`: the line with the key.
unfoldable pub find_key_line : ℕ → List Text → Option DeviceReservation
find_key_line gen [] = none
find_key_line gen (l ∷ ls) = elim (scan_key_line l) [
  | none ↦ find_key_line gen ls
  | some k ↦ some (record { generation = gen; reserved = true; key = k })
]

-- The first loop: the line with the reservation status. `none` is the end of the output.
unfoldable pub find_status : List Text → Option DeviceReservation
find_status [] = none
find_status (l ∷ ls) = elim (scan_generation l) [
  | none ↦ find_status ls
  | some gen ↦
      if has_text (codes "Reservation follows") l
      then find_key_line gen ls
      else some (record { generation = gen; reserved = false; key = 0 })
]

-- The loop of `device_get_registered_keys`: a line that begins with no hexadecimal number is skipped.
unfoldable pub keys_of_lines : List Text → List ℕ
keys_of_lines [] = []
keys_of_lines (l ∷ ls) = elim (scan_any l) [
  | eof ↦ keys_of_lines ls
  | mismatch ↦ keys_of_lines ls
  | matched k ↦ k ∷ keys_of_lines ls
]

-- White space of `map_device_path`.
abbrev is_blank : ℕ → Bool
is_blank c = c == 32 || c == 9 || c == 10

unfoldable pub skip_while : (ℕ → Bool) → Text → Text
skip_while p [] = []
skip_while p (c ∷ t) = if p c then skip_while p t else c ∷ t

unfoldable pub take_until : (ℕ → Bool) → Text → Text
take_until p [] = []
take_until p (c ∷ t) = if p c then [] else c ∷ take_until p t

-- The word of a text between spaces: `strspn` and `strcspn`.
unfoldable pub trim : (ℕ → Bool) → Text → Text
trim p t = take_until p (skip_while p t)

abbrev pub device_maxlen : ℕ
device_maxlen = 300

-- `wwn:<WWN>` names a link under /dev/disk/by-id; other names are paths.
unfoldable pub map_device_path : Text → Text
map_device_path name = elim (scan_literal (codes "wwn:") name) [
  | none ↦ name
  | some t ↦
      snprintf device_maxlen
        (codes "/dev/disk/by-id/wwn-0x" ++ trim is_blank (take device_maxlen t))
]

-- The commands.
unfoldable pub register_cmd : DevicePriv → Text
register_cmd d = snprintf cmd_length (
    d.persist_cmd
    ++ codes " --out --register-ignore --param-sark=0x"
    ++ print_key d.ikey
    ++ codes " "
    ++ d.device_name
    ++ codes " 2>&1")

unfoldable pub unregister_cmd : DevicePriv → Text
unregister_cmd d = snprintf cmd_length (
    d.persist_cmd
    ++ codes " --out --register --param-rk=0x"
    ++ print_key d.ikey
    ++ codes " --param-sark=0x0 "
    ++ d.device_name
    ++ codes " 2>&1")

-- SCSI_WRITE_EXCLUSIVE_REGISTRANTS_ONLY is 5.
unfoldable pub reserve_cmd : DevicePriv → Text
reserve_cmd d = snprintf cmd_length (
    d.persist_cmd
    ++ codes " --out --reserve --param-rk=0x"
    ++ print_key d.ikey
    ++ codes " --prout-type=5 "
    ++ d.device_name
    ++ codes " 2>&1")

unfoldable pub release_cmd : DevicePriv → Text
release_cmd d = snprintf cmd_length (
    d.persist_cmd
    ++ codes " --out --release --param-rk=0x"
    ++ print_key d.ikey
    ++ codes " --prout-type=5 "
    ++ d.device_name
    ++ codes " 2>&1")

unfoldable pub read_reservation_cmd : DevicePriv → Text
read_reservation_cmd d =
    snprintf cmd_length
      (d.persist_cmd ++ codes " --in --read-reservation " ++ d.device_name ++ codes " 2>&1")

unfoldable pub holder_cmd : DevicePriv → Text
holder_cmd d = snprintf cmd_length (
    d.persist_cmd
    ++ codes " --in --read-reservation "
    ++ d.device_name
    ++ codes "  2>&1 | grep Key | awk -F= '{print$2}'")

unfoldable pub preempt_cmd : DevicePriv → ℕ → Text
preempt_cmd d cur = snprintf cmd_length (
    d.persist_cmd
    ++ codes " --out --preempt-abort --param-rk=0x"
    ++ print_key d.ikey
    ++ codes " --param-sark=0x"
    ++ print_key cur
    ++ codes " --prout-type=5 "
    ++ d.device_name
    ++ codes " 2>&1")

unfoldable pub read_keys_cmd : DevicePriv → Text
read_keys_cmd d =
    snprintf cmd_length
      (d.persist_cmd ++ codes " --in --read-keys " ++ d.device_name ++ codes " 2>&1")

-- A status of 0, or the error of the operation.
abbrev pub or_error : ℤ → ℤ → ℤ
or_error ret err = if is_zero ret then pr_err_ok else err

-- What the handle itself knows.
abbrev pub device_get_name : DevicePriv → Text
device_get_name d = d.device_name

abbrev pub device_get_key : DevicePriv → Text
device_get_key d = d.key

abbrev pub device_get_ikey : DevicePriv → ℕ
device_get_ikey d = d.ikey

abbrev pub device_get_id : DevicePriv → Text
device_get_id d = d.id

module _ {W : Type 0} (env : Env W) where
  unfoldable pub device_register_key : DevicePriv → St W ℤ
  device_register_key d = do
    ret ← exec_cmd env (register_cmd d)
    pure (or_error ret pr_err_registration_failed)

  unfoldable pub device_unregister_key : DevicePriv → St W ℤ
  device_unregister_key d = do
    ret ← exec_cmd env (unregister_cmd d)
    pure (or_error ret pr_err_unregister_failed)

  unfoldable pub device_reserve : DevicePriv → St W ℤ
  device_reserve d = do
    ret ← exec_cmd env (reserve_cmd d)
    pure (or_error ret pr_err_reservation_failed)

  unfoldable pub device_release : DevicePriv → St W ℤ
  device_release d = do
    ret ← exec_cmd env (release_cmd d)
    pure (or_error ret pr_err_release_failed)

  -- When no command could be started, the reservation is as the caller's memory held it; here it is
  -- none, with key 0.
  unfoldable pub read_reservation : DevicePriv → St W (ℤ × DeviceReservation)
  read_reservation d = do
    let nothing : DeviceReservation = record { generation = 0; reserved = false; key = 0 }
    out ← env.popen (read_reservation_cmd d)
    elim out [
      | none ↦ pure (pr_err_exec_failed, nothing)
      | some o ↦ elim (find_status (lines 8193 o.text)) [
        | none ↦ pure (pr_err_unknown, nothing)
        | some res ↦ pure (or_error o.status pr_err_exec_failed, res)
      ]
    ]

  unfoldable pub device_is_reserved : DevicePriv → St W ℤ
  device_is_reserved d = do
    (ret, res) ← read_reservation d
    pure (if is_zero ret then (if res.reserved then pos 1 else pos 0) else ret)

  unfoldable pub device_get_reservation_owner_key : DevicePriv → St W (ℤ × ℕ)
  device_get_reservation_owner_key d = do
    (ret, res) ← read_reservation d
    pure (
        if is_zero ret && not res.reserved then (pr_err_device_not_reserved, 0) else (ret, res.key))

  -- The holder's key is preempted by ours, and then released.
  unfoldable pub device_abort : DevicePriv → St W ℤ
  device_abort d = do
    (ret, result) ← exec_cmd_output env cmd_result_length (holder_cmd d)
    if not (is_zero ret) then pure pr_err_abort_failed else (do
      let cur = elim (scan_any result) as (λ _. ℕ) [ eof ↦ 0 | mismatch ↦ 0 | matched k ↦ k ]
      ret' ← exec_cmd env (preempt_cmd d cur)
      if not (is_zero ret') then pure pr_err_abort_failed else (device_release d >> pure pr_err_ok))

  unfoldable pub device_get_registered_keys : DevicePriv → St W (ℤ × List ℕ)
  device_get_registered_keys d = do
    out ← env.popen (read_keys_cmd d)
    elim out [
      | none ↦ pure (pr_err_exec_failed, [])
      | some o ↦
          if is_zero o.status
          then pure (pr_err_ok, keys_of_lines (lines cmd_result_length o.text))
          else pure (pr_err_exec_failed, [])
    ]

  -- The table `scsi_device_vtable`.
  unfoldable pub scsi_device_vtable : DevicePriv → Device W
  scsi_device_vtable d = record {
    register_key = device_register_key d;
    unregister_key = device_unregister_key d;
    reserve = device_reserve d;
    release = device_release d;
    is_reserved = device_is_reserved d;
    get_name = device_get_name d;
    get_key = device_get_key d;
    get_ikey = device_get_ikey d;
    get_registered_keys = device_get_registered_keys d;
    abort = device_abort d;
    get_device_id = device_get_id d;
    get_reservation_owner_key = device_get_reservation_owner_key d;
  }
