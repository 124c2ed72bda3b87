-- ===== src/Reserve/Scsi/Open.antt =====
-- persistent_reserve/scsi_device.c: finding out whether a device can be used, and opening it.
use corosync_qdisk.Prelude.{
  ℕ, zero, suc, ℤ, pos, Bool, true, false, not, ◌||◌, Option, none, some, [], ◌++◌, Text, codes,
  length, ltb, ◌==◌, if◌then◌else◌, is_zero,
}
use corosync_qdisk.Libc.{print_key, has_text, is_space}
use corosync_qdisk.Corosync.{Env, Request, St, ◌>>=◌, ◌>>◌, pure}
use corosync_qdisk.Reserve.{Device, pr_err_ok, pr_err_parse_data_err}
use corosync_qdisk.Reserve.Exec.{
  cmd_length, cmd_result_length, take, snprintf, exec_cmd, exec_cmd_output,
}
use corosync_qdisk.Reserve.Scsi.{device_maxlen, map_device_path, trim, scsi_device_vtable}

-- What opening a device gives: a handle, a null pointer, or a call of `abort`.
pub data Opened (W : Type 0) : Type 0 where
  opened : Device W → Opened W
  null : Opened W
  abort : Opened W

-- `ret == n` for an `int`.
abbrev is_code : ℕ → ℤ → Bool
is_code n (pos m) = m == n
is_code n (ℤ.negsuc m) = false

-- What the loop of `is_scsi_device_usable` makes of a status.
pub data Verdict : Type 0 where
  retry_now refuse succeed retry_later : Verdict

unfoldable pub judge : ℤ → Verdict
judge ret =
    if is_code 11 ret || is_code 33 ret
    then retry_now
    else if is_code 5 ret || is_code 9 ret || is_code 15 ret || is_code 36 ret || is_code 126 ret
    then refuse
    else if is_code 0 ret || is_code 21 ret
    then succeed
    else retry_later

-- `sprintf` does not look at the size of its buffer, `cmd_length`.
unfoldable pub verify_cmd : Text → Text
verify_cmd device = codes "sg_verify --readonly " ++ map_device_path device ++ codes " 2>&1"

module _ {W : Type 0} (env : Env W) where
  -- `none` is a call of `abort`.
  unfoldable pub is_multipath : Text → St W (Option Bool)
  is_multipath device_path = do
    real ← env.call (Request.realpath device_path)
    elim real [
      | none ↦ pure none
      | some real_dev_path ↦ do
        ret ←
            exec_cmd env
              (snprintf cmd_length (codes "multipath -v1 -C " ++ real_dev_path ++ codes "  2>&1"))
        pure (some (is_zero ret))
    ]

  -- The name of the command, cut to the buffer without a final zero; `none` is a call of `abort`.
  unfoldable pub detect_persist_cmd : Text → ℕ → St W (Option (ℤ × Text))
  detect_persist_cmd device_path bufflen =
      if ltb bufflen 14 then pure (some (pr_err_parse_data_err, [])) else (do
        multipath ← is_multipath device_path
        elim multipath [
          | none ↦ pure none
          | some true ↦ pure (some (pr_err_ok, codes "mpathpersist"))
          | some false ↦ pure (some (pr_err_ok, codes "sg_persist"))
        ])

  unfoldable pub find_device_id : Text → ℕ → St W (ℤ × Text)
  find_device_id device_path bufflen = do
    (err, buf) ←
        exec_cmd_output env bufflen (
          snprintf cmd_length
            (codes "sg_vpd --quiet --page=di_lu " ++ device_path ++ codes " 2>&1"))
    pure (err, (if is_zero err then trim is_space buf else buf))

  -- The command to use: sg_persist where none is detected. NAME_MAX is 255.
  unfoldable pub persist_cmd_for : Text → St W (Option Text)
  persist_cmd_for device_path = do
    found ← detect_persist_cmd device_path 255
    pure (elim found [
      | none ↦ none
      | some (err, name) ↦ some (if is_zero err then name else codes "sg_persist")
    ])

  -- The allocation does not fail.
  unfoldable pub scsi_pr_device_init : Text → ℕ → St W (Opened W)
  scsi_pr_device_init device_name ikey =
      if not (ltb (length device_name) device_maxlen) then pure null else (do
        let name = take device_maxlen (map_device_path device_name)
        (err, id) ← find_device_id name 301
        if not (is_zero err) then pure null else (do
          found ← persist_cmd_for name
          elim found [
            | none ↦ pure abort
            | some persist_cmd ↦ pure (
                opened (
                  scsi_device_vtable env (record {
                    ikey = ikey;
                    key = print_key ikey;
                    device_name = name;
                    id = id;
                    persist_cmd = persist_cmd;
                  })))
          ]))

  -- The loop of `is_scsi_device`: three tries with a pause, and a last one.
  unfoldable pub try_verify : ℕ → Text → St W Bool
  try_verify zero cmd = do ret ← exec_cmd env cmd; pure (is_zero ret)
  try_verify (suc n) cmd = do
    ret ← exec_cmd env cmd
    elim (is_zero ret) [
      | true ↦ pure true
      | false ↦ do env.call (Request.sleep 1); try_verify n cmd
    ]

  unfoldable pub is_scsi_device : Text → St W Bool
  is_scsi_device device = try_verify 3 (verify_cmd device)

  -- The loop of `is_scsi_device_usable`.
  unfoldable pub try_capabilities : ℕ → Text → St W Bool
  try_capabilities zero cmd = pure false
  try_capabilities (suc n) cmd = do
    (ret, result) ← exec_cmd_output env cmd_result_length cmd
    elim (judge ret) [
      | retry_now ↦ try_capabilities n cmd
      | refuse ↦ pure false
      | succeed ↦ pure (not (has_text (codes "command not supported") result))
      | retry_later ↦ do env.call (Request.sleep 1); try_capabilities n cmd
    ]

  -- `none` is a call of `abort`.
  unfoldable pub is_scsi_device_usable : Text → St W (Option Bool)
  is_scsi_device_usable device = do
    found ← persist_cmd_for (map_device_path device)
    elim found [
      | none ↦ pure none
      | some persist_cmd ↦ do
        usable ← try_capabilities 5 (
            persist_cmd
            ++ codes " --in --report-capabilities "
            ++ map_device_path device
            ++ codes " 2>&1")
        pure (some usable)
    ]
