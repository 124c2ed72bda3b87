-- ===== src/Reserve/Scsi/Status.antt =====
-- persistent_reserve/scsi_device.c, `is_scsi_device_usable`: the exit codes of sg_persist as the code
-- meets them, in the form that `pclose` gives.
use corosync_qdisk.Prelude.{ℕ, zero, suc, ◌*◌, ◌≡◌, refl, false, pos, some, Text, arith}
use corosync_qdisk.Corosync.{Env, Request}
use corosync_qdisk.Reserve.Exec.{exec_cmd_output}
use corosync_qdisk.Reserve.Scsi.Open.{judge, retry_later, try_capabilities}

-- A status of `pclose` for an exit code is 256 times the code: the loop takes none but code 0 for
-- one of those that it knows.
judge-exit_code : (code : ℕ) → judge (pos (256 * suc code)) ≡ retry_later
unfolding judge
judge-exit_code code = ground arith

module _ {W : Type 0} (env : Env W) (cmd : Text) where
  -- Every run of the command ends with a nonzero exit code.
  abbrev pub Fails : Type 0
  Fails =
      (w : W)
      → (code : ℕ) × ((text : Text) × ((env.popen cmd w).0
            ≡ some (record { text = text; status = pos (256 * suc code) })))

  -- When every run of the command ends with some nonzero exit code, whatever the codes are, the loop
  -- of `is_scsi_device_usable` says after any number of tries that the device cannot be used.
  pub try_capabilities-Fails : (n : ℕ) (w : W) → Fails → (try_capabilities env n cmd w).0 ≡ false
  unfolding try_capabilities exec_cmd_output
  try_capabilities-Fails zero w h = refl
  try_capabilities-Fails (suc n) w h =
      let (code, (text, e)) = h w in
      ground (
        arith,
        e,
        judge-exit_code code,
        try_capabilities-Fails n (env.call (Request.sleep 1) (env.popen cmd w).1).1 h,
      )
