-- ===== src/Reserve/Nvme/Commands.antt =====
-- persistent_reserve/nvme_device.c: the buffers of the commands, which sprintf does not look at.
use corosync_qdisk.Prelude.{
  ℕ, ◌+◌, ◌<◌, ◌≤◌, ◌≡◌, refl, Option, some, none, [], ◌∷◌, ◌++◌, Text, codes, length, ltb, is_zero,
  arith, Bool-cases, inl, inr,
}
use corosync_qdisk.Libc.{print_key}
use corosync_qdisk.Corosync.{Env}
use corosync_qdisk.Reserve.Exec.{take, exec_cmd_output}
use corosync_qdisk.Reserve.Scsi.Commands.{length-joined, length-print_key, length-take}
use corosync_qdisk.Reserve.Scsi.Open.{Opened, opened, null}
use corosync_qdisk.Reserve.Nvme.{
  DevicePriv, resv_report_cmd, resv_register_cmd, resv_unregister_cmd, resv_acquire_cmd,
  resv_release_cmd, resv_clear_cmd, map_device_path, nvme_device_vtable,
}
use corosync_qdisk.Reserve.Nvme.Open.{nvme_pr_device_init, find_names, tokens_from, device_id}

-- Each command fits in a buffer of 768 bytes with the zero that ends it.
pub record IsBuffered (d : DevicePriv) : Type 0 where
  pub report_fits : length (resv_report_cmd d) < 768
  pub register_fits : length (resv_register_cmd d) < 768
  pub unregister_fits : length (resv_unregister_cmd d) < 768
  pub acquire_fits : length (resv_acquire_cmd d) < 768
  pub release_fits : length (resv_release_cmd d) < 768
  pub clear_fits : length (resv_clear_cmd d) < 768

-- A command with the name of the device, a word, our key and a word behind it.
key_command-fits :
    (d : DevicePriv) (before between behind : Text)
    → length d.device_name ≤ 300
    → length before + length between + length behind < 200
    → length (before ++ d.device_name ++ between ++ print_key d.ikey ++ behind) < 768
key_command-fits d before between behind h room = omega (
  arith,
  h,
  room,
  length-print_key d.ikey,
  length-joined before (d.device_name ∷ between ∷ print_key d.ikey ∷ behind ∷ []),
)

short-IsBuffered : (d : DevicePriv) → length d.device_name ≤ 300 → IsBuffered d
short-IsBuffered d h = record {
  report_fits = omega (arith, h, length-joined (codes "nvme resv-report ") (d.device_name ∷ []));
  register_fits =
      key_command-fits d (codes "nvme resv-register ") (codes " --crkey=0x0 --nrkey=0x")
        (codes " --rrega=0 2>&1 > /dev/null") h (omega arith);
  unregister_fits =
      key_command-fits d (codes "nvme resv-register ") (codes " --crkey=0x")
        (codes " --nrkey=0x0 --rrega=1 2>&1 > /dev/null") h (omega arith);
  acquire_fits =
      key_command-fits d (codes "nvme resv-acquire ") (codes " --crkey=0x")
        (codes " --racqa=0 --rtype=3 2>&1 > /dev/null") h (omega arith);
  release_fits =
      key_command-fits d (codes "nvme resv-release ") (codes " --crkey=0x")
        (codes " --rtype=3 --rrela=0 2>&1 > /dev/null") h (omega arith);
  clear_fits =
      key_command-fits d (codes "nvme resv-release ") (codes " --crkey=0x")
        (codes " --rtype=3 --rrela=1 2>&1 > /dev/null") h (omega arith);
}

-- A device of the class whose commands fit.
abbrev pub RunsBuffered : {W : Type 0} → Env W → Opened W → Type 0
RunsBuffered env (opened dev) = (d : DevicePriv) × ((dev ≡ nvme_device_vtable env d) × IsBuffered d)
RunsBuffered env null = Unit
RunsBuffered env Opened.abort = Unit

module _ {W : Type 0} (env : Env W) where
  -- The end of `nvme_pr_device_init`, once the output of id-ctrl has been searched.
  named-RunsBuffered :
      (name : Text) (ikey : ℕ) (model serial : Option Text)
      → length name ≤ 300
      → RunsBuffered env (elim model as (λ _. Opened W) [
        | none ↦ null
        | some mn ↦ elim serial [
          | none ↦ null
          | some sn ↦ opened (
              nvme_device_vtable env (record {
                ikey = ikey;
                key = print_key ikey;
                device_name = name;
                id = device_id mn sn;
              }))
        ]
      ])
  named-RunsBuffered name ikey none serial h = tt
  named-RunsBuffered name ikey (some mn) none h = tt
  named-RunsBuffered name ikey (some mn) (some sn) h =
      let d : DevicePriv = record {
        ikey = ikey;
        key = print_key ikey;
        device_name = name;
        id = device_id mn sn;
      } in
      (d, (refl, short-IsBuffered d h))

  -- Each command of a handle that `nvme_pr_device_init` gives fits, with the zero that ends it, in the
  -- buffer of 768 bytes that it is printed into, whatever the name of the device and the output of
  -- id-ctrl are.
  pub device_init-RunsBuffered :
      (name : Text) (ikey : ℕ) (w : W) → RunsBuffered env (nvme_pr_device_init env name ikey w).0
  unfolding nvme_pr_device_init
  device_init-RunsBuffered name ikey w =
      let path = take 300 (map_device_path name) in
      let out = exec_cmd_output env 8192 (codes "nvme id-ctrl " ++ path) w in
      let found = find_names (none, none) (tokens_from [] out.0.1) in
      elim (Bool-cases (ltb (length name) 300)) [
        | inr e ↦ rw e tt
        | inl e ↦ elim (Bool-cases (is_zero out.0.0)) [
          | inr f ↦ rw (e, f) tt
          | inl f ↦
              rw (e, f)
                (named-RunsBuffered path ikey found.0 found.1
                  (length-take 300 (map_device_path name)))
        ]
      ]
