-- ===== src/Algorithm/Init.antt =====
-- qdiskd/algorithm.c: `algorithm_init`, cut at its early returns: `algorithm_init` up to the choice of
-- the key, `init_key` up to the handle, `init_device` up to the registration, `init_register`, and
-- `init_failed` for the label err_exit.
pub mod Ready
pub mod Kept
pub mod Registered
use corosync_qdisk.Prelude.{
  ℕ, ℤ, Bool, true, false, not, ◌&&◌, ◌||◌, some, none, List, [], ◌∷◌, Text, codes, ◌==◌,
  if◌then◌else◌, is_zero, is_positive,
}
use corosync_qdisk.Libc.{Scan, eof, mismatch, matched, scan_key}
use corosync_qdisk.Corosync.{is_cs_ok, Env}
use corosync_qdisk.Reserve.{
  Device, pr_err_ok, pr_err_unknown, pr_err_device_not_operable, pr_err_device_invalid_device_type,
  pr_err_device_memory_allocation_failed, pr_err_found_unregistered_node_key,
}
use corosync_qdisk.Reserve.Scsi.Open.{Opened, opened, null, is_scsi_device}
use corosync_qdisk.Reserve.Nvme.{is_nvme_device}
use corosync_qdisk.Reserve.KeyFile.{
  persistent_reserve_device_new, persistent_reserve_device_new_key,
}
use corosync_qdisk.Cmap.{
  qdisk_cmap_get_qdisk_device, qdisk_cmap_get_heartbeat, qdisk_cmap_get_timeout,
  qdisk_cmap_get_qdisk_keystr, qdisk_cmap_get_qdisk_key_file,
}
use corosync_qdisk.Vquorum.{vquorum_qdisk_share_ikey}
use corosync_qdisk.Vquorum.Service.{
  vquorum_get_node_key_list, vquorum_qdevice_register, vquorum_qdevice_unregister,
  vquorum_qdisk_set_qdisk_key,
}
use corosync_qdisk.Daemon.{
  Prog, ◌>>=◌, ◌>>◌, pure, abort, algorithm, change, in_vquorum, in_cmap, in_world,
}
use corosync_qdisk.Algorithm.{key_registered}

-- Every key of a node is a registered one.
unfoldable pub all_registered : List ℕ → List ℕ → Bool
all_registered [] registered_keys = true
all_registered (k ∷ ks) registered_keys =
    key_registered k registered_keys && all_registered ks registered_keys

module _ {W : Type 0} (env : Env W) where
  unfoldable pub validate_node_quorum_disk_keys : Device W → List ℕ → Prog W ℤ
  validate_node_quorum_disk_keys d node_keys = do
    (err, registered_keys) ← in_world d.get_registered_keys
    pure (
        if not (is_zero err)
        then err
        else if all_registered node_keys registered_keys
        then pr_err_ok
        else pr_err_found_unregistered_node_key)

  -- The label err_exit, with the handle `d`: `registered` says that the key is registered.
  unfoldable pub init_failed : Device W → Bool → ℤ → Prog W ℤ
  init_failed d registered err = do
    if registered then (in_world d.unregister_key >> pure tt) else pure tt
    change (λ a. record a { pr_device = none })
    in_vquorum (vquorum_qdevice_unregister env)
    pure err

  unfoldable pub init_register : Device W → Prog W ℤ
  init_register d = do
    cs_err ← in_vquorum (vquorum_qdevice_register env)
    if not (is_cs_ok cs_err) then init_failed d false pr_err_unknown else (do
      err ← in_world d.register_key
      if not (is_zero err) then init_failed d false err else (do
        in_vquorum (vquorum_qdisk_set_qdisk_key env d.get_ikey)
        shared ← in_vquorum (vquorum_qdisk_share_ikey env d.get_ikey)
        if is_cs_ok shared then pure pr_err_ok else init_failed d true pr_err_unknown))

  -- A reservation that is ours is released, since no service is given yet.
  unfoldable pub init_reserved : Device W → Prog W ℤ
  init_reserved d = do
    (err, holder) ← in_world d.get_reservation_owner_key
    if is_zero err && holder == d.get_ikey then (in_world d.release >> pure tt) else pure tt
    if is_zero err && holder == 0
        then init_failed d false pr_err_device_not_operable
        else init_register d

  unfoldable pub init_device : Device W → Prog W ℤ
  init_device d = do
    (cs_err, node_keys) ← in_vquorum (vquorum_get_node_key_list env)
    if not (is_cs_ok cs_err) then init_failed d false pr_err_unknown else (do
      err ← validate_node_quorum_disk_keys d node_keys
      if not (is_zero err) then init_failed d false err else (do
        reserved ← in_world d.is_reserved
        if is_positive reserved then init_reserved d else init_register d))

  -- The handle that was opened becomes the daemon's.
  unfoldable pub init_opened : Opened W → Prog W ℤ
  init_opened (opened d) = change (λ a. record a { pr_device = some d }) >> init_device d
  init_opened null = pure pr_err_device_memory_allocation_failed
  init_opened Opened.abort = abort

  -- The key is that of the configuration, or else that of a key file.
  unfoldable pub init_key : Text → Prog W ℤ
  init_key device = do
    (cs_err, keystr) ← in_cmap (qdisk_cmap_get_qdisk_keystr env)
    if is_cs_ok cs_err
        then elim (scan_key keystr) as (λ _. Prog W ℤ) [
          | eof ↦ pure pr_err_device_not_operable
          | mismatch ↦ pure pr_err_device_not_operable
          | matched ikey ↦ do
            handle ← in_world (persistent_reserve_device_new_key env device ikey)
            init_opened handle
        ]
        else (do
          (file_err, set) ← in_cmap (qdisk_cmap_get_qdisk_key_file env)
          let key_file = if is_cs_ok file_err then set else codes "/etc/corosync/pr_reserve_key"
          handle ← in_world (persistent_reserve_device_new env device key_file)
          init_opened handle)

  unfoldable pub algorithm_init : Prog W ℤ
  algorithm_init = do
    (cs_err, device) ← in_cmap (qdisk_cmap_get_qdisk_device env)
    if not (is_cs_ok cs_err) then pure pr_err_device_not_operable else (do
      a ← algorithm
      (_, heartbeat) ← in_cmap (qdisk_cmap_get_heartbeat env a.algorithm_heartbeat)
      (_, timeout) ← in_cmap (qdisk_cmap_get_timeout env a.algorithm_timeout)
      change (λ a. record a { algorithm_heartbeat = heartbeat; algorithm_timeout = timeout })
      scsi ← in_world (is_scsi_device env device)
      if scsi then init_key device else (do
        nvme ← in_world (is_nvme_device env device)
        if nvme then init_key device else pure pr_err_device_invalid_device_type))
