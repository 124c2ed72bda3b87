-- ===== src/Algorithm/Init/Ready.antt =====
-- qdiskd/algorithm.c: what `algorithm_init` leaves.
use corosync_qdisk.Prelude.{
  ℤ, ◌≡◌, ◌⊎◌, refl, true, false, some, none, Text, arith, is_zero, Bool, Bool-cases, inl, inr,
  if◌then◌else◌, codes,
}
use corosync_qdisk.Libc.{Scan, eof, mismatch, matched, scan_key}
use corosync_qdisk.Corosync.{Env, is_cs_ok}
use corosync_qdisk.Reserve.{
  Device, pr_err_ok, pr_err_unknown, pr_err_device_not_operable, pr_err_found_unregistered_node_key,
}
use corosync_qdisk.Reserve.Scsi.Open.{Opened, opened, null, is_scsi_device}
use corosync_qdisk.Reserve.Nvme.{is_nvme_device}
use corosync_qdisk.Reserve.KeyFile.{
  persistent_reserve_device_new, persistent_reserve_device_new_key,
}
use corosync_qdisk.Cmap.{
  qdisk_cmap_get_qdisk_device, qdisk_cmap_get_heartbeat, qdisk_cmap_get_timeout,
  qdisk_cmap_get_qdisk_keystr, qdisk_cmap_get_qdisk_key_file,
}
use corosync_qdisk.Vquorum.{vquorum_qdisk_share_ikey}
use corosync_qdisk.Vquorum.Table.{share-globals}
use corosync_qdisk.Vquorum.Service.{
  vquorum_get_node_key_list, vquorum_qdevice_register, vquorum_qdisk_set_qdisk_key,
}
use corosync_qdisk.Daemon.{
  State, Sys, Outcome, Prog, done, exited, aborted, crashed, ◌>>=◌, pure, in_world,
}
use corosync_qdisk.Algorithm.Init.{
  validate_node_quorum_disk_keys, init_failed, init_register, init_reserved, init_device,
  init_opened, init_key, algorithm_init,
}

module _ {W : Type 0} (env : Env W) where
  -- With an answer of 0, the daemon has a device whose key is the one that is shared; with any other
  -- answer it has none. The state is `st`.
  abbrev pub IsReady : State → Outcome W ℤ → Type 0
  IsReady st (done err t) =
      (t.alg.state ≡ st)
      × (((is_zero err ≡ true)
            × ((d : Device W) × ((t.alg.pr_device ≡ some d) × (t.vq.qdisk_key ≡ d.get_ikey))))
          ⊎ ((is_zero err ≡ false) × (t.alg.pr_device ≡ none)))
  IsReady st (exited n t) = ⊥
  IsReady st (aborted t) = Unit
  IsReady st (crashed t) = ⊥

  failed-IsReady :
      (d : Device W) (registered : Bool) (err : ℤ) (s : Sys W)
      → is_zero err ≡ false
      → IsReady s.alg.state (init_failed env d registered err s)
  unfolding init_failed
  failed-IsReady d registered err s h = ground arith

  -- The last answer, of votequorum on the shared key.
  shared-IsReady :
      (d : Device W) (s : Sys W)
      → s.alg.pr_device ≡ some d
      → s.vq.qdisk_key ≡ d.get_ikey
      → IsReady s.alg.state (done pr_err_ok s)
  shared-IsReady d s h k = (refl, inl (refl, (d, (h, k))))

  register-IsReady :
      (d : Device W) (s : Sys W)
      → s.alg.pr_device ≡ some d
      → IsReady s.alg.state (init_register env d s)
  unfolding init_register vquorum_qdisk_set_qdisk_key
  register-IsReady d s h =
      let reg = vquorum_qdevice_register env (s.vq, s.world) in
      let set = d.register_key reg.1.1 in
      let v = record reg.1.0 { qdisk_key = d.get_ikey } in
      let shared = vquorum_qdisk_share_ikey env d.get_ikey (v, set.1) in
      ground (
        arith,
        failed-IsReady d false pr_err_unknown (record s { vq = reg.1.0; world = reg.1.1 }),
        failed-IsReady d false set.0 (record s { vq = reg.1.0; world = set.1 }),
        failed-IsReady d true pr_err_unknown (record s { vq = shared.1.0; world = shared.1.1 }),
        share-globals env d.get_ikey v set.1,
        shared-IsReady d (record s { vq = shared.1.0; world = shared.1.1 }) h,
      )

  reserved-IsReady :
      (d : Device W) (s : Sys W)
      → s.alg.pr_device ≡ some d
      → IsReady s.alg.state (init_reserved env d s)
  unfolding init_reserved
  reserved-IsReady d s h =
      let read = d.get_reservation_owner_key s.world in
      ground (
        arith,
        failed-IsReady d false pr_err_device_not_operable (record s { world = read.1 }),
        failed-IsReady d false pr_err_device_not_operable
            (record s { world = (d.release read.1).1 }),
        register-IsReady d (record s { world = read.1 }),
        register-IsReady d (record s { world = (d.release read.1).1 }),
      )

  device-IsReady :
      (d : Device W) (s : Sys W)
      → s.alg.pr_device ≡ some d
      → IsReady s.alg.state (init_device env d s)
  unfolding init_device validate_node_quorum_disk_keys
  device-IsReady d s h =
      let r = vquorum_get_node_key_list env (s.vq, s.world) in
      let read = d.get_registered_keys r.1.1 in
      let held = d.is_reserved read.1 in
      let t = record s { vq = r.1.0; world = held.1 } in
      ground (
        arith,
        failed-IsReady d false pr_err_unknown (record s { vq = r.1.0; world = r.1.1 }),
        failed-IsReady d false read.0.0 (record s { vq = r.1.0; world = read.1 }),
        failed-IsReady d false pr_err_found_unregistered_node_key
            (record s { vq = r.1.0; world = read.1 }),
        reserved-IsReady d t h,
        register-IsReady d t h,
      )

  pub opened-IsReady :
      (o : Opened W) (s : Sys W)
      → s.alg.pr_device ≡ none
      → IsReady s.alg.state (init_opened env o s)
  unfolding init_opened
  opened-IsReady (opened d) s h =
      device-IsReady d (record s { alg = record s.alg { pr_device = some d } }) refl
  opened-IsReady null s h = ground arith
  opened-IsReady Opened.abort s h = tt

  -- A key of the configuration that was scanned.
  scanned-IsReady :
      (device : Text) (c : Scan) (s : Sys W)
      → s.alg.pr_device ≡ none
      → IsReady s.alg.state (
          (elim c as (λ _. Prog W ℤ) [
            | eof ↦ pure pr_err_device_not_operable
            | mismatch ↦ pure pr_err_device_not_operable
            | matched ikey ↦
                in_world (persistent_reserve_device_new_key env device ikey) >>= λ handle.
                init_opened env handle
          ])
            s)
  scanned-IsReady device eof s h = ground arith
  scanned-IsReady device mismatch s h = ground arith
  scanned-IsReady device (matched k) s h =
      let r = persistent_reserve_device_new_key env device k s.world in
      opened-IsReady r.0 (record s { world = r.1 }) h

  key-IsReady :
      (device : Text) (s : Sys W)
      → s.alg.pr_device ≡ none
      → IsReady s.alg.state (init_key env device s)
  unfolding init_key
  key-IsReady device s h =
      let str = qdisk_cmap_get_qdisk_keystr env (s.cmap, s.world) in
      let file = qdisk_cmap_get_qdisk_key_file env str.1 in
      let path = if is_cs_ok file.0.0 then file.0.1 else codes "/etc/corosync/pr_reserve_key" in
      let handle = persistent_reserve_device_new env device path file.1.1 in
      elim (Bool-cases (is_cs_ok str.0.0)) [
        | inl e ↦ rw e (
            scanned-IsReady device (scan_key str.0.1) (record s { cmap = str.1.0; world = str.1.1 })
              h)
        | inr e ↦ rw e (opened-IsReady handle.0 (record s { cmap = file.1.0; world = handle.1 }) h)
      ]

  -- When no device is open, `algorithm_init` leaves the state of the machine alone; if it answers 0, a
  -- device is open whose key is the one that is shared with the other nodes, and if it answers an
  -- error, none is open. It follows no null pointer and never calls `exit`.
  pub algorithm_init-IsReady :
      (s : Sys W) → s.alg.pr_device ≡ none → IsReady s.alg.state (algorithm_init env s)
  unfolding algorithm_init
  algorithm_init-IsReady s h =
      let dev = qdisk_cmap_get_qdisk_device env (s.cmap, s.world) in
      let beat = qdisk_cmap_get_heartbeat env s.alg.algorithm_heartbeat dev.1 in
      let time = qdisk_cmap_get_timeout env s.alg.algorithm_timeout beat.1 in
      let scsi = is_scsi_device env dev.0.1 time.1.1 in
      let nvme = is_nvme_device env dev.0.1 scsi.1 in
      let t = record s {
        alg = record s.alg { algorithm_heartbeat = beat.0.1; algorithm_timeout = time.0.1 };
        cmap = time.1.0;
        world = scsi.1;
      } in
      ground (arith, key-IsReady dev.0.1 t h, key-IsReady dev.0.1 (record t { world = nvme.1 }) h)
