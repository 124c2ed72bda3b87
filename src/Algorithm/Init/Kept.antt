-- ===== src/Algorithm/Init/Kept.antt =====
-- qdiskd/algorithm.c, `algorithm_init` from the open handle on, and `algorithm_stop`: what they do to
-- the outside world, and which device is left.
use corosync_qdisk.Prelude.{◌≡◌, ◌⊎◌, inl, refl, ℤ, Bool, true, false, some, none, arith, ℕ}
use corosync_qdisk.Corosync.{Env, Request}
use corosync_qdisk.Reserve.{
  Device, pr_err_unknown, pr_err_device_not_operable, pr_err_found_unregistered_node_key,
}
use corosync_qdisk.Reserve.Scsi.Open.{opened}
use corosync_qdisk.Vquorum.{Vquorum, vquorum_qdisk_share_ikey, print_extra_info}
use corosync_qdisk.Vquorum.Service.{
  vquorum_get_node_key_list, vquorum_qdevice_register, vquorum_qdisk_set_qdisk_key,
}
use corosync_qdisk.Vquorum.Kept.{
  send_extra_info-kept, vquorum_get_node_key_list-kept, vquorum_qdevice_unregister-kept,
}
use corosync_qdisk.Daemon.{Sys}
use corosync_qdisk.Ends.{Ends}
use corosync_qdisk.Algorithm.{algorithm_stop}
use corosync_qdisk.Algorithm.Keeps.{Keeps}
use corosync_qdisk.Algorithm.Init.{
  validate_node_quorum_disk_keys, init_failed, init_register, init_reserved, init_device,
  init_opened,
}

module _ {W : Type 0} (env : Env W) (d : Device W) (Q : W → Type 0) (keeps : Keeps env d Q)
    (release_keeps : (w : W) → Q w → Q (d.release w).1)
    (unregister_keeps : (w : W) → Q w → Q (d.unregister_key w).1)
    (register_keeps : (w : W) → Q w → Q (d.register_key w).1) where
  -- The world is as it was, and the daemon has this device or none.
  abbrev pub IsPoisedtled : Sys W → Type 0
  IsPoisedtled s = Q s.world × ((s.alg.pr_device ≡ some d) ⊎ (s.alg.pr_device ≡ none))

  failed-IsPoisedtled :
      (registered : Bool) (err : ℤ) (s : Sys W)
      → IsPoisedtled s
      → Ends IsPoisedtled Q (init_failed env d registered err s)
  unfolding init_failed
  failed-IsPoisedtled registered err s h = ground (
    arith,
    unregister_keeps s.world,
    vquorum_qdevice_unregister-kept env Q keeps.call_keeps s.vq s.world,
    vquorum_qdevice_unregister-kept env Q keeps.call_keeps s.vq (d.unregister_key s.world).1,
  )

  share-kept :
      (key : ℕ) (v : Vquorum) (w : W) → Q w → Q (vquorum_qdisk_share_ikey env key (v, w)).1.1
  unfolding vquorum_qdisk_share_ikey
  share-kept key v w h =
      send_extra_info-kept env Q keeps.call_keeps env.attempts v.v_handle 22 (print_extra_info key)
        v w h

  register-IsPoisedtled : (s : Sys W) → IsPoisedtled s → Ends IsPoisedtled Q (init_register env d s)
  unfolding init_register vquorum_qdisk_set_qdisk_key vquorum_qdevice_register
  register-IsPoisedtled s h =
      let reg = env.call (Request.votequorum_qdevice_register s.vq.v_handle) s.world in
      let set = d.register_key reg.1 in
      let v = record s.vq { qdisk_key = d.get_ikey } in
      let shared = vquorum_qdisk_share_ikey env d.get_ikey (v, set.1) in
      ground (
        arith,
        keeps.call_keeps (Request.votequorum_qdevice_register s.vq.v_handle) s.world,
        register_keeps reg.1,
        share-kept d.get_ikey v set.1,
        failed-IsPoisedtled false pr_err_unknown (record s { world = reg.1 }),
        failed-IsPoisedtled false set.0 (record s { world = set.1 }),
        failed-IsPoisedtled true pr_err_unknown (record s { vq = shared.1.0; world = shared.1.1 }),
      )

  reserved-IsPoisedtled : (s : Sys W) → IsPoisedtled s → Ends IsPoisedtled Q (init_reserved env d s)
  unfolding init_reserved
  reserved-IsPoisedtled s h =
      let read = d.get_reservation_owner_key s.world in
      let freed = d.release read.1 in
      ground (
        arith,
        keeps.owner_keeps s.world,
        release_keeps read.1,
        failed-IsPoisedtled false pr_err_device_not_operable (record s { world = read.1 }),
        failed-IsPoisedtled false pr_err_device_not_operable (record s { world = freed.1 }),
        register-IsPoisedtled (record s { world = read.1 }),
        register-IsPoisedtled (record s { world = freed.1 }),
      )

  device-IsPoisedtled : (s : Sys W) → IsPoisedtled s → Ends IsPoisedtled Q (init_device env d s)
  unfolding init_device validate_node_quorum_disk_keys
  device-IsPoisedtled s h =
      let r = vquorum_get_node_key_list env (s.vq, s.world) in
      let read = d.get_registered_keys r.1.1 in
      let held = d.is_reserved read.1 in
      let t = record s { vq = r.1.0; world = held.1 } in
      ground (
        arith,
        vquorum_get_node_key_list-kept env Q keeps.call_keeps s.vq s.world,
        keeps.keys_keep r.1.1,
        keeps.is_reserved_keeps read.1,
        failed-IsPoisedtled false pr_err_unknown (record s { vq = r.1.0; world = r.1.1 }),
        failed-IsPoisedtled false read.0.0 (record s { vq = r.1.0; world = read.1 }),
        failed-IsPoisedtled false pr_err_found_unregistered_node_key
            (record s { vq = r.1.0; world = read.1 }),
        reserved-IsPoisedtled t,
        register-IsPoisedtled t,
      )

  -- From the open handle on, `algorithm_init` keeps a property of the world that service calls and each
  -- operation of the device keep, and leaves the daemon with this device or with none.
  pub init_opened-IsPoisedtled :
      (s : Sys W) → Q s.world → Ends IsPoisedtled Q (init_opened env (opened d) s)
  unfolding init_opened
  init_opened-IsPoisedtled s h =
      device-IsPoisedtled (record s { alg = record s.alg { pr_device = some d } }) (h, inl refl)

  -- So does `algorithm_stop`, for a daemon that has this device or none.
  pub stop-IsPoisedtled : (s : Sys W) → IsPoisedtled s → Ends IsPoisedtled Q (algorithm_stop env s)
  unfolding algorithm_stop
  stop-IsPoisedtled s h =
      let released = d.release s.world in
      let gone = d.unregister_key released.1 in
      ground (
        arith,
        release_keeps s.world,
        unregister_keeps released.1,
        vquorum_qdevice_unregister-kept env Q keeps.call_keeps s.vq s.world,
        vquorum_qdevice_unregister-kept env Q keeps.call_keeps s.vq gone.1,
      )
