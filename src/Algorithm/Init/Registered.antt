-- ===== src/Algorithm/Init/Registered.antt =====
-- qdiskd/algorithm.c, `algorithm_init` from the open handle on: a start that succeeds has registered
-- the key on the disk.
use corosync_qdisk.Prelude.{ℕ, ℤ, ◌≡◌, refl, Bool, true, false, some, arith, is_zero}
use corosync_qdisk.Corosync.{Env, Request}
use corosync_qdisk.Reserve.{
  Device, pr_err_unknown, pr_err_device_not_operable, pr_err_found_unregistered_node_key,
}
use corosync_qdisk.Reserve.Scsi.Open.{opened}
use corosync_qdisk.Vquorum.{Vquorum, vquorum_qdisk_share_ikey, print_extra_info}
use corosync_qdisk.Vquorum.Service.{
  vquorum_get_node_key_list, vquorum_qdevice_register, vquorum_qdisk_set_qdisk_key,
}
use corosync_qdisk.Vquorum.Kept.{send_extra_info-kept}
use corosync_qdisk.Vquorum.Table.{share-globals}
use corosync_qdisk.Daemon.{Sys, Outcome, done, exited, aborted, crashed}
use corosync_qdisk.Algorithm.{key_registered}
use corosync_qdisk.Algorithm.Init.{
  validate_node_quorum_disk_keys, init_failed, init_register, init_reserved, init_device,
  init_opened,
}

module _ {W : Type 0} (env : Env W) (d : Device W) where
  -- Our key is among those that the disk gives.
  abbrev pub IsRegistered : W → Type 0
  IsRegistered w = key_registered d.get_ikey (d.get_registered_keys w).0.1 ≡ true

  -- A start that answers 0 has registered the key of this device, and shares that key.
  abbrev pub Registers : Outcome W ℤ → Type 0
  Registers (done err t) =
      is_zero err ≡ true
      → (t.alg.pr_device ≡ some d) × ((t.vq.qdisk_key ≡ d.get_ikey) × IsRegistered t.world)
  Registers (exited n t) = ⊥
  Registers (aborted t) = ⊥
  Registers (crashed t) = ⊥

  failed-Registers :
      (registered : Bool) (err : ℤ) (s : Sys W)
      → is_zero err ≡ false
      → Registers (init_failed env d registered err s)
  unfolding init_failed
  failed-Registers registered err s h = ground (arith, h)

-- What is taken of the disk and of the services: a host that is told that it has registered its key is
-- registered, and calls of services do not change that.
pub record Registry {W : Type 0} (env : Env W) (d : Device W) : Type 0 where
  pub register_gains :
      (w : W) → is_zero (d.register_key w).0 ≡ true → IsRegistered env d (d.register_key w).1
  pub call_keeps :
      (r : Request) (w : W) → IsRegistered env d w → IsRegistered env d (env.call r w).1

module _ {W : Type 0} (env : Env W) (d : Device W) (registry : Registry env d) where
  share-IsRegistered :
      (key : ℕ) (v : Vquorum) (w : W)
      → IsRegistered env d w
      → IsRegistered env d (vquorum_qdisk_share_ikey env key (v, w)).1.1
  unfolding vquorum_qdisk_share_ikey
  share-IsRegistered key v w h =
      send_extra_info-kept env (IsRegistered env d) registry.call_keeps env.attempts v.v_handle 22
        (print_extra_info key) v w h

  register-Registers :
      (s : Sys W) → s.alg.pr_device ≡ some d → Registers env d (init_register env d s)
  unfolding init_register vquorum_qdisk_set_qdisk_key
  register-Registers s h =
      let reg = vquorum_qdevice_register env (s.vq, s.world) in
      let set = d.register_key reg.1.1 in
      let v = record reg.1.0 { qdisk_key = d.get_ikey } in
      let shared = vquorum_qdisk_share_ikey env d.get_ikey (v, set.1) in
      ground (
        arith,
        h,
        failed-Registers env d false pr_err_unknown (record s { vq = reg.1.0; world = reg.1.1 }),
        failed-Registers env d false set.0 (record s { vq = reg.1.0; world = set.1 }),
        failed-Registers env d true pr_err_unknown
            (record s { vq = shared.1.0; world = shared.1.1 }),
        share-globals env d.get_ikey v set.1,
        registry.register_gains reg.1.1,
        share-IsRegistered d.get_ikey v set.1,
      )

  reserved-Registers :
      (s : Sys W) → s.alg.pr_device ≡ some d → Registers env d (init_reserved env d s)
  unfolding init_reserved
  reserved-Registers s h =
      let read = d.get_reservation_owner_key s.world in
      let freed = d.release read.1 in
      ground (
        arith,
        failed-Registers env d false pr_err_device_not_operable (record s { world = read.1 }),
        failed-Registers env d false pr_err_device_not_operable (record s { world = freed.1 }),
        register-Registers (record s { world = read.1 }) h,
        register-Registers (record s { world = freed.1 }) h,
      )

  device-Registers : (s : Sys W) → s.alg.pr_device ≡ some d → Registers env d (init_device env d s)
  unfolding init_device validate_node_quorum_disk_keys
  device-Registers s h =
      let r = vquorum_get_node_key_list env (s.vq, s.world) in
      let read = d.get_registered_keys r.1.1 in
      let held = d.is_reserved read.1 in
      let t = record s { vq = r.1.0; world = held.1 } in
      ground (
        arith,
        failed-Registers env d false pr_err_unknown (record s { vq = r.1.0; world = r.1.1 }),
        failed-Registers env d false read.0.0 (record s { vq = r.1.0; world = read.1 }),
        failed-Registers env d false pr_err_found_unregistered_node_key
            (record s { vq = r.1.0; world = read.1 }),
        reserved-Registers t h,
        register-Registers t h,
      )

  -- On a disk that lists a key once it has been registered, and services that leave this so, a start
  -- that answers 0 leaves our key among those that the disk lists, with this device open and its key
  -- as the one that is shared; from the open handle on, the start neither exits nor aborts.
  pub init_opened-Registers : (s : Sys W) → Registers env d (init_opened env (opened d) s)
  unfolding init_opened
  init_opened-Registers s =
      device-Registers (record s { alg = record s.alg { pr_device = some d } }) refl
