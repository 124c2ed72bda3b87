-- ===== src/Algorithm/Keeps.antt =====
-- What a heartbeat does to the outside world besides taking the reservation.
use corosync_qdisk.Prelude.{◌≡◌, refl, some, arith, u32, length}
use corosync_qdisk.Corosync.{Request, Env}
use corosync_qdisk.Reserve.{Device}
use corosync_qdisk.Cmap.{qdisk_cmap_get_node_count}
use corosync_qdisk.Vquorum.Service.{
  vquorum_get_node_key_list, vquorum_get_node_list, vquorum_qdevice_poll,
}
use corosync_qdisk.Vquorum.Kept.{
  vquorum_get_node_key_list-kept, vquorum_qdevice_poll-kept, vquorum_qdevice_unregister-kept,
}
use corosync_qdisk.Daemon.{State, reserve_disk, release_qdisk, Sys, ◌>>◌, exit, gettime_ms}
use corosync_qdisk.Ends.{Ends, bind-Ends}
use corosync_qdisk.Algorithm.{
  Seen, Ballot, switch, run_finish, run_switch, run_keys, run_reserved, algorithm_run,
  algorithm_stop, first_look, holder_visible,
}

-- What is assumed of the services and of the disk about a property of the world: that reading the
-- disk, trying to reserve it and calling a service do not take it away.
pub record Keeps {W : Type 0} (env : Env W) (d : Device W) (Q : W → Type 0) : Type 0 where
  pub call_keeps : (r : Request) (w : W) → Q w → Q (env.call r w).1
  pub is_reserved_keeps : (w : W) → Q w → Q (d.is_reserved w).1
  pub owner_keeps : (w : W) → Q w → Q (d.get_reservation_owner_key w).1
  pub keys_keep : (w : W) → Q w → Q (d.get_registered_keys w).1
  pub reserve_keeps : (w : W) → Q w → Q (d.reserve w).1

module _ {W : Type 0} (env : Env W) (d : Device W) (Q : W → Type 0) (keeps : Keeps env d Q)
    (release_keeps : (w : W) → Q w → Q (d.release w).1)
    (unregister_keeps : (w : W) → Q w → Q (d.unregister_key w).1) where
  abbrev pub IsKept : Sys W → Type 0
  IsKept s = (s.alg.pr_device ≡ some d) × Q s.world

  switch-IsKept :
      (seen : Seen) (st : State) (s : Sys W)
      → s.alg.state ≡ st
      → IsKept s
      → Ends IsKept Q (switch env seen d st s)
  unfolding switch
  switch-IsKept seen reserve_disk s e h =
      let r = d.reserve s.world in
      ground (arith, keeps.reserve_keeps s.world, keeps.call_keeps Request.clock_gettime r.1)
  switch-IsKept seen release_qdisk s e h =
      let r = d.release s.world in
      ground (arith, release_keeps s.world, keeps.is_reserved_keeps r.1)
  switch-IsKept seen _ s e h = ground (arith, keeps.call_keeps Request.clock_gettime s.world)

  finish-IsKept :
      (seen : Seen) (b : Ballot) (s : Sys W) → IsKept s → Ends IsKept Q (run_finish env seen b s)
  unfolding run_finish gettime_ms
  finish-IsKept seen b s h =
      let r = vquorum_qdevice_poll env b.cast_vote (s.vq, s.world) in
      ground (
        arith,
        vquorum_qdevice_poll-kept env Q keeps.call_keeps b.cast_vote s.vq s.world,
        keeps.call_keeps Request.clock_gettime s.world,
        keeps.call_keeps Request.clock_gettime r.1.1,
      )

  run_switch-IsKept : (seen : Seen) (s : Sys W) → IsKept s → Ends IsKept Q (run_switch env d seen s)
  unfolding run_switch
  run_switch-IsKept seen s h =
      bind-Ends _ _ _ (switch env seen d s.alg.state s) _ (switch-IsKept seen s.alg.state s refl h)
        (λ b t k. finish-IsKept seen b t k)

  stop_exits :
      (s : Sys W) → IsKept s → Ends IsKept Q ((algorithm_stop env >> exit {A = Unit {0}} 1) s)
  unfolding algorithm_stop
  stop_exits s h =
      let released = d.release s.world in
      let gone = d.unregister_key released.1 in
      ground (
        arith,
        release_keeps s.world,
        unregister_keeps released.1,
        vquorum_qdevice_unregister-kept env Q keeps.call_keeps s.vq gone.1,
      )

  run_keys-IsKept : (seen : Seen) (s : Sys W) → IsKept s → Ends IsKept Q (run_keys env d seen s)
  unfolding run_keys
  run_keys-IsKept seen s h =
      let r = vquorum_get_node_key_list env (s.vq, s.world) in
      let read = d.get_registered_keys r.1.1 in
      let t = record s { vq = r.1.0; world = read.1 } in
      ground (
        arith,
        vquorum_get_node_key_list-kept env Q keeps.call_keeps s.vq s.world,
        keeps.keys_keep r.1.1,
        stop_exits t,
        run_switch-IsKept
            (record seen {
              num_nodes_visible = u32 (length (vquorum_get_node_list r.1.0));
              resv_node_visible = holder_visible seen.reservation_holder r.0.1;
            })
            t,
      )

  run_reserved-IsKept :
      (seen : Seen) (s : Sys W) → IsKept s → Ends IsKept Q (run_reserved env d seen s)
  unfolding run_reserved
  run_reserved-IsKept seen s h =
      let read = d.get_reservation_owner_key s.world in
      let t = record s { world = read.1 } in
      ground (
        arith,
        keeps.owner_keeps s.world,
        release_keeps read.1,
        stop_exits t,
        run_keys-IsKept seen s,
        run_keys-IsKept (record seen { reservation_holder = read.0.1 }) t,
      )

  -- A property of the world that service calls and each operation of our device keep, such as a
  -- reservation of another key, holds after a heartbeat however it ends; the device stays open if it
  -- returns, and it never follows a null pointer.
  pub run-IsKept : (s : Sys W) → IsKept s → Ends IsKept Q (algorithm_run env s)
  unfolding algorithm_run gettime_ms qdisk_cmap_get_node_count
  run-IsKept s h =
      let clock = env.call Request.clock_gettime s.world in
      let read = d.is_reserved clock.1 in
      ground (
        arith,
        keeps.call_keeps Request.clock_gettime s.world,
        keeps.is_reserved_keeps clock.1,
        stop_exits (record s { world = clock.1 }),
        run_reserved-IsKept (first_look s.vq s.cmap.node_count read.0)
            (record s { world = read.1 }),
      )
