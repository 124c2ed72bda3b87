-- ===== src/Algorithm/Holding.antt =====
-- qdiskd/algorithm.c: who holds the reservation in HAVE_QDISK. `Holds w` says of the outside world
-- that our key holds it.
use corosync_qdisk.Prelude.{◌≡◌, refl, true, some, arith, is_zero, u32, length}
use corosync_qdisk.Corosync.{Request, Env}
use corosync_qdisk.Reserve.{Device}
use corosync_qdisk.Cmap.{qdisk_cmap_get_node_count}
use corosync_qdisk.Vquorum.Service.{
  vquorum_get_node_key_list, vquorum_get_node_list, vquorum_qdevice_poll,
}
use corosync_qdisk.Vquorum.Kept.{vquorum_get_node_key_list-kept, vquorum_qdevice_poll-kept}
use corosync_qdisk.Daemon.{State, start, reserve_disk, have_qdisk, Sys, ◌>>◌, exit, gettime_ms}
use corosync_qdisk.Ends.{Ends, bind-Ends}
use corosync_qdisk.Algorithm.{
  Seen, Ballot, switch, run_finish, run_switch, run_keys, run_reserved, algorithm_run,
  algorithm_stop, first_look, holder_visible,
}
use corosync_qdisk.Algorithm.Keeps.{Keeps}

module _ {W : Type 0} (env : Env W) (d : Device W) (Holds : W → Type 0) (keeps : Keeps env d Holds)
    (reserve_gains : (w : W) → is_zero (d.reserve w).0 ≡ true → Holds (d.reserve w).1) where
  -- The handle is there, and in HAVE_QDISK our key holds the reservation.
  abbrev pub IsHolding : Sys W → Type 0
  IsHolding s = (s.alg.pr_device ≡ some d) × (s.alg.state ≡ have_qdisk → Holds s.world)

  abbrev Free : W → Type 0
  Free w = Unit

  switch-IsHolding :
      (seen : Seen) (st : State) (s : Sys W)
      → s.alg.state ≡ st
      → IsHolding s
      → Ends IsHolding Free (switch env seen d st s)
  unfolding switch
  switch-IsHolding seen start s e h = ground arith
  switch-IsHolding seen reserve_disk s e h = ground (arith, reserve_gains s.world)
  switch-IsHolding seen _ s e h = ground arith

  finish-IsHolding :
      (seen : Seen) (b : Ballot) (s : Sys W)
      → IsHolding s
      → Ends IsHolding Free (run_finish env seen b s)
  unfolding run_finish gettime_ms
  finish-IsHolding seen b s h =
      let r = vquorum_qdevice_poll env b.cast_vote (s.vq, s.world) in
      ground (
        arith,
        vquorum_qdevice_poll-kept env Holds keeps.call_keeps b.cast_vote s.vq s.world,
        keeps.call_keeps Request.clock_gettime s.world,
        keeps.call_keeps Request.clock_gettime r.1.1,
      )

  run_switch-IsHolding :
      (seen : Seen) (s : Sys W) → IsHolding s → Ends IsHolding Free (run_switch env d seen s)
  unfolding run_switch
  run_switch-IsHolding seen s h =
      bind-Ends _ _ _ (switch env seen d s.alg.state s) _
        (switch-IsHolding seen s.alg.state s refl h) (λ b t k. finish-IsHolding seen b t k)

  stop_exits : (s : Sys W) → Ends IsHolding Free ((algorithm_stop env >> exit {A = Unit {0}} 1) s)
  unfolding algorithm_stop
  stop_exits s = ground arith

  run_keys-IsHolding :
      (seen : Seen) (s : Sys W) → IsHolding s → Ends IsHolding Free (run_keys env d seen s)
  unfolding run_keys
  run_keys-IsHolding seen s h =
      let r = vquorum_get_node_key_list env (s.vq, s.world) in
      let read = d.get_registered_keys r.1.1 in
      let t = record s { vq = r.1.0; world = read.1 } in
      ground (
        arith,
        vquorum_get_node_key_list-kept env Holds keeps.call_keeps s.vq s.world,
        keeps.keys_keep r.1.1,
        stop_exits t,
        run_switch-IsHolding
            (record seen {
              num_nodes_visible = u32 (length (vquorum_get_node_list r.1.0));
              resv_node_visible = holder_visible seen.reservation_holder r.0.1;
            })
            t,
      )

  run_reserved-IsHolding :
      (seen : Seen) (s : Sys W) → IsHolding s → Ends IsHolding Free (run_reserved env d seen s)
  unfolding run_reserved
  run_reserved-IsHolding seen s h =
      let read = d.get_reservation_owner_key s.world in
      let t = record s { world = read.1 } in
      ground (
        arith,
        keeps.owner_keeps s.world,
        stop_exits t,
        run_keys-IsHolding seen s,
        run_keys-IsHolding (record seen { reservation_holder = read.0.1 }) t,
      )

  -- A heartbeat keeps the invariant that the device is open and that in HAVE_QDISK our key holds the
  -- reservation, or it ends the process by `exit` or `abort`; it never follows a null pointer. This
  -- takes that a successful reservation makes our key the holder, and that reading the disk, trying
  -- to reserve it and calling a service leave our reservation in place.
  pub run-IsHolding : (s : Sys W) → IsHolding s → Ends IsHolding Free (algorithm_run env s)
  unfolding algorithm_run gettime_ms qdisk_cmap_get_node_count
  run-IsHolding s h =
      let clock = env.call Request.clock_gettime s.world in
      let read = d.is_reserved clock.1 in
      ground (
        arith,
        keeps.call_keeps Request.clock_gettime s.world,
        keeps.is_reserved_keeps clock.1,
        stop_exits (record s { world = clock.1 }),
        run_reserved-IsHolding (first_look s.vq s.cmap.node_count read.0)
            (record s { world = read.1 }),
      )
