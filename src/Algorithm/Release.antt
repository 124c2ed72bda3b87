-- ===== src/Algorithm/Release.antt =====
-- qdiskd/algorithm.c: how the disk is let go, and the watchdog.
use corosync_qdisk.Prelude.{ℕ, ◌+◌, ◌*◌, ◌/◌, ◌≡◌, true, false, some, arith, ltb, u64}
use corosync_qdisk.Corosync.{Env, Request}
use corosync_qdisk.Reserve.{Device}
use corosync_qdisk.Vquorum.Service.{vquorum_qdevice_unregister}
use corosync_qdisk.Daemon.{Sys, exited, gettime_ms}
use corosync_qdisk.Algorithm.{Seen, tiebreak_needed, below_half, algorithm_stop, algorithm_run}

module _ {W : Type 0} (env : Env W) where
  pub below_half-tiebreak : (seen : Seen) → below_half seen ≡ true → tiebreak_needed seen ≡ false
  unfolding below_half tiebreak_needed
  below_half-tiebreak seen h = ground arith

  -- The clock that `gettime_ms` reads in a state of the world.
  abbrev pub clock_of : W → ℕ
  clock_of w =
      let r = env.call Request.clock_gettime w in u64 (u64 (r.0.0 * 1000) + r.0.1 / 1000000)

  -- When the last complete heartbeat is too old, `algorithm_run` releases the disk, unregisters the
  -- key, unregisters the quorum device, and exits with 1; it casts no vote and changes none of the
  -- daemon's variables.
  pub run-watchdog :
      (s : Sys W) (d : Device W)
      → s.alg.pr_device ≡ some d
      → ltb s.alg.good_heartbeat_timeout (clock_of s.world) ≡ true
      → algorithm_run env s ≡ (
          let w = (env.call Request.clock_gettime s.world).1 in
          let released = (d.unregister_key (d.release w).1).1 in
          exited 1 (record s {
            world = (env.call (Request.votequorum_qdevice_unregister s.vq.v_handle) released).1;
          }))
  unfolding algorithm_run algorithm_stop gettime_ms vquorum_qdevice_unregister
  run-watchdog s d opened late = ground arith
