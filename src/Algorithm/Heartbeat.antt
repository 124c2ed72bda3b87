-- ===== src/Algorithm/Heartbeat.antt =====
-- qdiskd/algorithm.c, `algorithm_run` as a whole: a heartbeat changes nothing or follows one arrow of
-- the state machine, and what it means when the process ends.
use corosync_qdisk.Prelude.{
  if◌then◌else◌, ◌≡◌, refl, ◌⊎◌, inl, inr, some, arith, Bool-cases, u32, length, not, is_zero,
}
use corosync_qdisk.Corosync.{Env, Request}
use corosync_qdisk.Reserve.{Device}
use corosync_qdisk.Cmap.{qdisk_cmap_get_node_count}
use corosync_qdisk.Vquorum.Service.{vquorum_get_node_key_list, vquorum_get_node_list}
use corosync_qdisk.Daemon.{
  State, start, have_qdisk, Last, Algorithm, Sys, Outcome, done, exited, aborted, crashed, ◌>>◌,
  exit, bind, gettime_ms,
}
use corosync_qdisk.Algorithm.{
  Seen, Ballot, switch, run_finish, run_switch, run_keys, run_reserved, algorithm_run,
  algorithm_stop, first_look, holder_visible,
}
use corosync_qdisk.Algorithm.Switch.{Tried, Edge, arrows, attempt, IsLost}

module _ {W : Type 0} (env : Env W) (d : Device W) where
  -- The switch took one arrow, or has called `abort` in HAVE_QDISK without the reservation.
  abbrev Moves : Seen → Tried → State → Outcome W Ballot → Type 0
  Moves seen tried st (done b t) = Edge d.get_ikey seen tried st t.alg.state
  Moves seen tried st (exited n t) = ⊥
  Moves seen tried st (aborted t) = (st ≡ have_qdisk) × IsLost env seen d
  Moves seen tried st (crashed t) = ⊥

  -- What a heartbeat remembers is what it has seen.
  abbrev pub IsRecorded : Seen → Last → Type 0
  IsRecorded seen l =
      (l.old_quorate ≡ seen.is_quorate)
      × ((l.old_node_count ≡ seen.node_count)
          × ((l.old_num_nodes_visible ≡ seen.num_nodes_visible)
              × ((l.old_reserved ≡ not (is_zero seen.reserved))
                  × (l.old_resv_node_visible ≡ seen.resv_node_visible))))

  -- What a heartbeat knows when its switch begins, and where it is then: `s` is the daemon before the
  -- keys of the nodes are asked for.
  unfoldable pub keys_seen : Seen → Sys W → Seen × Sys W
  keys_seen seen s =
      let r = vquorum_get_node_key_list env (s.vq, s.world) in
      (
        record seen {
          num_nodes_visible = u32 (length (vquorum_get_node_list r.1.0));
          resv_node_visible = holder_visible seen.reservation_holder r.0.1;
        },
        record s { vq = r.1.0; world = (d.get_registered_keys r.1.1).1 },
      )

  -- The same for `s` before the key of the holder is asked for, which is done on a reserved disk.
  unfoldable pub owner_seen : Seen → Sys W → Seen × Sys W
  owner_seen seen s =
      let read = d.get_reservation_owner_key s.world in
      if is_zero seen.reserved
      then keys_seen seen s
      else keys_seen (record seen { reservation_holder = read.0.1 }) (record s { world = read.1 })

  -- The same for a whole heartbeat.
  unfoldable pub sight : Sys W → Seen × Sys W
  sight s =
      let clock = env.call Request.clock_gettime s.world in
      let read = d.is_reserved clock.1 in
      owner_seen (first_look s.vq s.cmap.node_count read.0) (record s { world = read.1 })

  -- A heartbeat that began with the statics `a`, and with this sight when it comes to its switch, left
  -- the statics alone, or took one arrow and remembers what it has seen; it has ended
  -- the process by `exit(1)`, without a change of the statics, or by `abort` in HAVE_QDISK without the
  -- reservation.
  abbrev pub Follows : Algorithm W → Seen × Sys W → Outcome W (Unit {0}) → Type 0
  Follows a r (done u t) =
      (t.alg ≡ a)
      ⊎ (Edge d.get_ikey r.0 (attempt env r.0 d a.state r.1) a.state t.alg.state
          × IsRecorded r.0 t.alg.last)
  Follows a r (exited n t) = (n ≡ 1) × (t.alg ≡ a)
  Follows a r (aborted t) = (a.state ≡ have_qdisk) × IsLost env r.0 d
  Follows a r (crashed t) = ⊥

  switch-Moves :
      (seen : Seen) (st : State) (s : Sys W)
      → s.alg.state ≡ st
      → Moves seen (attempt env seen d st s) st (switch env seen d st s)
  unfolding switch attempt
  switch-Moves seen start s e = grind (arith, arrows)
  switch-Moves seen _ s e = grind (arith, arrows)

  finish-Follows :
      (seen : Seen) (b : Ballot) (a : Algorithm W) (s t : Sys W)
      → Edge d.get_ikey seen (attempt env seen d a.state s) a.state t.alg.state
      → Follows a (seen, s) (run_finish env seen b t)
  unfolding run_finish gettime_ms
  finish-Follows seen b a s t e = elim (Bool-cases b.skip_poll) [
    | inl p ↦ rw p (inr (e, (refl, (refl, (refl, (refl, refl))))))
    | inr p ↦ rw p (inr (e, (refl, (refl, (refl, (refl, refl))))))
  ]

  bind-Follows :
      (seen : Seen) (a : Algorithm W) (s : Sys W) (o : Outcome W Ballot)
      → Moves seen (attempt env seen d a.state s) a.state o
      → Follows a (seen, s) (bind o (run_finish env seen))
  bind-Follows seen a s (done b t) e = finish-Follows seen b a s t e
  bind-Follows seen a s (exited n t) e = absurd e
  bind-Follows seen a s (aborted t) e = e
  bind-Follows seen a s (crashed t) e = absurd e

  run_switch-Follows : (seen : Seen) (s : Sys W) → Follows s.alg (seen, s) (run_switch env d seen s)
  unfolding run_switch
  run_switch-Follows seen s =
      bind-Follows seen s.alg s (switch env seen d s.alg.state s)
        (switch-Moves seen s.alg.state s refl)

  stop_exits :
      (r : Seen × Sys W) (s : Sys W)
      → Follows s.alg r ((algorithm_stop env >> exit {A = Unit {0}} 1) s)
  unfolding algorithm_stop
  stop_exits r s = ground arith

  run_keys-Follows :
      (seen : Seen) (s : Sys W) → Follows s.alg (keys_seen seen s) (run_keys env d seen s)
  unfolding run_keys keys_seen
  run_keys-Follows seen s =
      let r = keys_seen seen s in ground (arith, stop_exits r r.1, run_switch-Follows r.0 r.1)

  run_reserved-Follows :
      (seen : Seen) (s : Sys W) → Follows s.alg (owner_seen seen s) (run_reserved env d seen s)
  unfolding run_reserved owner_seen
  run_reserved-Follows seen s =
      let read = d.get_reservation_owner_key s.world in
      let t = record s { world = read.1 } in
      ground (
        arith,
        stop_exits (owner_seen seen s) t,
        run_keys-Follows seen s,
        run_keys-Follows (record seen { reservation_holder = read.0.1 }) t,
      )

  pub run-Follows :
      (s : Sys W) → s.alg.pr_device ≡ some d → Follows s.alg (sight s) (algorithm_run env s)
  unfolding algorithm_run gettime_ms qdisk_cmap_get_node_count sight
  run-Follows s h =
      let clock = env.call Request.clock_gettime s.world in
      let read = d.is_reserved clock.1 in
      ground (
        arith,
        stop_exits (sight s) (record s { world = clock.1 }),
        run_reserved-Follows (first_look s.vq s.cmap.node_count read.0)
            (record s { world = read.1 }),
      )
