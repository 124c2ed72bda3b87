-- ===== src/Algorithm/Race.antt =====
-- qdiskd/algorithm.c: the heartbeats of a daemon on a disk that nobody holds.
pub mod Won
use corosync_qdisk.Prelude.{
  ℕ, ◌<◌, ◌*◌, ◌+◌, ◌^◌, ◌≡◌, ◌≢◌, refl, none, true, false, All, arith, length, List, [], ◌∷◌, u64,
  pos,
}
use corosync_qdisk.Corosync.{Env, Request}
use corosync_qdisk.Reserve.{Device}
use corosync_qdisk.Vquorum.{Vquorum, find_key}
use corosync_qdisk.Vquorum.Service.{vquorum_get_node_list, vquorum_get_quorate}
use corosync_qdisk.Vquorum.Exchange.{known_keys}
use corosync_qdisk.Daemon.{State, start, idle, reserve_disk, have_qdisk, Sys, gettime_ms}
use corosync_qdisk.Algorithm.Release.{clock_of}
use corosync_qdisk.Algorithm.Progress.{
  Completes, Completes-map, IsHealthy, seen_free, run_free-switches,
}
use corosync_qdisk.Algorithm.Beats.{
  Voted, IsCalm, IsPoised, alive, move-IsPoised, turn-IsPoised, finish-IsPoised,
}
use corosync_qdisk.Algorithm.{
  Seen, switch, run_switch, algorithm_run, first_look, holder_visible, tiebreak_needed,
  restart_timeout,
}

-- Key 0 is no key, so a disk without a holder has no visible holder.
no_holder : (ks : List ℕ) → holder_visible 0 ks ≡ false
unfolding holder_visible
no_holder [] = refl
no_holder (k ∷ ks) = ground (arith, no_holder ks)

module _ {W : Type 0} (env : Env W) (d : Device W) (sent : W → List ℕ) where
  -- The heartbeat comes to the switch, and the daemon is still poised there.
  pub looks_free :
      (Q : List ℕ → W → Type 0) (lo timeout : ℕ) (v : Vquorum) (count : ℕ)
      → ((l : List ℕ) → IsHealthy env d (Q l))
      → ((l : List ℕ) (w : W) → Q l w → Q l (d.get_registered_keys w).1)
      → IsCalm env d sent lo timeout Q
      → All (λ n. find_key n v.node_list ≢ none) v.visible_node_list
      → (st : State) (l : List ℕ) (s : Sys W) → IsPoised env d sent lo timeout v count (Q l) st s
      → (t : Sys W) × (IsPoised env d sent lo timeout v count (Q l) st t
          × (algorithm_run env s ≡ run_switch env d (seen_free env d s) t))
  looks_free Q lo timeout v count healthy keys_keep calm listed st l s h =
      let (w, (q, e)) =
        run_free-switches env d (Q l) (healthy l) s h.world h.opened
          (alive env d sent lo timeout v count Q l st s calm h) (rw h.view listed) in
      let world = (d.get_registered_keys w).1 in
      (
        record s { world = world },
        (turn-IsPoised env d sent lo timeout v count (Q l) (Q l) st world s (keys_keep l w q) h, e),
      )

  module _ (Q : List ℕ → W → Type 0) (lo timeout : ℕ) (v : Vquorum) (count : ℕ)
      (healthy : (l : List ℕ) → IsHealthy env d (Q l))
      (keys_keep : (l : List ℕ) (w : W) → Q l w → Q l (d.get_registered_keys w).1)
      (calm : IsCalm env d sent lo timeout Q)
      (listed : All (λ n. find_key n v.node_list ≢ none) v.visible_node_list) where
    abbrev Stands : List ℕ → State → Sys W → Type 0
    Stands l st s = IsPoised env d sent lo timeout v count (Q l) st s

    -- The switch in START: it is left for IDLE, without a vote.
    switch_start :
        (seen : Seen) (l : List ℕ) (s : Sys W)
        → seen.is_quorate ≡ true
        → Stands l start s
        → Completes
            (λ t. Stands (0 ∷ l) idle t × Voted sent idle (0 ∷ l) t)
            (run_switch env d seen s)
    unfolding run_switch switch
    switch_start seen l s quorate h = ground (
      arith,
      h.at,
      quorate,
      finish-IsPoised env d sent lo timeout v count Q calm seen 0 idle l
          (record s { alg = record s.alg { state = idle } })
          (move-IsPoised env d sent lo timeout v count (Q l) (Q l) start idle s.alg.timeout_time
            s.world s h.world h),
    )

    -- In IDLE: nobody holds the disk, so it goes on to reserve it.
    switch_idle :
        (seen : Seen) (l : List ℕ) (s : Sys W)
        → tiebreak_needed seen ≡ true
        → seen.resv_node_visible ≡ false
        → seen.reserved ≡ pos 0
        → Stands l idle s
        → Completes
            (λ t. Stands (1 ∷ l) reserve_disk t × Voted sent reserve_disk (1 ∷ l) t)
            (run_switch env d seen s)
    unfolding run_switch switch restart_timeout gettime_ms
    switch_idle seen l s needed hidden free h =
        let now = env.call Request.clock_gettime s.world in
        let time = u64 (clock_of env s.world + s.alg.algorithm_timeout) in
        ground (
          arith,
          h.at,
          needed,
          hidden,
          free,
          finish-IsPoised env d sent lo timeout v count Q calm seen 1 reserve_disk l
              (record s {
                alg = record s.alg { state = reserve_disk; timeout_time = time };
                world = now.1;
              })
              (move-IsPoised env d sent lo timeout v count (Q l) (Q l) idle reserve_disk time now.1
                s (calm.call_sends Request.clock_gettime l s.world h.world) h),
        )

    looks :
        (st : State) (l : List ℕ) (s : Sys W)
        → Stands l st s
        → (t : Sys W) × (Stands l st t
            × (algorithm_run env s ≡ run_switch env d (seen_free env d s) t))
    looks = looks_free Q lo timeout v count healthy keys_keep calm listed

    -- A heartbeat in START, in a quorate partition.
    pub run_start :
        (l : List ℕ) (s : Sys W)
        → vquorum_get_quorate v ≡ true
        → Stands l start s
        → Completes (λ t. Stands (0 ∷ l) idle t × Voted sent idle (0 ∷ l) t) (algorithm_run env s)
    unfolding first_look
    run_start l s quorate h =
        let (t, (set, e)) = looks start l s h in
        rw e (switch_start (seen_free env d s) l t (rw h.view quorate) set)

    -- A heartbeat in IDLE, with exactly half of the nodes.
    pub run_idle :
        (l : List ℕ) (s : Sys W)
        → length v.visible_node_list < 2 ^ 31
        → length v.visible_node_list * 2 ≡ count
        → Stands l idle s
        → Completes
            (λ t. Stands (1 ∷ l) reserve_disk t × Voted sent reserve_disk (1 ∷ l) t)
            (algorithm_run env s)
    unfolding first_look tiebreak_needed vquorum_get_node_list
    run_idle l s small half h =
        let (t, (set, e)) = looks idle l s h in
        rw e (
          switch_idle (seen_free env d s) l t (rw (h.view, h.nodes) (ground (arith, half, small)))
            (no_holder (known_keys env s.vq s.vq.visible_node_list)) refl set)
