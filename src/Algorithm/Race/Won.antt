-- ===== src/Algorithm/Race/Won.antt =====
-- qdiskd/algorithm.c: the heartbeats of a daemon that reaches for a disk that nobody holds.
use corosync_qdisk.Prelude.{
  List, ◌∷◌, ℕ, ◌<◌, ◌*◌, ◌^◌, ◌≡◌, ◌≢◌, none, true, All, arith, length, pos,
}
use corosync_qdisk.Corosync.{Env}
use corosync_qdisk.Reserve.{Device}
use corosync_qdisk.Vquorum.{Vquorum, find_key}
use corosync_qdisk.Vquorum.Service.{vquorum_get_quorate}
use corosync_qdisk.Daemon.{State, start, idle, reserve_disk, have_qdisk, Sys}
use corosync_qdisk.Algorithm.Progress.{Completes, Completes-map, IsHealthy, seen_free}
use corosync_qdisk.Algorithm.Race.{looks_free, run_start, run_idle}
use corosync_qdisk.Algorithm.Beats.{Voted, IsCalm, IsPoised, move-IsPoised, finish-IsPoised}
use corosync_qdisk.Algorithm.{Seen, switch, run_switch, algorithm_run}

module _ {W : Type 0} (env : Env W) (d : Device W) (sent : W → List ℕ) where
  -- In the worlds of `Q` the disk is free, and a reservation succeeds and leads to a world of `R`.
  pub record IsWinnable (Q R : List ℕ → W → Type 0) : Type 0 where
    pub healthy : (l : List ℕ) → IsHealthy env d (Q l)
    pub keys_keep : (l : List ℕ) (w : W) → Q l w → Q l (d.get_registered_keys w).1
    pub reserve_succeeds : (l : List ℕ) (w : W) → Q l w → (d.reserve w).0 ≡ pos 0
    pub reserve_gains : (l : List ℕ) (w : W) → Q l w → R l (d.reserve w).1

  -- What three heartbeats in a row do, when the votes before them are `l`: the state and the votes at
  -- the end of each, and a world of `R` at the end.
  abbrev pub Wins : (List ℕ → W → Type 0) → List ℕ → Sys W → Type 0
  Wins R l s =
      Completes
        (λ t.
          Voted sent idle (0 ∷ l) t
          × Completes
              (λ u.
                Voted sent reserve_disk (1 ∷ 0 ∷ l) u
                × Completes
                    (λ x. R (1 ∷ 1 ∷ 0 ∷ l) x.world × Voted sent have_qdisk (1 ∷ 1 ∷ 0 ∷ l) x)
                    (algorithm_run env u))
              (algorithm_run env t))
        (algorithm_run env s)

  module _ (Q : List ℕ → W → Type 0) (lo timeout : ℕ) (v : Vquorum) (count : ℕ)
      (R : List ℕ → W → Type 0) (win : IsWinnable Q R) (held : IsCalm env d sent lo timeout R)
      (calm : IsCalm env d sent lo timeout Q)
      (listed : All (λ n. find_key n v.node_list ≢ none) v.visible_node_list) where
    abbrev Stands : List ℕ → State → Sys W → Type 0
    Stands l st s = IsPoised env d sent lo timeout v count (Q l) st s

    -- In RESERVE_DISK: the disk is reserved.
    switch_reserve_disk :
        (seen : Seen) (l : List ℕ) (s : Sys W)
        → Stands l reserve_disk s
        → Completes
            (λ t.
              IsPoised env d sent lo timeout v count (R (1 ∷ l)) have_qdisk t
              × Voted sent have_qdisk (1 ∷ l) t)
            (run_switch env d seen s)
    unfolding run_switch switch
    switch_reserve_disk seen l s h =
        let w = (d.reserve s.world).1 in
        ground (
          arith,
          h.at,
          win.reserve_succeeds l s.world h.world,
          finish-IsPoised env d sent lo timeout v count R held seen 1 have_qdisk l
              (record s { alg = record s.alg { state = have_qdisk }; world = w })
              (move-IsPoised env d sent lo timeout v count (Q l) (R l) reserve_disk have_qdisk
                s.alg.timeout_time w s (win.reserve_gains l s.world h.world) h),
        )

    pub run_reserve_disk :
        (l : List ℕ) (s : Sys W)
        → Stands l reserve_disk s
        → Completes
            (λ t.
              IsPoised env d sent lo timeout v count (R (1 ∷ l)) have_qdisk t
              × Voted sent have_qdisk (1 ∷ l) t)
            (algorithm_run env s)
    run_reserve_disk l s h =
        let (t, (set, e)) =
          looks_free env d sent Q lo timeout v count win.healthy win.keys_keep calm listed
            reserve_disk l s h in
        rw e (switch_reserve_disk (seen_free env d s) l t set)

    -- A daemon in START whose partition is quorate and has exactly half of the nodes, all of them in
    -- the table, and whose watchdog does not run out: when the disk is free and can be reserved and
    -- votequorum has no news, its first heartbeat ends in IDLE and sends the vote 0 and no other, the
    -- second one ends in RESERVE_DISK and sends 1, and the third one ends in HAVE_QDISK, in a world
    -- to which a successful reservation leads, and sends 1.
    pub run-Wins :
        (l : List ℕ) (s : Sys W)
        → vquorum_get_quorate v ≡ true
        → length v.visible_node_list < 2 ^ 31
        → length v.visible_node_list * 2 ≡ count
        → Stands l start s
        → Wins R l s
    run-Wins l s quorate small half h =
        Completes-map _ _ (algorithm_run env s)
          (run_start env d sent Q lo timeout v count win.healthy win.keys_keep calm listed l s
            quorate h)
          λ t (set, voted). (
            voted,
            Completes-map _ _ (algorithm_run env t)
                (run_idle env d sent Q lo timeout v count win.healthy win.keys_keep calm listed
                  (0 ∷ l) t small half set)
                λ u (ready, cast). (
                  cast,
                  Completes-map _ _ (algorithm_run env u) (run_reserve_disk (1 ∷ 0 ∷ l) u ready)
                      λ x (won, last). (won.world, last),
                ),
          )
