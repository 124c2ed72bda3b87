-- ===== src/Algorithm/Owner.antt =====
-- qdiskd/algorithm.c: the heartbeats of the daemon that holds the disk.
use corosync_qdisk.Prelude.{
  List, ◌∷◌, ℕ, zero, suc, ◌<◌, ◌*◌, ◌^◌, ◌≡◌, ◌≢◌, refl, none, true, false, All, arith, length,
  inr, pos,
}
use corosync_qdisk.Corosync.{Env}
use corosync_qdisk.Reserve.{Device}
use corosync_qdisk.Vquorum.{Vquorum, find_key}
use corosync_qdisk.Vquorum.Service.{vquorum_get_node_list}
use corosync_qdisk.Daemon.{State, idle, have_qdisk, release_qdisk, resigned, Sys}
use corosync_qdisk.Algorithm.Progress.{Completes, IsHealthy}
use corosync_qdisk.Algorithm.Held.{IsHeld, seen_held, run-switches}
use corosync_qdisk.Algorithm.Beats.{
  Voted, IsCalm, IsPoised, alive, move-IsPoised, turn-IsPoised, finish-IsPoised,
}
use corosync_qdisk.Algorithm.{
  Seen, switch, run_switch, algorithm_run, first_look, tiebreak_needed, may_hold,
}

module _ {W : Type 0} (env : Env W) (d : Device W) (sent : W → List ℕ) where
  -- Each of `n` heartbeats in a row ends in HAVE_QDISK and sends the vote 1; the votes before them are
  -- `l`.
  abbrev pub Holds : ℕ → List ℕ → Sys W → Type 0
  Holds zero l s = Unit
  Holds (suc n) l s =
      Completes (λ t. Voted sent have_qdisk (1 ∷ l) t × Holds n (1 ∷ l) t) (algorithm_run env s)

  -- Three heartbeats in a row: the state and the votes at the end of each, when the votes before them
  -- are `l`. After the second one the world is in `F`.
  abbrev pub LetsGo : (List ℕ → W → Type 0) → List ℕ → Sys W → Type 0
  LetsGo F l s =
      Completes
        (λ t.
          Voted sent release_qdisk (1 ∷ l) t
          × Completes
              (λ u.
                F (1 ∷ 1 ∷ l) u.world
                × (Voted sent idle (1 ∷ 1 ∷ l) u
                    × Completes (Voted sent resigned (0 ∷ 1 ∷ 1 ∷ l)) (algorithm_run env u)))
              (algorithm_run env t))
        (algorithm_run env s)

  module _ (Q : List ℕ → W → Type 0) (lo timeout : ℕ) (v : Vquorum) (count : ℕ)
      (hold : (l : List ℕ) → IsHeld env d (Q l) d.get_ikey) (calm : IsCalm env d sent lo timeout Q)
      (listed : All (λ n. find_key n v.node_list ≢ none) v.visible_node_list)
      (small : length v.visible_node_list < 2 ^ 31) where
    abbrev Stands : List ℕ → State → Sys W → Type 0
    Stands l st s = IsPoised env d sent lo timeout v count (Q l) st s

    -- The heartbeat comes to the switch, and the daemon is still poised there.
    looks_held :
        (st : State) (l : List ℕ) (s : Sys W)
        → may_hold st ≡ true
        → Stands l st s
        → (t : Sys W) × (Stands l st t
            × (algorithm_run env s ≡ run_switch env d (seen_held env d d.get_ikey s) t))
    looks_held st l s may h =
        let (w, (q, e)) =
          run-switches env d (Q l) d.get_ikey (hold l) s h.world (inr (rw h.at may)) h.opened
            (alive env d sent lo timeout v count Q l st s calm h) (rw h.view listed) in
        (
          record s { world = w },
          (turn-IsPoised env d sent lo timeout v count (Q l) (Q l) st w s q h, e),
        )

    -- The same, with another number of nodes.
    switch_lets_go :
        (seen : Seen) (l : List ℕ) (s : Sys W)
        → seen.reserved ≡ pos 1
        → seen.reservation_holder ≡ d.get_ikey
        → tiebreak_needed seen ≡ false
        → Stands l have_qdisk s
        → Completes
            (λ t. Stands (1 ∷ l) release_qdisk t × Voted sent release_qdisk (1 ∷ l) t)
            (run_switch env d seen s)
    unfolding run_switch switch
    switch_lets_go seen l s taken ours apart h = ground (
      arith,
      h.at,
      taken,
      ours,
      apart,
      finish-IsPoised env d sent lo timeout v count Q calm seen 1 release_qdisk l
          (record s { alg = record s.alg { state = release_qdisk } })
          (move-IsPoised env d sent lo timeout v count (Q l) (Q l) have_qdisk release_qdisk
            s.alg.timeout_time s.world s h.world h),
    )

    module _ (F : List ℕ → W → Type 0) (free : (l : List ℕ) → IsHealthy env d (F l))
        (keys_keep : (l : List ℕ) (w : W) → F l w → F l (d.get_registered_keys w).1)
        (freed : IsCalm env d sent lo timeout F)
        (releases : (l : List ℕ) (w : W) → Q l w → (d.release w).0 ≡ pos 0)
        (release_frees : (l : List ℕ) (w : W) → Q l w → F l (d.release w).1)
        (apart : length v.visible_node_list * 2 ≢ count) where
      -- In RELEASE_QDISK: the disk is released.
      switch_releases :
          (seen : Seen) (l : List ℕ) (s : Sys W)
          → Stands l release_qdisk s
          → Completes
              (λ t.
                IsPoised env d sent lo timeout v count (F (1 ∷ l)) idle t
                × Voted sent idle (1 ∷ l) t)
              (run_switch env d seen s)
      unfolding run_switch switch
      switch_releases seen l s h =
          let w = (d.release s.world).1 in
          ground (
            arith,
            h.at,
            releases l s.world h.world,
            finish-IsPoised env d sent lo timeout v count F freed seen 1 idle l
                (record s { alg = record s.alg { state = idle }; world = w })
                (move-IsPoised env d sent lo timeout v count (Q l) (F l) release_qdisk idle
                  s.alg.timeout_time w s (release_frees l s.world h.world) h),
          )

      -- The first heartbeat, with another number of nodes than half.
      pub run_lets_go :
          (l : List ℕ) (s : Sys W)
          → Stands l have_qdisk s
          → Completes
              (λ t. Stands (1 ∷ l) release_qdisk t × Voted sent release_qdisk (1 ∷ l) t)
              (algorithm_run env s)
      unfolding first_look tiebreak_needed vquorum_get_node_list
      run_lets_go l s h =
          let (t, (set, e)) = looks_held have_qdisk l s refl h in
          rw e (
            switch_lets_go (seen_held env d d.get_ikey s) l t refl refl
              (rw (h.view, h.nodes) (ground (arith, apart, small))) set)

      -- The second heartbeat.
      pub run_releases :
          (l : List ℕ) (s : Sys W)
          → Stands l release_qdisk s
          → Completes
              (λ t.
                IsPoised env d sent lo timeout v count (F (1 ∷ l)) idle t
                × Voted sent idle (1 ∷ l) t)
              (algorithm_run env s)
      run_releases l s h =
          let (t, (set, e)) = looks_held release_qdisk l s refl h in
          rw e (switch_releases (seen_held env d d.get_ikey s) l t set)
