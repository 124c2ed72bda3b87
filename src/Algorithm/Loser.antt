-- ===== src/Algorithm/Loser.antt =====
-- qdiskd/algorithm.c: the heartbeats of a daemon that does not get the disk.
use corosync_qdisk.Prelude.{
  List, ◌∷◌, ℕ, zero, suc, ◌≡◌, ◌≢◌, refl, none, false, All, IsIn, map, arith, inl, pos, is_zero,
}
use corosync_qdisk.Corosync.{Env}
use corosync_qdisk.Reserve.{Device}
use corosync_qdisk.Vquorum.{Vquorum, find_key}
use corosync_qdisk.Vquorum.Exchange.{known, known_keys}
use corosync_qdisk.Daemon.{State, reserve_disk, resigned, Sys}
use corosync_qdisk.Algorithm.Visible.{holder_visible-known_keys}
use corosync_qdisk.Algorithm.Progress.{Completes}
use corosync_qdisk.Algorithm.Held.{IsHeld, seen_held, run-switches}
use corosync_qdisk.Algorithm.Beats.{
  Voted, IsCalm, IsPoised, alive, move-IsPoised, turn-IsPoised, finish-IsPoised,
}
use corosync_qdisk.Algorithm.{Seen, switch, run_switch, algorithm_run, first_look, holder_visible}

module _ {W : Type 0} (env : Env W) (d : Device W) (sent : W → List ℕ) where
  -- Each of `n` heartbeats in a row ends in RESIGNED and sends the vote 0; the votes before them are
  -- `l`.
  abbrev pub StaysOut : ℕ → List ℕ → Sys W → Type 0
  StaysOut zero l s = Unit
  StaysOut (suc n) l s =
      Completes (λ t. Voted sent resigned (0 ∷ l) t × StaysOut n (0 ∷ l) t) (algorithm_run env s)

  module _ (Q : List ℕ → W → Type 0) (k lo timeout : ℕ) (v : Vquorum) (count : ℕ)
      (hold : (l : List ℕ) → IsHeld env d (Q l) k) (other : k ≢ d.get_ikey)
      (calm : IsCalm env d sent lo timeout Q)
      (listed : All (λ n. find_key n v.node_list ≢ none) v.visible_node_list) where
    abbrev Stands : List ℕ → State → Sys W → Type 0
    Stands l st s = IsPoised env d sent lo timeout v count (Q l) st s

    -- The heartbeat comes to the switch, and the daemon is still poised there.
    pub looks :
        (st : State) (l : List ℕ) (s : Sys W)
        → Stands l st s
        → (t : Sys W) × (Stands l st t
            × (algorithm_run env s ≡ run_switch env d (seen_held env d k s) t))
    looks st l s h =
        let (w, (q, e)) =
          run-switches env d (Q l) k (hold l) s h.world (inl other) h.opened
            (alive env d sent lo timeout v count Q l st s calm h) (rw h.view listed) in
        (
          record s { world = w },
          (turn-IsPoised env d sent lo timeout v count (Q l) (Q l) st w s q h, e),
        )

    module _ (refused : (l : List ℕ) (w : W) → Q l w → is_zero (d.reserve w).0 ≡ false)
        (reserve_keeps : (l : List ℕ) (w : W) → Q l w → Q l (d.reserve w).1) where
      -- The switch in RESERVE_DISK: the disk is reserved, by a node that is not seen.
      switch_loses :
          (seen : Seen) (l : List ℕ) (s : Sys W)
          → seen.reserved ≡ pos 1
          → seen.resv_node_visible ≡ false
          → Stands l reserve_disk s
          → Completes
              (λ t. Stands (0 ∷ l) resigned t × Voted sent resigned (0 ∷ l) t)
              (run_switch env d seen s)
      unfolding run_switch switch
      switch_loses seen l s taken hidden h =
          let w = (d.reserve s.world).1 in
          ground (
            arith,
            h.at,
            taken,
            hidden,
            refused l s.world h.world,
            finish-IsPoised env d sent lo timeout v count Q calm seen 0 resigned l
                (record s { alg = record s.alg { state = resigned }; world = w })
                (move-IsPoised env d sent lo timeout v count (Q l) (Q l) reserve_disk resigned
                  s.alg.timeout_time w s (reserve_keeps l s.world h.world) h),
          )

      -- A heartbeat in RESERVE_DISK, when another node has the disk, no visible node has its key, and
      -- our reservation is refused: it resigns.
      pub run_loses :
          (l : List ℕ) (s : Sys W)
          → ¬ IsIn k (map (known env v) v.visible_node_list)
          → Stands l reserve_disk s
          → Completes
              (λ t. Stands (0 ∷ l) resigned t × Voted sent resigned (0 ∷ l) t)
              (algorithm_run env s)
      unfolding first_look
      run_loses l s hidden h =
          let (t, (set, e)) = looks reserve_disk l s h in
          let unseen : holder_visible k (known_keys env s.vq s.vq.visible_node_list) ≡ false =
            rw h.view
              (ground (arith, holder_visible-known_keys env k v v.visible_node_list, hidden)) in
          rw e (switch_loses (seen_held env d k s) l t refl unseen set)
