-- ===== src/Algorithm/Wait.antt =====
-- qdiskd/algorithm.c: a heartbeat in IDLE or RECV_VOTE on a disk that another node holds.
use corosync_qdisk.Prelude.{
  ℕ, ◌<◌, ◌*◌, ◌+◌, ◌^◌, ◌≡◌, ◌≢◌, ◌⊎◌, inl, refl, sym, none, true, false, Bool, ltb, All, IsIn,
  map, arith, length, pos, u64, List, ◌∷◌,
}
use corosync_qdisk.Corosync.{Env, Request}
use corosync_qdisk.Reserve.{Device}
use corosync_qdisk.Vquorum.{Vquorum, find_key}
use corosync_qdisk.Vquorum.Service.{vquorum_get_node_list}
use corosync_qdisk.Vquorum.Exchange.{known, known_keys}
use corosync_qdisk.Daemon.{State, idle, recv_vote, resigned, Sys, gettime_ms}
use corosync_qdisk.Algorithm.Release.{clock_of}
use corosync_qdisk.Algorithm.Visible.{holder_visible-known_keys}
use corosync_qdisk.Algorithm.Progress.{Completes, Completes-map}
use corosync_qdisk.Algorithm.Held.{IsHeld, seen_held, run-switches}
use corosync_qdisk.Algorithm.Beats.{
  Voted, IsCalm, IsPoised, alive, turn-IsPoised, move-IsPoised, finish-IsPoised,
}
use corosync_qdisk.Algorithm.Loser.{looks}
use corosync_qdisk.Algorithm.{
  Seen, switch, run_finish, run_switch, algorithm_run, first_look, holder_visible, tiebreak_needed,
  restart_timeout, timed_out,
}

module _ {W : Type 0} (env : Env W) (d : Device W) (sent : W → List ℕ) where
  -- What the time decides, when the votes before are `l`: after it the daemon resigns and sends 0,
  -- before it the daemon waits, sends nothing and leaves what it knows of votequorum alone.
  abbrev pub Waits : Bool → List ℕ → Vquorum → Sys W → Type 0
  Waits true l v t = Voted sent resigned (0 ∷ l) t
  Waits false l v t = Voted sent idle l t × (t.vq ≡ v)

  module _ (Q : List ℕ → W → Type 0) (k lo timeout : ℕ) (v : Vquorum) (count : ℕ)
      (hold : (l : List ℕ) → IsHeld env d (Q l) k) (other : k ≢ d.get_ikey)
      (calm : IsCalm env d sent lo timeout Q)
      (listed : All (λ n. find_key n v.node_list ≢ none) v.visible_node_list)
      (small : length v.visible_node_list < 2 ^ 31)
      (half : length v.visible_node_list * 2 ≡ count) where
    abbrev Stands : List ℕ → State → Sys W → Type 0
    Stands l st s = IsPoised env d sent lo timeout v count (Q l) st s

    seen_half :
        (st : State) (l : List ℕ) (s : Sys W)
        → Stands l st s
        → tiebreak_needed (seen_held env d k s) ≡ true
    unfolding first_look tiebreak_needed vquorum_get_node_list
    seen_half st l s h = rw (h.view, h.nodes) (ground (arith, half, small))

    switch_late :
        (seen : Seen) (l : List ℕ) (s : Sys W)
        → tiebreak_needed seen ≡ true
        → seen.resv_node_visible ≡ false
        → seen.reserved ≡ pos 1
        → ltb s.alg.timeout_time (clock_of env s.world) ≡ true
        → Stands l idle s
        → Completes
            (λ t. Stands (0 ∷ l) resigned t × Voted sent resigned (0 ∷ l) t)
            (run_switch env d seen s)
    unfolding run_switch switch timed_out gettime_ms
    switch_late seen l s needed hidden taken late h =
        let w = (env.call Request.clock_gettime s.world).1 in
        ground (
          arith,
          h.at,
          needed,
          hidden,
          taken,
          late,
          finish-IsPoised env d sent lo timeout v count Q calm seen 0 resigned l
              (record s { alg = record s.alg { state = resigned }; world = w })
              (move-IsPoised env d sent lo timeout v count (Q l) (Q l) idle resigned
                s.alg.timeout_time w s (calm.call_sends Request.clock_gettime l s.world h.world) h),
        )

    switch_early :
        (seen : Seen) (l : List ℕ) (s : Sys W)
        → tiebreak_needed seen ≡ true
        → seen.resv_node_visible ≡ false
        → seen.reserved ≡ pos 1
        → ltb s.alg.timeout_time (clock_of env s.world) ≡ false
        → Stands l idle s
        → Completes (Waits false l s.vq) (run_switch env d seen s)
    unfolding run_switch switch timed_out run_finish gettime_ms
    switch_early seen l s needed hidden taken early h =
        let w = (env.call Request.clock_gettime s.world).1 in
        let once = calm.call_sends Request.clock_gettime l s.world h.world in
        let twice = calm.call_sends Request.clock_gettime l w once in
        ground (
          arith,
          h.at,
          needed,
          hidden,
          taken,
          early,
          calm.logs l (env.call Request.clock_gettime w).1 twice,
        )

    switch-Waits :
        (seen : Seen) (late : Bool) (l : List ℕ) (s : Sys W)
        → tiebreak_needed seen ≡ true
        → seen.resv_node_visible ≡ false
        → seen.reserved ≡ pos 1
        → ltb s.alg.timeout_time (clock_of env s.world) ≡ late
        → Stands l idle s
        → Completes (Waits late l s.vq) (run_switch env d seen s)
    switch-Waits seen true l s needed hidden taken time h =
        Completes-map _ _ (run_switch env d seen s)
          (switch_late seen l s needed hidden taken time h) λ t (set, voted). voted
    switch-Waits seen false l s needed hidden taken time h =
        switch_early seen l s needed hidden taken time h

    -- On a disk that another node holds with the key `k` and that can be read, with our key
    -- registered, no news from votequorum, every visible node in the table and a watchdog that does
    -- not run out, a heartbeat in IDLE that sees exactly half of the nodes, and among them none with
    -- the key `k`: when the clock has passed the time it ends in RESIGNED and sends the vote 0 and no
    -- other, and when it has not it ends in IDLE, sends no vote and leaves what it knows of
    -- votequorum alone.
    pub run-Waits :
        (l : List ℕ) (s : Sys W)
        → ¬ IsIn k (map (known env v) v.visible_node_list)
        → (late : Bool) → ((w : W) → Q l w → ltb s.alg.timeout_time (clock_of env w) ≡ late)
        → Stands l idle s
        → Completes (Waits late l v) (algorithm_run env s)
    unfolding first_look
    run-Waits l s hidden late time h =
        let (w, (q, e)) =
          run-switches env d (Q l) k (hold l) s h.world (inl other) h.opened
            (alive env d sent lo timeout v count Q l idle s calm h) (rw h.view listed) in
        let set = turn-IsPoised env d sent lo timeout v count (Q l) (Q l) idle w s q h in
        let unseen : holder_visible k (known_keys env s.vq s.vq.visible_node_list) ≡ false =
          rw h.view
            (ground (arith, holder_visible-known_keys env k v v.visible_node_list, hidden)) in
        rw (e, sym h.view)
          (switch-Waits (seen_held env d k s) late l (record s { world = w }) (seen_half idle l s h)
            unseen refl (time w q) set)

    switch_follows :
        (seen : Seen) (l : List ℕ) (st : State) (s : Sys W)
        → (st ≡ idle) ⊎ (st ≡ recv_vote)
        → tiebreak_needed seen ≡ true
        → seen.resv_node_visible ≡ true
        → Stands l st s
        → Completes
            (λ t. Stands (1 ∷ l) recv_vote t × Voted sent recv_vote (1 ∷ l) t)
            (run_switch env d seen s)
    unfolding run_switch switch restart_timeout gettime_ms
    switch_follows seen l st s from needed visible h =
        let w = (env.call Request.clock_gettime s.world).1 in
        let time = u64 (clock_of env s.world + s.alg.algorithm_timeout) in
        ground (
          arith,
          h.at,
          from,
          needed,
          visible,
          finish-IsPoised env d sent lo timeout v count Q calm seen 1 recv_vote l
              (record s {
                alg = record s.alg { state = recv_vote; timeout_time = time };
                world = w;
              })
              (move-IsPoised env d sent lo timeout v count (Q l) (Q l) st recv_vote time w s
                (calm.call_sends Request.clock_gettime l s.world h.world) h),
        )

    -- A heartbeat in IDLE or RECV_VOTE that sees exactly half of the nodes, and among them one with the
    -- key `k`.
    pub run_follows :
        (l : List ℕ) (st : State) (s : Sys W)
        → (st ≡ idle) ⊎ (st ≡ recv_vote)
        → IsIn k (map (known env v) v.visible_node_list)
        → Stands l st s
        → Completes
            (λ t. Stands (1 ∷ l) recv_vote t × Voted sent recv_vote (1 ∷ l) t)
            (algorithm_run env s)
    run_follows l st s from visible h =
        let (t, (set, e)) =
          looks env d sent Q k lo timeout v count hold other calm listed st l s h in
        let holder : holder_visible k (known_keys env s.vq s.vq.visible_node_list) ≡ true =
          rw h.view (
            (holder_visible-known_keys env k v v.visible_node_list).1 ((hold l).is_key, visible)) in
        rw e (switch_follows (seen_held env d k s) l st t from (seen_half st l s h) holder set)
