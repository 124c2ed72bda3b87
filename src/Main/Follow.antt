-- ===== src/Main/Follow.antt =====
-- qdiskd/main.c with qdiskd/vquorum.c and qdiskd/algorithm.c: the holder's key arrives, and the next
-- heartbeat follows the holder.
use corosync_qdisk.Prelude.{
  ℕ, ◌<◌, ◌*◌, ◌^◌, ◌≡◌, ◌≢◌, ◌⊎◌, refl, Option, none, some, Text, List, [], ◌∷◌, ◌++◌, false, All,
  IsIn, map, length, u64, is_negative, arith, ==_iff,
}
use corosync_qdisk.Corosync.{votes_in, cs_ok, Env, Request, extra_info_notify}
use corosync_qdisk.Reserve.{Device}
use corosync_qdisk.Log.{Log, update_blackbox_path_with_timestamp}
use corosync_qdisk.Vquorum.{
  Vquorum, NodeInfo, find_key, set_key, print_extra_info, dispatch, notify_all, notify,
  qdevice_extra_info_notify,
}
use corosync_qdisk.Vquorum.Service.{vquorum_dispatch_all}
use corosync_qdisk.Vquorum.Exchange.{known, find_key-set_key, parse_key-print_extra_info}
use corosync_qdisk.Daemon.{State, idle, recv_vote, Sys, Outcome, done, bind}
use corosync_qdisk.Algorithm.{algorithm_run}
use corosync_qdisk.Vquorum.{Vquorum}
use corosync_qdisk.Algorithm.Progress.{Completes, bind-Completes}
use corosync_qdisk.Algorithm.Held.{IsHeld}
use corosync_qdisk.Algorithm.Beats.{Voted, IsCalm, IsPoised}
use corosync_qdisk.Algorithm.Wait.{run_follows}
use corosync_qdisk.Main.{
  vquorum_ready, timer, add_timer, refresh_blackbox, stamp_blackbox, stamp_beside, notify_state,
  timer_cb, vquorum_loop_poll_dispatch_fn, handle, run_loop,
}

-- A key that is set leaves every node of the table in it.
set_key-listed :
    (n k : ℕ) (l : List NodeInfo) (ns : List ℕ)
    → All (λ j. find_key j l ≢ none) ns
    → All (λ j. find_key j (set_key n k l) ≢ none) ns
set_key-listed n k l [] h = tt
set_key-listed n k l (j ∷ ns) h =
    ((λ e. ground (arith, find_key-set_key n k j l, h.0)), set_key-listed n k l ns h.1)

module _ {W : Type 0} (env : Env W) (d : Device W) (sent : W → List ℕ) where
  -- The key that has arrived is that of the node.
  set_key-known :
      (n k : ℕ) (v : Vquorum) (ns : List ℕ)
      → IsIn n ns
      → IsIn k (map (known env (record v { node_list = set_key n k v.node_list })) ns)
  set_key-known n k v [] h = absurd h
  set_key-known n k v (j ∷ ns) h =
      ground (arith, h, set_key-known n k v ns, find_key-set_key n k j v.node_list, ==_iff n j)

  -- The state when the key of a node has arrived, in a later world.
  abbrev pub told : ℕ → ℕ → W → Sys W → Sys W
  told n k w s = record s { vq = record s.vq { node_list = set_key n k s.vq.node_list }; world = w }

  ready-told :
      (n size k : ℕ) (rest : Text) (s : Sys W)
      → k < 2 ^ 64
      → size ≢ 0
      → (env.call (Request.votequorum_dispatch s.vq.v_handle) s.world).0
        ≡ (cs_ok, extra_info_notify n size (print_extra_info k ++ rest) ∷ [])
      → handle env vquorum_ready s
        ≡ done tt (told n k (env.call (Request.votequorum_dispatch s.vq.v_handle) s.world).1 s)
  unfolding handle vquorum_loop_poll_dispatch_fn vquorum_dispatch_all dispatch notify_all notify
      qdevice_extra_info_notify
  ready-told n size k rest s small some_size news =
      ground (arith, some_size, news, parse_key-print_extra_info k 0 rest small)

  module _ (Q : W → Type 0)
      (call_keeps : (r : Request) → votes_in r ≡ [] → (w : W) → Q w → Q (env.call r w).1) where
    stamp_keeps :
        (real : Option Text) (l : Log) (w : W) → Q w → Q (stamp_beside env real (l, w)).1.1
    unfolding stamp_beside update_blackbox_path_with_timestamp
    stamp_keeps none l w q = q
    stamp_keeps (some path_buf) l w q =
        call_keeps Request.local_time refl _ (call_keeps (Request.dirname path_buf) refl w q)

    -- The timer is set for the next heartbeat, and this one runs in a later world.
    timer_beats :
        (s : Sys W)
        → Q s.world
        → ((ns : ℕ) (w : W)
            → Q w
            → is_negative (env.call (Request.qb_loop_timer_add ns) w).0 ≡ false)
        → (l : Log) × ((w : W) × (Q w
              × (handle env timer s
                  ≡ bind
                      (algorithm_run env (record s { log = l; world = w }))
                      (λ _. notify_state env))))
    unfolding handle timer_cb add_timer refresh_blackbox stamp_blackbox
    timer_beats s q set =
        let ns = u64 (s.alg.algorithm_heartbeat * 1000000) in
        let later = (env.call (Request.qb_loop_timer_add ns) s.world).1 in
        let real = env.call (Request.realpath s.log.corosync_logfile_path) later in
        let stamped = (stamp_beside env real.0 (s.log, real.1)).1 in
        (
          stamped.0,
          (
            stamped.1,
            (
              stamp_keeps real.0 s.log real.1 (
                  call_keeps (Request.realpath s.log.corosync_logfile_path) refl later
                    (call_keeps (Request.qb_loop_timer_add ns) refl s.world q)),
              rw (set ns s.world q) refl,
            ),
          ),
        )

  -- The notification at the end of a heartbeat sends no vote.
  notified :
      (Q : List ℕ → W → Type 0) (lo timeout : ℕ) (v : Vquorum) (count : ℕ)
      → IsCalm env d sent lo timeout Q
      → (st : State) (l : List ℕ) (o : Outcome W (Unit {0}))
      → Completes (λ t. IsPoised env d sent lo timeout v count (Q l) st t × Voted sent st l t) o
      → Completes (Voted sent st l) (bind o (λ _. notify_state env))
  unfolding notify_state
  notified Q lo timeout v count calm st l o h =
      bind-Completes (λ t. IsPoised env d sent lo timeout v count (Q l) st t × Voted sent st l t)
        (Voted sent st l) o (λ _. notify_state env) h
        (λ a t (set, voted).
          (set.at, calm.logs l _ (calm.call_sends (Request.sd_notify _) l t.world set.world)))

  -- On a disk that a node holds with the uint64_t key `k`, which is not ours and which that node
  -- shares as its extra info, and that can be read, with our key registered, every visible node in
  -- the table, a watchdog that does not run out, and timers that can be set: when the loop reads the
  -- key, of a visible node, from votequorum, which has no more news then, and its timer fires, in
  -- IDLE or RECV_VOTE with exactly half of the nodes visible, the heartbeat ends in RECV_VOTE and
  -- sends the vote 1 and no other.
  pub run_loop-receives :
      (Q : List ℕ → W → Type 0) (lo timeout k n size : ℕ) (rest : Text)
      → ((l : List ℕ) → IsHeld env d (Q l) k)
      → k ≢ d.get_ikey
      → IsCalm env d sent lo timeout Q
      → k < 2 ^ 64
      → size ≢ 0
      → (l : List ℕ)
      → ((ns : ℕ) (w : W)
          → Q l w
          → is_negative (env.call (Request.qb_loop_timer_add ns) w).0 ≡ false)
      → (s : Sys W) → All (λ j. find_key j s.vq.node_list ≢ none) s.vq.visible_node_list
      → length s.vq.visible_node_list < 2 ^ 31
      → length s.vq.visible_node_list * 2 ≡ s.cmap.node_count
      → IsIn n s.vq.visible_node_list
      → (st : State) → (st ≡ idle) ⊎ (st ≡ recv_vote)
      → IsPoised env d sent lo timeout s.vq s.cmap.node_count
          (λ w. Q l (env.call (Request.votequorum_dispatch s.vq.v_handle) w).1)
          st
          s
      → (env.call (Request.votequorum_dispatch s.vq.v_handle) s.world).0
        ≡ (cs_ok, extra_info_notify n size (print_extra_info k ++ rest) ∷ [])
      → Completes (Voted sent recv_vote (1 ∷ l)) (run_loop env false (vquorum_ready ∷ timer ∷ []) s)
  unfolding run_loop
  run_loop-receives Q lo timeout k n size rest hold other calm small some_size l set s listed few
        half seen st from h news =
      let ask = Request.votequorum_dispatch s.vq.v_handle in
      let t = told n k (env.call ask s.world).1 s in
      let (log, (w, (reached, e))) = timer_beats (Q l) (hold l).call_keeps t h.world set in
      let x = record t { log = log; world = w } in
      let ready : IsPoised env d sent lo timeout t.vq s.cmap.node_count (Q l) st x = record {
        world = reached;
        opened = h.opened;
        at = h.at;
        timeout_is = h.timeout_is;
        armed = h.armed;
        view = refl;
        nodes = refl;
      } in
      let voted =
        run_follows env d sent Q k lo timeout t.vq s.cmap.node_count hold other calm
          (set_key-listed n k s.vq.node_list s.vq.visible_node_list listed) few half l st x from
          (set_key-known n k s.vq s.vq.visible_node_list seen) ready in
      rw (ready-told n size k rest s small some_size news) (
        rw e (
          bind-Completes (Voted sent recv_vote (1 ∷ l)) (Voted sent recv_vote (1 ∷ l)) _ _
            (notified Q lo timeout t.vq s.cmap.node_count calm recv_vote (1 ∷ l) _ voted)
            (λ a u v. v)))
