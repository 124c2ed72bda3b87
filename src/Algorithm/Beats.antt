-- ===== src/Algorithm/Beats.antt =====
-- qdiskd/algorithm.c: what stays as it is over several heartbeats.
use corosync_qdisk.Prelude.{
  ℕ, ◌<◌, ◌≤◌, ◌+◌, ◌^◌, ◌≡◌, refl, some, false, arith, ltb, List, [], ◌∷◌, ◌++◌,
}
use corosync_qdisk.Corosync.{cs_ok, Env, Request, votes_in}
use corosync_qdisk.Reserve.{Device}
use corosync_qdisk.Vquorum.{Vquorum, dispatch, notify_all}
use corosync_qdisk.Vquorum.Service.{vquorum_qdevice_poll}
use corosync_qdisk.Daemon.{State, Sys, gettime_ms}
use corosync_qdisk.Algorithm.Release.{clock_of}
use corosync_qdisk.Algorithm.Progress.{Completes}
use corosync_qdisk.Algorithm.{Seen, run_finish}

-- The heartbeat has ended in a state, and the votes that have been sent are then `l`, the latest one
-- first.
abbrev pub Voted : {W : Type 0} → (W → List ℕ) → State → List ℕ → Sys W → Type 0
Voted sent st l t = (t.alg.state ≡ st) × (sent t.world ≡ l)

module _ {W : Type 0} (env : Env W) (d : Device W) (sent : W → List ℕ) (lo timeout : ℕ) where
  -- In the worlds of `Q l` the votes that have been sent are `l`, the latest one first, votequorum
  -- has no news, and the clock stands in the `timeout` milliseconds from `lo` on; a request adds its
  -- vote, if it carries one, and changes nothing else of this.
  pub record IsCalm (Q : List ℕ → W → Type 0) : Type 0 where
    pub logs : (l : List ℕ) (w : W) → Q l w → sent w ≡ l
    pub call_sends :
        (r : Request) (l : List ℕ) (w : W) → Q l w → Q (votes_in r ++ l) (env.call r w).1
    pub no_news :
        (handle : ℕ) (l : List ℕ) (w : W)
        → Q l w
        → (env.call (Request.votequorum_dispatch handle) w).0 ≡ (cs_ok, [])
    pub from_lo : (l : List ℕ) (w : W) → Q l w → lo ≤ clock_of env w
    pub before_end : (l : List ℕ) (w : W) → Q l w → clock_of env w ≤ lo + timeout
    pub no_overflow : lo + timeout + timeout < 2 ^ 64

  module _ (v : Vquorum) (count : ℕ) where
    -- The daemon stands in a state and in a world of `Q`, with its device open and with `v` and
    -- `count` for what it knows of the cluster, and its watchdog does not run out before the time is
    -- over.
    pub record IsPoised (Q : W → Type 0) (st : State) (s : Sys W) : Type 0 where
      pub world : Q s.world
      pub opened : s.alg.pr_device ≡ some d
      pub at : s.alg.state ≡ st
      pub timeout_is : s.alg.algorithm_timeout ≡ timeout
      pub armed : lo + timeout ≤ s.alg.good_heartbeat_timeout
      pub view : s.vq ≡ v
      pub nodes : s.cmap.node_count ≡ count

    pub alive :
        (Q : List ℕ → W → Type 0) (l : List ℕ) (st : State) (s : Sys W)
        → IsCalm Q
        → IsPoised (Q l) st s
        → ltb s.alg.good_heartbeat_timeout (clock_of env s.world) ≡ false
    alive Q l st s calm h = ground (arith, calm.before_end l s.world h.world, h.armed)

    -- Another state, another time, a world of `R`.
    pub move-IsPoised :
        (Q R : W → Type 0) (st next : State) (time : ℕ) (w : W) (s : Sys W)
        → R w
        → IsPoised Q st s
        → IsPoised R next
            (record s { alg = record s.alg { state = next; timeout_time = time }; world = w })
    move-IsPoised Q R st next time w s q h = record {
      world = q;
      opened = h.opened;
      at = refl;
      timeout_is = h.timeout_is;
      armed = h.armed;
      view = h.view;
      nodes = h.nodes;
    }

    -- Another world, of `R`.
    pub turn-IsPoised :
        (Q R : W → Type 0) (st : State) (w : W) (s : Sys W)
        → R w
        → IsPoised Q st s
        → IsPoised R st (record s { world = w })
    turn-IsPoised Q R st w s q h = record {
      world = q;
      opened = h.opened;
      at = h.at;
      timeout_is = h.timeout_is;
      armed = h.armed;
      view = h.view;
      nodes = h.nodes;
    }

    poll_sends :
        (Q : List ℕ → W → Type 0)
        → IsCalm Q
        → (n : ℕ) (l : List ℕ) (s : Sys W) → Q l s.world
        → (w : W) × (Q (n ∷ l) w × ((vquorum_qdevice_poll env n (s.vq, s.world)).1 ≡ (s.vq, w)))
    unfolding vquorum_qdevice_poll dispatch notify_all
    poll_sends Q calm n l s q =
        let ask = Request.votequorum_dispatch s.vq.v_handle in
        let cast = Request.votequorum_qdevice_poll s.vq.v_handle n s.vq.ring_id in
        let told = env.call ask s.world in
        (
          (env.call cast told.1).1,
          (
            calm.call_sends cast l told.1 (calm.call_sends ask l s.world q),
            ground (arith, calm.no_news s.vq.v_handle l s.world q),
          ),
        )

    -- The vote is sent, and the daemon is still poised.
    pub finish-IsPoised :
        (Q : List ℕ → W → Type 0)
        → IsCalm Q
        → (seen : Seen) (n : ℕ) (st : State) (l : List ℕ) (s : Sys W) → IsPoised (Q l) st s
        → Completes
            (λ t. IsPoised (Q (n ∷ l)) st t × Voted sent st (n ∷ l) t)
            (run_finish env seen (record { cast_vote = n; skip_poll = false }) s)
    unfolding run_finish gettime_ms
    finish-IsPoised Q calm seen n st l s h =
        let (w, (q, e)) = poll_sends Q calm n l s h.world in
        let ticked = calm.call_sends Request.clock_gettime (n ∷ l) w q in
        let from_lo = calm.from_lo (n ∷ l) w q in
        let before_end = calm.before_end (n ∷ l) w q in
        rw e (
          record {
            world = ticked;
            opened = h.opened;
            at = h.at;
            timeout_is = h.timeout_is;
            armed = ground (arith, from_lo, before_end, calm.no_overflow, h.timeout_is);
            view = h.view;
            nodes = h.nodes;
          },
          (h.at, calm.logs (n ∷ l) (env.call Request.clock_gettime w).1 ticked),
        )
