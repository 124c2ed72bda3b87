-- ===== src/Main/Loop.antt =====
-- qdiskd/main.c in the cluster: what the event loop of one daemon does to the hosts of Cluster.antt.
use corosync_qdisk.Prelude.{
  ℕ, ◌≡◌, refl, Bool, ◌||◌, Option, some, none, Text, List, [], ◌∷◌, ◌*◌, u64, is_negative,
  Bool-cases, inl, inr,
}
use corosync_qdisk.Corosync.{CsError, Env, Request}
use corosync_qdisk.Reserve.{Device}
use corosync_qdisk.Cmap.{qdisk_cmap_dispatch_all}
use corosync_qdisk.Cmap.Kept.{dispatch_all-kept}
use corosync_qdisk.Log.{Log, update_blackbox_path_with_timestamp, qdisk_dump_blackbox}
use corosync_qdisk.Vquorum.Service.{vquorum_dispatch_all}
use corosync_qdisk.Vquorum.Kept.{vquorum_dispatch_all-kept}
use corosync_qdisk.Daemon.{Sys, bind, in_log}
use corosync_qdisk.Algorithm.{algorithm_run}
use corosync_qdisk.Algorithm.Keeps.{run-IsKept}
use corosync_qdisk.Algorithm.Heartbeat.{run-Follows}
use corosync_qdisk.Cluster.{Node, Cluster, sys, node_of, Disk, here}
use corosync_qdisk.Main.{
  Event, timer, cmap_ready, vquorum_ready, please_exit, dump, is_exit, or_abort, add_timer,
  stamp_beside, stamp_blackbox, refresh_blackbox, notify_state, timer_cb,
  cmap_loop_poll_dispatch_fn, vquorum_loop_poll_dispatch_fn, handle, run_loop,
}
use corosync_qdisk.Main.Steps.{
  Reaches, Accounts, bind-Accounts, news_Reaches, crash_Reaches, beat_Accounts,
}

module _ {W : Type 0} {env : ℕ → Env W} {dev : ℕ → Device W} {holder : W → Option ℕ}
    (disk : Disk env dev holder) where
  pub add_timer-Accounts :
      (c : Cluster W) (i : ℕ) (s : Sys W)
      → s.alg.pr_device ≡ some (dev i)
      → Reaches disk c i (some (node_of s)) s.world
      → Accounts disk c i (add_timer (env i) s)
  unfolding add_timer
  add_timer-Accounts c i s h r =
      let t =
        (env i).call (Request.qb_loop_timer_add (u64 (s.alg.algorithm_heartbeat * 1000000)))
          s.world in
      let set =
        news_Reaches disk c i (node_of s) s.world s.cmap s.vq s.log t.1 r
          (λ k. (disk.keeps i k).call_keeps _ s.world) in
      elim (Bool-cases (is_negative t.0)) [
        | inl e ↦ rw e (crash_Reaches disk c i (node_of s) t.1 set)
        | inr e ↦ rw e (h, set)
      ]

  run-Accounts :
      (c : Cluster W) (i : ℕ) (s : Sys W)
      → s.alg.pr_device ≡ some (dev i)
      → Reaches disk c i (some (node_of s)) s.world
      → Accounts disk c i (algorithm_run (env i) s)
  run-Accounts c i s h r =
      beat_Accounts disk c i (node_of s) s.world (algorithm_run (env i) s) r refl
        (run-IsKept (env i) (dev i) (λ _. Unit)
          (record {
            call_keeps = λ _ _ h. h;
            is_reserved_keeps = λ _ h. h;
            owner_keeps = λ _ h. h;
            keys_keep = λ _ h. h;
            reserve_keeps = λ _ h. h;
          })
          (λ _ h. h) (λ _ h. h) s (h, tt))
        _ (run-Follows (env i) (dev i) s h)

  stamp_kept :
      (i k : ℕ) (real : Option Text) (l : Log) (w : W)
      → holder w ≡ some k
      → holder (stamp_beside (env i) real (l, w)).1.1 ≡ some k
  unfolding stamp_beside update_blackbox_path_with_timestamp
  stamp_kept i k none l w held = held
  stamp_kept i k (some path_buf) l w held =
      let kept = (disk.keeps i k).call_keeps in kept Request.local_time _ (kept _ w held)

  refresh-Accounts :
      (c : Cluster W) (i : ℕ) (s : Sys W)
      → s.alg.pr_device ≡ some (dev i)
      → Reaches disk c i (some (node_of s)) s.world
      → Accounts disk c i (in_log (refresh_blackbox (env i)) s)
  unfolding refresh_blackbox stamp_blackbox
  refresh-Accounts c i s h r =
      let real = (env i).call (Request.realpath s.log.corosync_logfile_path) s.world in
      let l = stamp_beside (env i) real.0 (s.log, real.1) in
      (
        h,
        news_Reaches disk c i (node_of s) s.world s.cmap s.vq l.1.0 l.1.1 r (λ k held.
            stamp_kept i k real.0 s.log real.1 ((disk.keeps i k).call_keeps _ s.world held)),
      )

  timer-Accounts :
      (c : Cluster W) (i : ℕ) (s : Sys W)
      → s.alg.pr_device ≡ some (dev i)
      → Reaches disk c i (some (node_of s)) s.world
      → Accounts disk c i (timer_cb (env i) s)
  unfolding timer_cb notify_state
  timer-Accounts c i s h r =
      let refreshed = bind (add_timer (env i) s) (λ _. in_log (refresh_blackbox (env i))) in
      bind-Accounts disk c i (bind refreshed (λ _. algorithm_run (env i))) _
        (bind-Accounts disk c i refreshed _
          (bind-Accounts disk c i (add_timer (env i) s) _ (add_timer-Accounts c i s h r)
            (λ _ t. refresh-Accounts c i t))
          (λ _ t. run-Accounts c i t))
        (λ _ t k l. (
          k,
          news_Reaches disk c i (node_of t) t.world t.cmap t.vq t.log _ l
              (λ j. (disk.keeps i j).call_keeps _ t.world),
        ))

  or_abort-Accounts :
      (c : Cluster W) (i : ℕ) (o : Option CsError) (s : Sys W)
      → s.alg.pr_device ≡ some (dev i)
      → Reaches disk c i (some (node_of s)) s.world
      → Accounts disk c i (or_abort o s)
  or_abort-Accounts c i none s h r = crash_Reaches disk c i (node_of s) s.world r
  or_abort-Accounts c i (some err) s h r = (h, r)

  handle-Accounts :
      (c : Cluster W) (i : ℕ) (e : Event) (s : Sys W)
      → s.alg.pr_device ≡ some (dev i)
      → Reaches disk c i (some (node_of s)) s.world
      → Accounts disk c i (handle (env i) e s)
  unfolding handle qdisk_dump_blackbox cmap_loop_poll_dispatch_fn vquorum_loop_poll_dispatch_fn
  handle-Accounts c i timer s h r = timer-Accounts c i s h r
  handle-Accounts c i cmap_ready s h r =
      let d = qdisk_cmap_dispatch_all (env i) (s.cmap, s.world) in
      or_abort-Accounts c i d.0 (record s { cmap = d.1.0; world = d.1.1 }) h
        (news_Reaches disk c i (node_of s) s.world d.1.0 s.vq s.log d.1.1 r (λ k.
          dispatch_all-kept (env i) (λ w. holder w ≡ some k) (disk.keeps i k).call_keeps s.cmap
            s.world))
  handle-Accounts c i vquorum_ready s h r =
      let d = vquorum_dispatch_all (env i) (s.vq, s.world) in
      or_abort-Accounts c i d.0 (record s { vq = d.1.0; world = d.1.1 }) h
        (news_Reaches disk c i (node_of s) s.world s.cmap d.1.0 s.log d.1.1 r (λ k.
          vquorum_dispatch_all-kept (env i) (λ w. holder w ≡ some k) (disk.keeps i k).call_keeps
            s.vq s.world))
  handle-Accounts c i please_exit s h r = (
    h,
    news_Reaches disk c i (node_of s) s.world s.cmap s.vq s.log _ r
        (λ k. (disk.keeps i k).call_keeps _ s.world),
  )
  handle-Accounts c i dump s h r = (
    h,
    news_Reaches disk c i (node_of s) s.world s.cmap s.vq s.log _ r
        (λ k. (disk.keeps i k).call_keeps _ s.world),
  )

  pub loop-Accounts :
      (c : Cluster W) (i : ℕ) (stop : Bool) (es : List Event) (s : Sys W)
      → s.alg.pr_device ≡ some (dev i)
      → Reaches disk c i (some (node_of s)) s.world
      → Accounts disk c i (run_loop (env i) stop es s)
  unfolding run_loop
  loop-Accounts c i stop [] s h r = (h, r)
  loop-Accounts c i stop (e ∷ es) s h r =
      bind-Accounts disk c i (handle (env i) e s) _ (handle-Accounts c i e s h r)
        (λ _ t. loop-Accounts c i (stop || is_exit e) es t)

  -- When the daemon of host `i` runs and has its device open, whatever events its loop handles are
  -- steps of the cluster: they lead to the daemon and the world that the loop leaves, or to a host
  -- whose daemon has ended when the loop ends the process, with every other daemon as it was. The
  -- loop follows no null pointer.
  pub run_loop-Accounts :
      (c : Cluster W) (i : ℕ) (n : Node W) (stop : Bool) (es : List Event)
      → c.node i ≡ some n
      → n.alg.pr_device ≡ some (dev i)
      → Accounts disk c i (run_loop (env i) stop es (sys n c.world))
  run_loop-Accounts c i n stop es e h =
      loop-Accounts c i stop es (sys n c.world) h (c, (here, (e, (refl, λ j ne. refl))))
